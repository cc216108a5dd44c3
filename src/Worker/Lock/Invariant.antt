-- ===== src/Worker/Lock/Invariant.antt =====
-- infra/engine/runtime/cas_lock.go: what holds between a task key and the workers at it.
use vibeflow.Prelude.{
  ℕ, ◌≤◌, ◌<◌, ◌≡◌, ◌≢◌, refl, sym, ap, ◌∙◌, Bool, true, false, nat_beq, nat_beq_iff, arith,
  Bool-cases, inl, inr, ◌⊎◌,
}
use vibeflow.Store.{TaskPayload}
use vibeflow.Worker.Lock.{
  Stored, absent, garbled, task, is_pending, Phase, reading, writing, acquired, refused, after_read,
}
use vibeflow.Worker.Lock.Moves.{Workers, put}

-- A task that a worker may still take.
abbrev pub is_open : Stored → Bool
is_open absent = false
is_open garbled = false
is_open (task p) = is_pending p.status

abbrev pub holds : Phase → Bool
holds (acquired p) = true
holds _ = false

abbrev pub Ahead : Stored → ℕ → Phase → Type 0
Ahead v r (writing left p q) = (q ≤ r) × (q ≡ r → is_open v ≡ true)
Ahead v r _ = Unit {0}

-- The value and the revision of the key, and the workers.
pub record Inv (v : Stored) (r : ℕ) (ws : Workers) : Type 0 where
  pub ahead : (i : ℕ) → Ahead v r (ws i)
  pub taken : (i : ℕ) → holds (ws i) ≡ true → is_open v ≡ false
  pub single : (i j : ℕ) → holds (ws i) ≡ true → holds (ws j) ≡ true → i ≡ j

pub put-cases :
    (i j : ℕ) (ph : Phase) (ws : Workers) → (j ≡ i) × (put i ph ws j ≡ ph) ⊎ (put i ph ws j ≡ ws j)
unfolding put
put-cases i j ph ws = elim (Bool-cases (nat_beq j i)) [
  | inl same ↦ inl ((nat_beq_iff j i).0 same, rw same refl)
  | inr other ↦ inr (rw other refl)
]

pub put-Inv :
    (v : Stored) (r i : ℕ) (ph : Phase) (ws : Workers)
    → Inv v r ws
    → Ahead v r ph
    → (holds ph ≡ true → holds (ws i) ≡ true)
    → Inv v r (put i ph ws)
put-Inv v r i ph ws inv a h = record {
  ahead = λ j. elim (put-cases i j ph ws) [
    | inl here ↦ rw here.1 a
    | inr there ↦ rw there (inv.ahead j)
  ];
  taken = λ j e. inv.taken j (held j e);
  single = λ j k e f. inv.single j k (held j e) (held k f);
}
  where
    held : (j : ℕ) → holds (put i ph ws j) ≡ true → holds (ws j) ≡ true
    held j e = elim (put-cases i j ph ws) [
      | inl here ↦ ap (λ n. holds (ws n)) here.0 ∙ h (ap holds (sym here.1) ∙ e)
      | inr there ↦ ap holds (sym there) ∙ e
    ]

pub Ahead-raised : (v w : Stored) (r q : ℕ) (ph : Phase) → r < q → Ahead v r ph → Ahead w q ph
Ahead-raised v w r q (reading left) l a = tt
Ahead-raised v w r q (writing left p x) l a = (omega arith, λ e. absurd (omega arith))
Ahead-raised v w r q (acquired p) l a = tt
Ahead-raised v w r q refused l a = tt

pub raised-Inv :
    (v w : Stored) (r q : ℕ) (ws : Workers) → r < q → is_open w ≡ false → Inv v r ws → Inv w q ws
raised-Inv v w r q ws l shut inv = record {
  ahead = λ j. Ahead-raised v w r q (ws j) l (inv.ahead j);
  taken = λ j e. shut;
  single = inv.single;
}

-- With nobody holding the task, a worker may take it.
pub acquired-Inv :
    (v : Stored) (r i : ℕ) (p : TaskPayload) (ws : Workers)
    → Inv v r ws
    → is_open v ≡ false
    → ((j : ℕ) → holds (ws j) ≡ false)
    → Inv v r (put i (acquired p) ws)
acquired-Inv v r i p ws inv shut free = record {
  ahead = λ j. elim (put-cases i j (acquired p) ws) [
    | inl here ↦ rw here.1 tt
    | inr there ↦ rw there (inv.ahead j)
  ];
  taken = λ j e. shut;
  single = λ j k e f. only j e ∙ sym (only k f);
}
  where
    only : (j : ℕ) → holds (put i (acquired p) ws j) ≡ true → j ≡ i
    only j e = elim (put-cases i j (acquired p) ws) [
      | inl here ↦ here.0
      | inr there ↦ absurd (ground (arith, ap holds (sym there) ∙ e, free j))
    ]

pub holds-cases : (b : Bool) → b ≢ true → b ≡ false
holds-cases b n = ground arith

pub after_read-Ahead :
    (left r : ℕ) (v : Stored)
    → Ahead v r (after_read left v r) × (holds (after_read left v r) ≡ false)
unfolding after_read
after_read-Ahead left r absent = (tt, refl)
after_read-Ahead left r garbled = (tt, refl)
after_read-Ahead left r (task p) = elim (Bool-cases (is_pending p.status)) [
  | inl open_still ↦ rw open_still ((omega arith, λ e. open_still), refl)
  | inr shut ↦ rw shut (tt, refl)
]
