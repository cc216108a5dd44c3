-- ===== src/Heap/Swap.antt =====
-- Go's `container/heap`: what a swap does to the entries, and the order among them.
use mathlib.Core.Logic.{∥∥₁_elim}
use native.Mathlib.Nat.{ℕ_set}
use mathlib.Core.List.{Perm, Permᴰ}
use mathlib.Core.List.Perm
use vibeflow.Prelude.{
  ℕ, zero, suc, ◌<◌, ◌≡◌, refl, sym, ap, ◌∙◌, Bool, true, false, List, [], ◌∷◌, ◌++◌, some, length,
  get_elem?, nat_beq, if◌then◌else◌, arith, Option-cases, inl, inr,
}
use vibeflow.Heap.{set, swap, less_at}

-- The index that holds at `c` after the swap.
abbrev pub moved : ℕ → ℕ → ℕ → ℕ
moved i j c = if nat_beq c i then j else if nat_beq c j then i else c

module _ {A : Type 0} where
  length-set : (a : List A) (i : ℕ) (v : A) → length (set a i v) ≡ length a
  unfolding set
  length-set [] i v = refl
  length-set (x ∷ a) zero v = refl
  length-set (x ∷ a) (suc i) v = ap suc (length-set a i v)

  get_elem?-set :
      (a : List A) (i : ℕ) (v : A) (c : ℕ)
      → i < length a
      → get_elem? (set a i v) c ≡ (if nat_beq c i then some v else get_elem? a c)
  unfolding set
  get_elem?-set [] i v c h = absurd (omega arith)
  get_elem?-set (x ∷ a) zero v zero h = refl
  get_elem?-set (x ∷ a) zero v (suc c) h = ground arith
  get_elem?-set (x ∷ a) (suc i) v zero h = ground arith
  get_elem?-set (x ∷ a) (suc i) v (suc c) h = ground (arith, get_elem?-set a i v c (omega arith))

  pub there : (a : List A) (i : ℕ) → i < length a → (x : A) × (get_elem? a i ≡ some x)
  there [] i h = absurd (omega arith)
  there (x ∷ a) zero h = (x, refl)
  there (x ∷ a) (suc i) h = there a i (omega arith)

  pub within : (a : List A) (i : ℕ) (x : A) → get_elem? a i ≡ some x → i < length a
  within [] i x h = absurd (ground arith)
  within (y ∷ a) zero x h = omega arith
  within (y ∷ a) (suc i) x h = omega (arith, within a i x h)

  pub get_elem?-append :
      (a b : List A) (i : ℕ) → i < length a → get_elem? (a ++ b) i ≡ get_elem? a i
  get_elem?-append (x ∷ a) b (suc i) h = get_elem?-append a b i (omega arith)
  get_elem?-append (x ∷ a) b zero h = refl
  get_elem?-append [] b i h = absurd (omega arith)

  same_length : {h g : List A} → Permᴰ h g → length h ≡ length g
  same_length (Permᴰ.trans first second) = same_length first ∙ same_length second
  same_length (Permᴰ.swap x y) = refl
  same_length (Permᴰ.cons x rest) = ap suc (same_length rest)
  same_length Permᴰ.nil = refl

  pub length-Perm : {a b : List A} → Perm a b → length a ≡ length b
  length-Perm p = ∥∥₁_elim p (ℕ_set _ _) same_length

  set-Perm : (a : List A) (i : ℕ) (x v : A) → get_elem? a i ≡ some x → Perm (x ∷ set a i v) (v ∷ a)
  unfolding set
  set-Perm [] i x v h = absurd (ground arith)
  set-Perm (y ∷ a) zero x v h = let e : y ≡ x = ground (arith, h) in rw (sym e) (Perm.swap v y a)
  set-Perm (y ∷ a) (suc i) x v h =
      Perm.trans (Perm.swap y x _) (Perm.trans (Perm.cons y (set-Perm a i x v h)) (Perm.swap v y a))

  module _ (a : List A) (i j : ℕ) (hi : i < length a) (hj : j < length a) where
    swap-set :
        (x : A) × (y : A) × (get_elem? a i ≡ some x)
        × (get_elem? a j ≡ some y)
        × (swap a i j ≡ set (set a i y) j x)
    unfolding swap
    swap-set =
        let (x, ex) = there a i hi in
        let (y, ey) = there a j hj in (x, y, ex, ey, rw (ex, swap) (rw (ey, swap) refl))

    pub length-swap : length (swap a i j) ≡ length a
    length-swap =
        let (x, y, _, _, e) = swap-set in
        ap length e ∙ length-set (set a i y) j x ∙ length-set a i y

    pub get_elem?-swap : (c : ℕ) → get_elem? (swap a i j) c ≡ get_elem? a (moved i j c)
    get_elem?-swap c =
        let (x, y, ex, ey, e) = swap-set in
        let outer = get_elem?-set (set a i y) j x c (omega (arith, length-set a i y)) in
        ap (λ b. get_elem? b c) e ∙ ground (arith, outer, get_elem?-set a i y c hi, ex, ey)

    pub swap-Perm : Perm (swap a i j) a
    swap-Perm =
        let (x, y, ex, ey, e) = swap-set in
        let b = set a i y in
        let kept : get_elem? b j ≡ some y = ground (arith, get_elem?-set a i y j hi, ey) in
        rw e (Perm.cons_inv (Perm.trans (set-Perm b j y x kept) (set-Perm a i x y ex)))

    pub less_at-swap :
        (less : A → A → Bool) (c d : ℕ)
        → less_at less (swap a i j) c d ≡ less_at less a (moved i j c) (moved i j d)
    unfolding less_at
    less_at-swap less c d = ground (arith, get_elem?-swap c, get_elem?-swap d)

-- What the heap needs of an order: `less` is irreflexive, and its negation is transitive.
pub record StrictWeak {A : Type 0} (less : A → A → Bool) : Type 0 where
  pub irreflexive : (x : A) → less x x ≡ false
  pub asymmetric : (x y : A) → less x y ≡ true → less y x ≡ false
  pub transitive : (x y z : A) → less y x ≡ false → less z y ≡ false → less z x ≡ false

module _ {A : Type 0} (less : A → A → Bool) (order : StrictWeak less) (a : List A) where
  pub at_refl : (i : ℕ) → less_at less a i i ≡ false
  unfolding less_at
  at_refl i = elim (Option-cases (get_elem? a i)) [
    | inl e ↦ rw (e, less_at) refl
    | inr (x, e) ↦ rw (e, less_at) (rw e (order.irreflexive x))
  ]

  pub at_asym : (i j : ℕ) → less_at less a i j ≡ true → less_at less a j i ≡ false
  unfolding less_at
  at_asym i j h = elim (Option-cases (get_elem? a i)) [
    | inl e ↦ absurd (ground (arith, e, h))
    | inr (x, e) ↦ elim (Option-cases (get_elem? a j)) [
      | inl f ↦ rw (f, less_at) (ground arith)
      | inr (y, f) ↦
          rw (f, less_at) (rw (e, less_at) (order.asymmetric x y (ground (arith, e, f, h))))
    ]
  ]

  pub at_trans :
      (i j k : ℕ)
      → j < length a
      → less_at less a j i ≡ false
      → less_at less a k j ≡ false
      → less_at less a k i ≡ false
  unfolding less_at
  at_trans i j k r h g =
      let (y, f) = there a j r in
      elim (Option-cases (get_elem? a k)) [
        | inl e ↦ rw (e, less_at) refl
        | inr (z, e) ↦ elim (Option-cases (get_elem? a i)) [
          | inl d ↦ rw (e, d, less_at) (ground arith)
          | inr (x, d) ↦
              rw (e, less_at)
                (rw (d, less_at)
                  (order.transitive x y z (ground (arith, f, d, h)) (ground (arith, e, f, g))))
        ]
      ]
