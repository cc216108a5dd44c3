-- ===== src/Worker/Queue/Order.antt =====
-- infra/engine/runtime/priority_queue.go: the order of the queue, and lists in that order.
use mathlib.Core.Bool.{Bool-set}
use mathlib.Core.List.{Perm, Mem, not-mem-nil, forall_mem-cons}
use mathlib.Core.List.Perm
use vibeflow.Prelude.{
  ℕ, ◌<◌, ◌≡◌, refl, ap, true, List, [], ◌∷◌, map, ℤ, ltb_ℤ, arith, if◌then◌else◌, Bool-cases, inl,
  inr, suc,
}
use vibeflow.Heap.Swap.{StrictWeak}
use vibeflow.Worker.Queue.{PrioritizedTask, less}

module _ {E : Type 0} where
  pub less-StrictWeak : StrictWeak (less {E = E})
  less-StrictWeak = record {
    irreflexive = λ x. ground arith;
    asymmetric = λ x y h. ground arith;
    transitive = λ x y z h g. ground arith;
  }

  -- Behind all that have at least its priority.
  unfoldable pub insert_after : E → ℤ → List (E × ℤ) → List (E × ℤ)
  insert_after e p [] = (e, p) ∷ []
  insert_after e p ((f, q) ∷ l) =
      let rest = insert_after e p l in if ltb_ℤ q p then (e, p) ∷ (f, q) ∷ l else (f, q) ∷ rest

  -- The same on the tasks of the queue.
  unfoldable pub insert_task :
      PrioritizedTask E → List (PrioritizedTask E) → List (PrioritizedTask E)
  insert_task t [] = t ∷ []
  insert_task t (u ∷ l) =
      let rest = insert_task t l in if ltb_ℤ u.priority t.priority then t ∷ u ∷ l else u ∷ rest

  abbrev pub view : PrioritizedTask E → E × ℤ
  view t = (t.event, t.priority)

  abbrev pub All : (PrioritizedTask E → Type 0) → List (PrioritizedTask E) → Type 0
  All P [] = Unit {0}
  All P (x ∷ l) = P x × All P l

  abbrev pub AllLess : PrioritizedTask E → List (PrioritizedTask E) → Type 0
  AllLess t = All λ u. less t u ≡ true

  -- Each comes before those behind it.
  abbrev pub Ordered : List (PrioritizedTask E) → Type 0
  Ordered [] = Unit {0}
  Ordered (x ∷ l) = AllLess x l × Ordered l

  abbrev pub AllBelow : ℕ → List (PrioritizedTask E) → Type 0
  AllBelow n = All λ u. u.index < n

  pub map-insert :
      (t : PrioritizedTask E) (l : List (PrioritizedTask E))
      → map view (insert_task t l) ≡ insert_after t.event t.priority (map view l)
  unfolding insert_task insert_after
  map-insert t [] = refl
  map-insert t (u ∷ l) = elim (Bool-cases (ltb_ℤ u.priority t.priority)) [
    | inl above ↦ rw above refl
    | inr below ↦ rw below (ap (◌∷◌ (view u)) (map-insert t l))
  ]

  pub insert-Perm :
      (t : PrioritizedTask E) (l : List (PrioritizedTask E)) → Perm (insert_task t l) (t ∷ l)
  unfolding insert_task
  insert-Perm t [] = Perm.rfl
  insert-Perm t (u ∷ l) = elim (Bool-cases (ltb_ℤ u.priority t.priority)) [
    | inl above ↦ rw above Perm.rfl
    | inr below ↦ rw below (Perm.trans (Perm.cons u (insert-Perm t l)) (Perm.swap t u l))
  ]

  insert-All :
      (P : PrioritizedTask E → Type 0) (t : PrioritizedTask E) (l : List (PrioritizedTask E))
      → P t
      → All P l
      → All P (insert_task t l)
  unfolding insert_task
  insert-All P t [] h a = (h, a)
  insert-All P t (u ∷ l) h a = elim (Bool-cases (ltb_ℤ u.priority t.priority)) [
    | inl above ↦ rw above (h, a)
    | inr below ↦ rw below (a.0, insert-All P t l h a.1)
  ]

  All-map :
      (P Q : PrioritizedTask E → Type 0)
      → ((u : PrioritizedTask E) → P u → Q u)
      → (l : List (PrioritizedTask E)) → All P l
      → All Q l
  All-map P Q f [] a = a
  All-map P Q f (u ∷ l) a = (f u a.0, All-map P Q f l a.1)

  pub insert-Ordered :
      (t : PrioritizedTask E) (l : List (PrioritizedTask E))
      → AllBelow t.index l
      → Ordered l
      → Ordered (insert_task t l)
  unfolding insert_task
  insert-Ordered t [] b o = (tt, tt)
  insert-Ordered t (u ∷ l) b o = elim (Bool-cases (ltb_ℤ u.priority t.priority)) [
    | inl above ↦
        let first : less t u ≡ true = ground arith in
        let later =
          All-map (λ w. less u w ≡ true) (λ w. less t w ≡ true) (λ w h. ground arith) l o.0 in
        rw above ((first, later), o)
    | inr below ↦
        let after : less u t ≡ true = ground arith in
        rw below (insert-All (λ w. less u w ≡ true) t l after o.0, insert-Ordered t l b.1 o.1)
  ]

  pub insert-AllBelow :
      (t : PrioritizedTask E) (l : List (PrioritizedTask E))
      → AllBelow t.index l
      → AllBelow (suc t.index) (insert_task t l)
  insert-AllBelow t l b =
      insert-All (λ u. u.index < suc t.index) t l (omega arith)
        (All-map (λ u. u.index < t.index) (λ u. u.index < suc t.index) (λ u h. omega arith) l b)

  pub less_of_mem :
      (t : PrioritizedTask E) (l : List (PrioritizedTask E))
      → AllLess t l
      → (u : PrioritizedTask E) → Mem u l
      → less t u ≡ true
  less_of_mem t [] a = λ u m. absurd (not-mem-nil m)
  less_of_mem t (x ∷ l) a = (forall_mem-cons λ u. Bool-set _ _).1 (a.0, less_of_mem t l a.1)
