-- ===== src/Heap.antt =====
-- Go's `container/heap`, on a slice that is read as a list: the functions that the pending queue of
-- the dispatcher (infra/engine/scheduler/types.go) and the worker's queue
-- (infra/engine/runtime/priority_queue.go) call. An index out of range, where Go panics, is not met.
pub mod Swap
pub mod Up
pub mod Down
pub mod Pop
use vibeflow.Prelude.{
  ℕ, zero, suc, ◌+◌, ◌-◌, ◌*◌, ◌/◌, Bool, true, false, not, ◌&&◌, ◌||◌, List, [], ◌∷◌, ◌++◌, Option,
  none, some, length, get_elem?, ltb, leb, nat_beq, if◌then◌else◌,
}

module _ {A : Type 0} where
  -- `h[i] = v`.
  unfoldable pub set : List A → ℕ → A → List A
  set [] place new = []
  set (old ∷ h) zero new = new ∷ h
  set (old ∷ h) (suc place) new = old ∷ set h place new

  -- `Swap(i, j)`.
  unfoldable pub swap : List A → ℕ → ℕ → List A
  unfolding set
  swap a i j = elim (get_elem? a i) [
    | none ↦ a
    | some x ↦ elim (get_elem? a j) [ none ↦ a | some y ↦ set (set a i y) j x ]
  ]

-- `h[:n]`.
abbrev pub take : {A : Type 0} → ℕ → List A → List A
take (suc count) (top ∷ h) = top ∷ take count h
take (suc count) [] = []
take zero h = []

abbrev pub parent : ℕ → ℕ
parent j = (j - 1) / 2

module _ {A : Type 0} (less : A → A → Bool) where
  -- `Less(i, j)`.
  unfoldable pub less_at : List A → ℕ → ℕ → Bool
  less_at a i j = elim (get_elem? a i) [
    | none ↦ false
    | some x ↦ elim (get_elem? a j) [ none ↦ false | some y ↦ less x y ]
  ]

  unfoldable pub up_loop : ℕ → List A → ℕ → List A
  unfolding swap less_at
  up_loop zero a j = a
  up_loop (suc k) a j =
      let rest = up_loop k (swap a (parent j) j) (parent j) in
      if nat_beq (parent j) j || not (less_at a j (parent j)) then a else rest

  -- The child that is less, among those below `n`.
  unfoldable pub child_at : List A → ℕ → ℕ → ℕ
  unfolding less_at
  child_at a i n =
      let left = 2 * i + 1 in
      let right = left + 1 in if ltb right n && less_at a right left then right else left

  unfoldable pub down_loop : ℕ → List A → ℕ → ℕ → List A
  unfolding swap less_at child_at
  down_loop zero a i n = a
  down_loop (suc k) a i n =
      let j = child_at a i n in
      let rest = down_loop k (swap a i j) j n in
      if leb n (2 * i + 1) || not (less_at a j i) then a else rest

  -- `heap.Push`.
  unfoldable pub push : A → List A → List A
  unfolding up_loop
  push x a = up_loop (length a + 1) (a ++ x ∷ []) (length a)

  -- `heap.Pop`, with the `Pop` of the slice, which takes the last.
  unfoldable pub pop : List A → Option A × List A
  unfolding down_loop swap
  pop a =
      let n = length a - 1 in
      let b = down_loop (n + 1) (swap a 0 n) 0 n in (get_elem? b n, take n b)
