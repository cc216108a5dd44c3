-- ===== src/Heap/Down.antt =====
-- Go's `container/heap`: `down`.
use mathlib.Core.List.{Perm}
use mathlib.Core.List.Perm
use vibeflow.Prelude.{
  ℕ, zero, suc, ◌+◌, ◌*◌, ◌≤◌, ◌<◌, ◌≡◌, ◌≢◌, refl, ◌∙◌, Bool, true, false, not, ◌||◌, ◌&&◌, List,
  length, get_elem?, ltb, leb, arith, Bool-cases, inl, inr, ◌⊎◌,
}
use vibeflow.Heap.{swap, parent, less_at, child_at, down_loop}
use vibeflow.Heap.Swap.{
  length-swap, swap-Perm, get_elem?-swap, less_at-swap, StrictWeak, at_refl, at_asym, at_trans,
}
use vibeflow.Heap.Up.{IsHeapTo}

module _ {A : Type 0} (less : A → A → Bool) where
  -- Only the edges below `i` may be wrong.
  pub record DownInv (n : ℕ) (a : List A) (i : ℕ) : Type 0 where
    pub edges : (c : ℕ) → 0 < c → c < n → parent c ≢ i → less_at less a c (parent c) ≡ false
    pub bridged :
        (c : ℕ) → 0 < c → c < n → parent c ≡ i → 0 < i → less_at less a c (parent i) ≡ false

  child_at-IsChild :
      (a : List A) (i n : ℕ)
      → 2 * i + 1 < n
      → (child_at less a i n < n)
        × ((child_at less a i n ≡ 2 * i + 1) ⊎ (child_at less a i n ≡ 2 * i + 2))
  unfolding child_at
  child_at-IsChild a i n h = ground arith

  module _ (order : StrictWeak less) where
    child_at-least :
        (a : List A) (i n c : ℕ)
        → c < n
        → 0 < c
        → parent c ≡ i
        → less_at less a c (child_at less a i n) ≡ false
    unfolding child_at
    child_at-least a i n c h p e =
        let left = 2 * i + 1 in
        let right = left + 1 in
        elim (Bool-cases (ltb right n && less_at less a right left)) [
          | inl goes ↦
              rw goes
                (ground (arith, goes, at_asym less order a right left, at_refl less order a right))
          | inr stays ↦ rw stays (ground (arith, stays, at_refl less order a left))
        ]

    swap-DownInv :
        (a : List A) (i n : ℕ)
        → n ≤ length a
        → 2 * i + 1 < n
        → DownInv n a i
        → less_at less a (child_at less a i n) i ≡ true
        → DownInv n (swap a i (child_at less a i n)) (child_at less a i n)
    swap-DownInv a i n r p v h =
        let j = child_at less a i n in
        let (inside, child) = child_at-IsChild a i n p in
        let above = at_asym less order a j i h in
        let at = less_at-swap a i j (omega arith) (omega arith) less in
        let least = child_at-least a i n in
        record {
          edges = λ c q s d.
              ground (arith, child, at c (parent c), v.edges c, v.bridged j, least c, above);
          bridged = λ c q s d t. ground (arith, child, at c (parent j), v.edges c);
        }

    pub down_loop-IsHeap :
        (k : ℕ) (a : List A) (i n : ℕ)
        → n < i + k
        → n ≤ length a
        → DownInv n a i
        → IsHeapTo less n (down_loop less k a i n)
    unfolding down_loop
    down_loop-IsHeap zero a i n f r v = λ c q s. v.edges c q s (omega arith)
    down_loop-IsHeap (suc k) a i n f r v =
        let j = child_at less a i n in
        elim (Bool-cases (leb n (2 * i + 1) || not (less_at less a j i))) [
          | inl stop ↦ rw stop λ c q s. ground (
            arith,
            stop,
            v.edges c,
            child_at-least a i n c,
            at_trans less order a i j c,
            child_at-IsChild a i n,
          )
          | inr go ↦
              let p : 2 * i + 1 < n = ground (arith, go) in
              let (inside, child) = child_at-IsChild a i n p in
              let size = length-swap a i j (omega arith) (omega arith) in
              rw go (
                down_loop-IsHeap k (swap a i j) j n (omega (arith, child)) (omega (arith, size))
                  (swap-DownInv a i n r p v (ground (arith, go))))
        ]

  -- The entries from `n` on stay.
  pub down_loop-same :
      (k : ℕ) (a : List A) (i n : ℕ)
      → n ≤ length a
      → Perm (down_loop less k a i n) a
        × ((c : ℕ) → n ≤ c → get_elem? (down_loop less k a i n) c ≡ get_elem? a c)
  unfolding down_loop
  down_loop-same zero a i n r = (Perm.rfl, λ c q. refl)
  down_loop-same (suc k) a i n r =
      let j = child_at less a i n in
      elim (Bool-cases (leb n (2 * i + 1) || not (less_at less a j i))) [
        | inl stop ↦ rw stop (Perm.rfl, λ c q. refl)
        | inr go ↦
            let p : 2 * i + 1 < n = ground (arith, go) in
            let (inside, child) = child_at-IsChild a i n p in
            let (hi, hj) : (i < length a) × (j < length a) = (omega arith, omega arith) in
            let size = length-swap a i j hi hj in
            let (perm, kept) = down_loop-same k (swap a i j) j n (omega (arith, size)) in
            rw go (
              Perm.trans perm (swap-Perm a i j hi hj),
              λ c q. kept c q ∙ ground (arith, child, get_elem?-swap a i j hi hj c),
            )
      ]
