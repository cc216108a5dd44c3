-- ===== src/Heap/Up.antt =====
-- Go's `container/heap`: `up`, and what `Push` does to a heap.
use mathlib.Core.List.{Perm, perm_middle, append-nil}
use mathlib.Core.List.Perm
use vibeflow.Prelude.{
  ℕ, zero, suc, ◌+◌, ◌<◌, ◌≡◌, ◌≢◌, sym, subst, Bool, true, false, not, ◌||◌, List, [], ◌∷◌, ◌++◌,
  length, length-append, nat_beq, arith, Bool-cases, inl, inr,
}
use vibeflow.Heap.{swap, parent, less_at, up_loop, push}
use vibeflow.Heap.Swap.{
  length-swap, swap-Perm, length-Perm, get_elem?-append, less_at-swap, StrictWeak, at_refl, at_asym,
  at_trans,
}

module _ {A : Type 0} (less : A → A → Bool) where
  -- No entry is less than the one above it, among the first `n`.
  abbrev pub IsHeapTo : ℕ → List A → Type 0
  IsHeapTo n a = (c : ℕ) → 0 < c → c < n → less_at less a c (parent c) ≡ false

  -- Only the edge above `j` may be wrong.
  record UpInv (n : ℕ) (a : List A) (j : ℕ) : Type 0 where
    edges : (c : ℕ) → 0 < c → c < n → c ≢ j → less_at less a c (parent c) ≡ false
    bridged : (c : ℕ) → 0 < c → c < n → parent c ≡ j → 0 < j → less_at less a c (parent j) ≡ false

  module _ (order : StrictWeak less) where
    swap-UpInv :
        (a : List A) (j : ℕ)
        → j < length a
        → 0 < j
        → UpInv (length a) a j
        → less_at less a j (parent j) ≡ true
        → UpInv (length a) (swap a (parent j) j) (parent j)
    swap-UpInv a j r p v h =
        let i = parent j in
        let at = less_at-swap a i j (omega arith) r less in
        let below = at_asym less order a j i h in
        let over = λ (c : ℕ). at_trans less order a j i c (omega arith) below in
        record {
          edges = λ c q s d. ground (arith, at c (parent c), v.edges c, v.bridged c, over c, below);
          bridged = λ c q s d t. ground (
            arith,
            at c (parent i),
            v.edges i,
            v.edges c,
            at_trans less order a (parent i) i c (omega arith),
          );
        }

    up_loop-IsHeap :
        (k : ℕ) (a : List A) (j : ℕ)
        → j < k
        → j < length a
        → UpInv (length a) a j
        → IsHeapTo (length a) (up_loop less k a j)
    unfolding up_loop
    up_loop-IsHeap zero a j f r v = absurd (omega arith)
    up_loop-IsHeap (suc k) a j f r v =
        let i = parent j in
        elim (Bool-cases (nat_beq i j || not (less_at less a j i))) [
          | inl stop ↦ rw stop λ c q s. ground (arith, stop, v.edges c, at_refl less order a 0)
          | inr go ↦
              let b = swap a i j in
              let size = length-swap a i j (omega arith) r in
              let rise = swap-UpInv a j r (ground arith) v (ground arith) in
              rw go (
                subst (λ n. IsHeapTo n (up_loop less k b i)) size
                  (up_loop-IsHeap k b i (ground arith) (omega (arith, size))
                    (subst (λ n. UpInv n b i) (sym size) rise)))
        ]

  pub up_loop-Perm : (k : ℕ) (a : List A) (j : ℕ) → j < length a → Perm (up_loop less k a j) a
  unfolding up_loop
  up_loop-Perm zero a j r = Perm.rfl
  up_loop-Perm (suc k) a j r =
      let i = parent j in
      elim (Bool-cases (nat_beq i j || not (less_at less a j i))) [
        | inl stop ↦ rw stop Perm.rfl
        | inr go ↦
            let size = length-swap a i j (omega arith) r in
            rw go (
              Perm.trans (up_loop-Perm k (swap a i j) i (omega (arith, size)))
                (swap-Perm a i j (omega arith) r))
      ]

  less_at-append :
      (a b : List A) (c d : ℕ)
      → c < length a
      → d < length a
      → less_at less (a ++ b) c d ≡ less_at less a c d
  unfolding less_at
  less_at-append a b c d q r = ground (arith, get_elem?-append a b c q, get_elem?-append a b d r)

  pub push-Perm : (x : A) (a : List A) → Perm (push less x a) (x ∷ a)
  unfolding push
  push-Perm x a =
      Perm.trans
        (up_loop-Perm (length a + 1) (a ++ x ∷ []) (length a)
          (omega (arith, length-append a (x ∷ []))))
        (rw (append-nil a) at (perm_middle {a = x} a []))

  pub push-IsHeap :
      StrictWeak less
      → (x : A) (a : List A) → IsHeapTo (length a) a
      → IsHeapTo (length (push less x a)) (push less x a)
  unfolding push
  push-IsHeap order x a h =
      let b = a ++ x ∷ [] in
      let size = length-append a (x ∷ []) in
      let same = length-Perm (up_loop-Perm (length a + 1) b (length a) (omega (arith, size))) in
      subst (λ n. IsHeapTo n (up_loop less (length a + 1) b (length a))) (sym same)
        (up_loop-IsHeap order (length a + 1) b (length a) (omega arith) (omega (arith, size))
          (record {
            edges = λ c q s d. ground (
              arith,
              size,
              h c,
              less_at-append a (x ∷ []) c (parent c) (omega (arith, size)) (omega (arith, size)),
            );
            bridged = λ c q s e p. absurd (omega (arith, size));
          }))
