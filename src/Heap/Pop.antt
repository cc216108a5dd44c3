-- ===== src/Heap/Pop.antt =====
-- Go's `container/heap`: what `Pop` takes out of a heap.
use mathlib.Core.Bool.{Bool-set}
use mathlib.Core.List.{Perm, Mem, append-nil, perm_middle, not-mem-nil, forall_mem-cons}
use mathlib.Core.List.Perm
use vibeflow.Prelude.{
  ℕ, zero, suc, ◌+◌, ◌-◌, ◌≤◌, ◌<◌, ◌≡◌, refl, sym, ap, ◌∙◌, subst, Bool, false, List, [], ◌∷◌,
  ◌++◌, Option, some, length, get_elem?, arith,
}
use vibeflow.Heap.{swap, take, parent, less_at, down_loop, pop}
use vibeflow.Heap.Swap.{
  there, length-Perm, length-swap, swap-Perm, get_elem?-swap, less_at-swap, StrictWeak, at_refl,
  at_trans, within,
}
use vibeflow.Heap.Up.{IsHeapTo}
use vibeflow.Heap.Down.{down_loop-IsHeap, down_loop-same}

module _ {A : Type 0} where
  get_elem?-take : (n : ℕ) (a : List A) (i : ℕ) → i < n → get_elem? (take n a) i ≡ get_elem? a i
  get_elem?-take (suc n) (x ∷ a) (suc i) h = get_elem?-take n a i (omega arith)
  get_elem?-take (suc n) (x ∷ a) zero h = refl
  get_elem?-take (suc n) [] i h = refl
  get_elem?-take zero a i h = absurd (omega arith)

  length-take : (n : ℕ) (a : List A) → n ≤ length a → length (take n a) ≡ n
  length-take zero a h = refl
  length-take (suc n) [] h = absurd (omega arith)
  length-take (suc n) (x ∷ a) h = ap suc (length-take n a (omega arith))

  take-last :
      (n : ℕ) (a : List A) (x : A)
      → length a ≡ suc n
      → get_elem? a n ≡ some x
      → take n a ++ x ∷ [] ≡ a
  take-last n [] x h e = absurd (omega arith)
  take-last zero (y ∷ []) x h e = let same : x ≡ y = ground (arith, e) in rw same refl
  take-last zero (y ∷ z ∷ a) x h e = absurd (omega arith)
  take-last (suc n) (y ∷ a) x h e = ap (◌∷◌ y) (take-last n a x (omega arith) e)

-- A pop of a slice that is not empty gives its front and the others, heap or not.
pub pop-Perm :
    {A : Type 0} (less : A → A → Bool) (a : List A)
    → 0 < length a
    → (x : A) × (get_elem? a 0 ≡ some x) × ((pop less a).0 ≡ some x) × Perm (x ∷ (pop less a).1) a
unfolding pop
pop-Perm less a p =
    let n = length a - 1 in
    let b = swap a 0 n in
    let size : length b ≡ suc n = length-swap a 0 n p (omega arith) ∙ omega arith in
    let (perm, kept) = down_loop-same less (n + 1) b 0 n (omega arith) in
    let d = down_loop less (n + 1) b 0 n in
    let long : length d ≡ suc n = length-Perm perm ∙ size in
    let (x, front) = there a 0 p in
    let last : get_elem? d n ≡ some x =
      kept n (omega arith) ∙ ground (arith, get_elem?-swap a 0 n p (omega arith) n, front) in
    (
      x,
      front,
      last,
      Perm.trans (rw (append-nil (take n d)) at (Perm.symm (perm_middle {a = x} (take n d) [])))
          (rw (take-last n d x long last) (Perm.trans perm (swap-Perm a 0 n p (omega arith)))),
    )

module _ {A : Type 0} (less : A → A → Bool) (order : StrictWeak less) where
  root_least_below :
      (k : ℕ) (a : List A) (i : ℕ)
      → IsHeapTo less (length a) a
      → i < k
      → i < length a
      → less_at less a i 0 ≡ false
  root_least_below zero a i h f r = absurd (omega arith)
  root_least_below (suc k) a i h f r = ground (
    arith,
    h i,
    at_refl less order a 0,
    at_trans less order a 0 (parent i) i,
    root_least_below k a (parent i) h,
  )

  all_of :
      (a : List A) (x : A)
      → ((i : ℕ) (t : A) → get_elem? a i ≡ some t → less t x ≡ false)
      → (t : A) → Mem t a
      → less t x ≡ false
  all_of [] x h = λ t m. absurd (not-mem-nil m)
  all_of (y ∷ a) x h = (forall_mem-cons λ t. Bool-set _ _).1 (h 0 y refl, all_of a x λ i. h (suc i))

  root_least :
      (a : List A) (x : A)
      → IsHeapTo less (length a) a
      → get_elem? a 0 ≡ some x
      → (t : A) → Mem t a
      → less t x ≡ false
  unfolding less_at
  root_least a x h e = all_of a x λ i t f.
      let under = root_least_below (suc i) a i h (omega arith) (within a i t f) in
      ground (arith, e, f, under)

  -- What a pop gives: one that no entry is less than, and a heap of the others.
  pub record Popped (a : List A) (r : Option A × List A) : Type 0 where
    pub top : A
    pub given : r.0 ≡ some top
    pub rest_IsHeap : IsHeapTo less (length r.1) r.1
    pub same : Perm (top ∷ r.1) a
    pub least : (t : A) → Mem t a → less t top ≡ false

  pub pop-Popped : (a : List A) → 0 < length a → IsHeapTo less (length a) a → Popped a (pop less a)
  unfolding pop
  pop-Popped a p h =
      let n = length a - 1 in
      let b = swap a 0 n in
      let size : length b ≡ suc n = length-swap a 0 n p (omega arith) ∙ omega arith in
      let (x, e, last, same) = pop-Perm less a p in
      let at = less_at-swap a 0 n p (omega arith) less in
      let sunk = down_loop-IsHeap less order (n + 1) b 0 n (omega arith) (omega arith) (record {
        edges = λ c q s d. ground (arith, at c (parent c), h c);
        bridged = λ c q s d t. absurd (omega arith);
      }) in
      let (perm, kept) = down_loop-same less (n + 1) b 0 n (omega arith) in
      let d = down_loop less (n + 1) b 0 n in
      let long : length d ≡ suc n = length-Perm perm ∙ size in
      let short : length (take n d) ≡ n = length-take n d (omega arith) in
      record {
        top = x;
        given = last;
        rest_IsHeap =
            subst (λ m. IsHeapTo less m (take n d)) (sym short)
              λ c q s. ground (arith, sunk c, less_at-take n d c (parent c));
        same =
            Perm.trans
              (rw (append-nil (take n d)) at (Perm.symm (perm_middle {a = x} (take n d) [])))
              (rw (take-last n d x long last) (Perm.trans perm (swap-Perm a 0 n p (omega arith))));
        least = root_least a x h e;
      }
    where
      less_at-take :
          (n : ℕ) (d : List A) (c i : ℕ)
          → c < n
          → i < n
          → less_at less (take n d) c i ≡ less_at less d c i
      less_at-take n d c i q r = ground (arith, get_elem?-take n d c q, get_elem?-take n d i r)
