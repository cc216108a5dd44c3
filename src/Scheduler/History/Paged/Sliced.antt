-- ===== src/Scheduler/History/Paged/Sliced.antt =====
-- infra/engine/scheduler/workflow_manager.go: one page of a list, and its offset in 64 bits.
use vibeflow.Prelude.{
  ℕ, zero, suc, ◌+◌, ◌-◌, ◌*◌, ◌≤◌, ◌<◌, ◌^◌, ◌%◌, ◌≡◌, refl, ap, sym, ◌∙◌, List, [], ◌∷◌, ◌++◌, ℤ,
  pos, negsuc, length, drop, arith, ltb, leb, ltb_ℤ, pos_part, if_true, if_false, Bool-cases, inl,
  inr, ◌+ℤ◌, if◌then◌else◌,
}
use vibeflow.Heap.{take}
use vibeflow.Model.Workflow.{WorkflowState}
use vibeflow.Scheduler.Backoff.{wrap_int64}
use vibeflow.Scheduler.History.Paged.{paged, bits, mul_int64, slice_from, page_in_memory}

module _ {A : Type 0} where
  drop-nil : (n : ℕ) → drop {A = A} n [] ≡ []
  drop-nil zero = refl
  drop-nil (suc n) = refl

  take-nil : (n : ℕ) → take {A = A} n [] ≡ []
  take-nil zero = refl
  take-nil (suc n) = refl

  pub take-add : (a b : ℕ) (xs : List A) → take (a + b) xs ≡ take a xs ++ take b (drop a xs)
  take-add zero b xs = let e : 0 + b ≡ b = omega arith in ap (λ n. take n xs) e
  take-add (suc a) b [] = take-nil (suc a + b) ∙ sym (take-nil b)
  take-add (suc a) b (x ∷ xs) =
      let e : suc a + b ≡ suc (a + b) = omega arith in
      ap (λ n. take n (x ∷ xs)) e ∙ ap (λ ys. x ∷ ys) (take-add a b xs)

  pub take-all : (n : ℕ) (xs : List A) → length xs ≤ n → take n xs ≡ xs
  take-all zero [] h = refl
  take-all zero (x ∷ xs) h = absurd (omega (arith, h))
  take-all (suc n) [] h = refl
  take-all (suc n) (x ∷ xs) h = ap (λ ys. x ∷ ys) (take-all n xs (omega (arith, h)))

  pub length-drop : (n : ℕ) (xs : List A) → length (drop n xs) ≡ length xs - n
  length-drop zero xs = omega arith
  length-drop (suc n) [] = omega arith
  length-drop (suc n) (x ∷ xs) = length-drop n xs ∙ omega arith

  drop-all : (n : ℕ) (xs : List A) → length xs ≤ n → drop n xs ≡ []
  drop-all zero [] h = refl
  drop-all zero (x ∷ xs) h = absurd (omega (arith, h))
  drop-all (suc n) [] h = refl
  drop-all (suc n) (x ∷ xs) h = drop-all n xs (omega (arith, h))

pub slice_from-pos :
    (start size : ℕ) (all : List WorkflowState)
    → slice_from (pos start) size all ≡ paged (take size (drop start all)) (length all)
unfolding slice_from
slice_from-pos start size all =
    let n = length all in
    elim (Bool-cases (leb n start)) [
      | inl over ↦
          if_true _ _ _ over
          ∙ ap (λ xs. paged xs n)
              (sym (ap (take size) (drop-all start all (ground (arith, over))) ∙ take-nil size))
      | inr inside ↦ if_false _ _ _ inside ∙ elim (Bool-cases (ltb n (start + size))) [
        | inl short ↦
            let left : length (drop start all) ≤ size =
              ground (arith, short, length-drop start all) in
            let e : (if ltb n (start + size) then n else start + size) - start ≡ n - start =
              ap (λ k. k - start) (if_true _ _ _ short) in
            let m : length (drop start all) ≤ n - start = omega (arith, length-drop start all) in
            ap (λ k. paged (take k (drop start all)) n) e
            ∙ ap (λ xs. paged xs n)
                (take-all (n - start) (drop start all) m
                  ∙ sym (take-all size (drop start all) left))
        | inr long ↦
            let e : (if ltb n (start + size) then n else start + size) - start ≡ size =
              ap (λ k. k - start) (if_false _ _ _ long) ∙ omega arith in
            ap (λ k. paged (take k (drop start all)) n) e
      ]
    ]

pub mul_int64-small :
    (k size : ℕ)
    → k < 2 ^ 63
    → size < 2 ^ 63
    → k * size < 2 ^ 63
    → mul_int64 (pos k) (pos size) ≡ pos (k * size)
unfolding mul_int64 bits wrap_int64
mul_int64-small k size a b h =
    let x : k % 2 ^ 64 ≡ k = omega (arith, a) in
    let y : size % 2 ^ 64 ≡ size = omega (arith, b) in
    let z : k * size % 2 ^ 64 ≡ k * size = omega (arith, h) in rw (x, y, z) (ground (arith, h))

pred_page : (k : ℕ) → pos (suc k) +ℤ negsuc 0 ≡ pos k
unfolding ◌+ℤ◌
pred_page k = ground arith

pub page_in_memory-pos :
    (k size : ℕ) (all : List WorkflowState)
    → 1 ≤ size
    → page_in_memory (pos (suc k)) (pos size) all
      ≡ slice_from (mul_int64 (pos k) (pos size)) size all
unfolding page_in_memory
page_in_memory-pos k size all p =
    let sized : ℤ = if ltb_ℤ (pos size) (pos 1) then pos 10 else pos size in
    let at_least_one : (if ltb_ℤ (pos (suc k)) (pos 1) then pos 1 else pos (suc k)) ≡ pos (suc k) =
      if_false (ltb_ℤ (pos (suc k)) (pos 1)) (pos 1) _ (ground arith) in
    let some_size : sized ≡ pos size =
      if_false (ltb_ℤ (pos size) (pos 1)) (pos 10) _ (ground (arith, p)) in
    ap (λ x. slice_from (mul_int64 (x +ℤ negsuc 0) sized) (pos_part sized) all) at_least_one
    ∙ ap (λ y. slice_from (mul_int64 (pos (suc k) +ℤ negsuc 0) y) (pos_part y) all) some_size
    ∙ ap (λ x. slice_from (mul_int64 x (pos size)) size all) (pred_page k)

pub mul_int64-negative :
    (k size : ℕ)
    → k < 2 ^ 63
    → size < 2 ^ 63
    → 2 ^ 63 ≤ k * size
    → k * size < 2 ^ 64
    → mul_int64 (pos k) (pos size) ≡ negsuc (2 ^ 64 - k * size - 1)
unfolding mul_int64 bits wrap_int64
mul_int64-negative k size a b h top =
    let x : k % 2 ^ 64 ≡ k = omega (arith, a) in
    let y : size % 2 ^ 64 ≡ size = omega (arith, b) in
    let z : k * size % 2 ^ 64 ≡ k * size = omega (arith, top) in rw (x, y, z) (ground (arith, h))
