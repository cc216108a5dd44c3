-- ===== src/Scheduler/Backoff.antt =====
-- The exponential backoff of a retry (infra/engine/scheduler/watch.go, and `calculateBackoff` in
-- error_policy.go): a product of `time.Duration`s, which wrap as 64-bit integers.
use native.Mathlib.Nat.{mul-div_cancel, mul_assoc, pow-succ'}
use vibeflow.Prelude.{
  ℕ, zero, suc, ◌+◌, ◌-◌, ◌*◌, ◌/◌, ◌%◌, ◌^◌, ◌≤◌, ◌<◌, ◌≡◌, ap, ◌∙◌, ℤ, pos, negsuc, ltb,
  if◌then◌else◌, arith,
}
use vibeflow.Store.{TaskPayload}

abbrev pub second : ℕ
second = 1_000_000_000

-- The signed 64-bit value of a product that is not negative.
unfoldable pub wrap_int64 : ℕ → ℤ
wrap_int64 n =
    if ltb (n % 2 ^ 64) (2 ^ 63) then pos (n % 2 ^ 64) else negsuc (2 ^ 64 - n % 2 ^ 64 - 1)

-- `time.Duration(BaseBackoff) * time.Second * (1 << RetryCount)`, in nanoseconds.
unfoldable pub backoff : TaskPayload → ℤ
unfolding wrap_int64
backoff p = wrap_int64 (p.base_backoff * second * 2 ^ p.retry_count)

-- `int64(backoff.Seconds())`, cut towards zero. (`Seconds` goes through a float, which is exact
-- where the duration is a whole number of seconds.)
unfoldable pub whole_seconds : ℤ → ℤ
whole_seconds (pos n) = pos (n / second)
whole_seconds (negsuc n) = if ltb (suc n) second then pos 0 else negsuc (suc n / second - 1)

div_second : (x y : ℕ) → x * second * y / second ≡ x * y
div_second x y = ap (λ t. t / second) (omega arith) ∙ mul-div_cancel (x * y) (omega arith)

pow_split : (k n : ℕ) → 2 ^ (k + n) ≡ 2 ^ k * 2 ^ n
pow_split zero n = let e : 0 + n ≡ n = omega arith in ap (λ t. 2 ^ t) e ∙ omega arith
pow_split (suc k) n =
    let e : suc k + n ≡ suc (k + n) = omega arith in
    ap (λ t. 2 ^ t) e
    ∙ omega (
      arith,
      pow-succ' 2 (k + n),
      pow-succ' 2 k,
      pow_split k n,
      mul_assoc 2 (2 ^ k) (2 ^ n),
      ap (λ t. t * 2 ^ n) (pow-succ' 2 k),
    )

-- As long as the product fits 63 bits, the wait before attempt `n` is the base doubled `n` times.
pub backoff_doubles :
    (p : TaskPayload)
    → p.base_backoff * second * 2 ^ p.retry_count < 2 ^ 63
    → whole_seconds (backoff p) ≡ pos (p.base_backoff * 2 ^ p.retry_count)
unfolding backoff whole_seconds
backoff_doubles p h =
    let x = p.base_backoff * second * 2 ^ p.retry_count in
    let small : x % 2 ^ 64 ≡ x = omega arith in
    let whole : x / second ≡ p.base_backoff * 2 ^ p.retry_count =
      div_second p.base_backoff (2 ^ p.retry_count) in
    ground (arith, small, whole)

vanishes : (base n : ℕ) → base * second * 2 ^ (55 + n) % 2 ^ 64 ≡ 0
vanishes base n =
    let e : base * second * (2 ^ 55 * 2 ^ n) % 2 ^ 64 ≡ 0 = omega arith in
    ap (λ t. base * second * t % 2 ^ 64) (pow_split 55 n) ∙ e

-- From a retry count of 55 on, which is the 56th retry, since the first has count 0, the product is a
-- multiple of 2 ^ 64, whatever the base: the wait is zero.
pub backoff_vanishes : (p : TaskPayload) → 55 ≤ p.retry_count → whole_seconds (backoff p) ≡ pos 0
unfolding backoff whole_seconds
backoff_vanishes p h =
    let split : p.retry_count ≡ 55 + (p.retry_count - 55) = omega arith in
    let zeroed : p.base_backoff * second * 2 ^ p.retry_count % 2 ^ 64 ≡ 0 =
      ap (λ r. p.base_backoff * second * 2 ^ r % 2 ^ 64) split
      ∙ vanishes p.base_backoff (p.retry_count - 55) in
    ground (arith, zeroed)
