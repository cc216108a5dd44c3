-- ===== src/Circuit/Trace.antt =====
-- Histories of calls on one breaker (infra/circuit/circuit.go), in the order of its mutex.
use vibeflow.Prelude.{ℕ, ◌+◌, ◌<◌, ◌≡◌, refl, ◌≢◌, false, List, [], ◌∷◌, arith, sym, ap, ◌∙◌, subst}
use vibeflow.Circuit.{closed, opened, half_open, Breaker, allow, success, failure}

pub data Call : Type 0 where
  allows successes failures : Call

-- One call at its time; an answer is given by `allow` only.
pub step : Breaker → ℕ × Call → Breaker
step b (now, allows) = (allow b now).0
step b (now, successes) = success b now
step b (now, failures) = failure b now

pub run : Breaker → List (ℕ × Call) → Breaker
run b [] = b
run b (c ∷ cs) = run (step b c) cs

-- A closed breaker has failures left before it opens.
pub record Inv (b : Breaker) : Type 0 where
  pub within : b.state ≡ closed → b.consecutive_fails < b.max_failures

step-Inv : (b : Breaker) (c : ℕ × Call) → 0 < b.max_failures → Inv b → Inv (step b c)
unfolding step allow success failure
step-Inv b (now, allows) h v = ground (arith, v.within)
step-Inv b (now, successes) h v = ground (arith, v.within)
step-Inv b (now, failures) h v = ground (arith, v.within)

max-step : (b : Breaker) (c : ℕ × Call) → (step b c).max_failures ≡ b.max_failures
unfolding step allow success failure
max-step b (now, allows) = ground arith
max-step b (now, successes) = ground arith
max-step b (now, failures) = ground arith

-- With a positive threshold, every history of calls leaves the breaker such that, when it is
-- closed, its count of consecutive failures is below the threshold.
pub run-Inv : (b : Breaker) (cs : List (ℕ × Call)) → 0 < b.max_failures → Inv b → Inv (run b cs)
unfolding run
run-Inv b [] h v = v
run-Inv b (c ∷ cs) h v = run-Inv (step b c) cs (omega (arith, max-step b c)) (step-Inv b c h v)

-- No call of the history is a success report, and all stand before time `limit`.
abbrev pub Quiet : ℕ → List (ℕ × Call) → Type 0
Quiet limit [] = Unit {0}
Quiet limit ((t, c) ∷ cs) = (t < limit) × (c ≢ successes) × Quiet limit cs

open_step :
    (b : Breaker) (t : ℕ) (c : Call)
    → b.state ≡ opened
    → t < b.last_state_change + b.cooldown_interval
    → c ≢ successes
    → ((step b (t, c)).state ≡ opened)
      × ((step b (t, c)).last_state_change ≡ b.last_state_change)
      × ((step b (t, c)).cooldown_interval ≡ b.cooldown_interval)
unfolding step allow success failure
open_step b t allows o h n = ground arith
open_step b t successes o h n = absurd (n refl)
open_step b t failures o h n = ground arith

-- An open breaker refuses every request before its cooldown has passed, whatever calls other than
-- success reports come in between.
pub run-opened_refuses :
    (b : Breaker) (cs : List (ℕ × Call)) (now : ℕ)
    → b.state ≡ opened
    → Quiet (b.last_state_change + b.cooldown_interval) cs
    → now < b.last_state_change + b.cooldown_interval
    → (allow (run b cs) now).1 ≡ false
unfolding run
run-opened_refuses b [] now o q h = refused
  where
    refused : (allow b now).1 ≡ false
    refused = unfold allow in ground arith
run-opened_refuses b ((t, c) ∷ cs) now o q h =
    let s = open_step b t c o q.0 q.1 in
    let same : (step b (t, c)).last_state_change + (step b (t, c)).cooldown_interval
        ≡ b.last_state_change + b.cooldown_interval =
      omega arith in
    run-opened_refuses (step b (t, c)) cs now s.0 (subst (λ l. Quiet l cs) (sym same) q.2)
      (omega arith)

abbrev asking : List ℕ → List (ℕ × Call)
asking [] = []
asking (t ∷ ts) = (t, allows) ∷ asking ts

half_open_asking : (b : Breaker) (ts : List ℕ) → b.state ≡ half_open → run b (asking ts) ≡ b
unfolding run step allow
half_open_asking b [] e = refl
half_open_asking b (t ∷ ts) e =
    let same : (allow b t).0 ≡ b = ground arith in
    ap (λ c. run c (asking ts)) same ∙ half_open_asking b ts e

-- A report on the probe settles a half-open breaker: a success closes it and clears the count, and
-- a failure opens it again and restarts the cooldown at that time.
pub probe_report :
    (b : Breaker) (now : ℕ)
    → b.state ≡ half_open
    → ((success b now).state ≡ closed)
      × ((success b now).consecutive_fails ≡ 0)
      × ((failure b now).state ≡ opened)
      × ((failure b now).last_state_change ≡ now)
unfolding success failure
probe_report b now e = ground arith
