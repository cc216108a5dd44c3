-- ===== src/Worker/Reporter/Stuck.antt =====
-- infra/engine/runtime/reporter.go: what a report does to the breaker.
use vibeflow.Prelude.{ℕ, ◌+◌, ◌≤◌, ◌≡◌, ap, Bool, true, false, List, [], ◌∷◌, arith, subst, sym}
use vibeflow.Circuit.{Breaker, opened, half_open, allow}
use vibeflow.Worker.Reporter.{Attempt, report, report_from}

-- Reports one after the other, each with its attempts and its time.
unfoldable pub reports : List ((ℕ → Attempt) × ℕ) → Breaker → List Bool
unfolding report
reports [] b = []
reports ((tries, now) ∷ rs) b = let r = report true tries now b in r.1 ∷ reports rs r.0

abbrev pub AllRefused : List Bool → Type 0
AllRefused [] = Unit {0}
AllRefused (d ∷ ds) = (d ≡ false) × AllRefused ds

half_open-refuses :
    (tries : ℕ → Attempt) (now : ℕ) (b : Breaker)
    → b.state ≡ half_open
    → report true tries now b ≡ (b, false)
unfolding report allow
half_open-refuses tries now b h = ground (arith, h)

half_open-AllRefused :
    (rs : List ((ℕ → Attempt) × ℕ)) (b : Breaker) → b.state ≡ half_open → AllRefused (reports rs b)
unfolding reports
half_open-AllRefused [] b h = tt
half_open-AllRefused ((tries, now) ∷ rs) b h =
    let e = half_open-refuses tries now b h in
    (
      ap (λ r. r.1) e,
      subst (λ r. AllRefused (reports rs r.0)) (sym e) (half_open-AllRefused rs b h),
    )

cancelled_probe :
    (tries : ℕ → Attempt) (now : ℕ) (b : Breaker)
    → b.state ≡ opened
    → b.last_state_change + b.cooldown_interval ≤ now
    → (tries 0).cancelled ≡ true
    → ((report true tries now b).1 ≡ false) × ((report true tries now b).0.state ≡ half_open)
unfolding report report_from allow
cancelled_probe tries now b o cooled c = (ground (arith, o, c), ground (arith, o, c))

-- A report that an open breaker lets through after its cooldown, and whose context has ended by
-- then, is not stored and tells the breaker nothing: no later report is let through either,
-- whatever etcd would answer and however much time passes.
pub cancelled_probe-AllRefused :
    (tries : ℕ → Attempt) (now : ℕ) (rs : List ((ℕ → Attempt) × ℕ)) (b : Breaker)
    → b.state ≡ opened
    → b.last_state_change + b.cooldown_interval ≤ now
    → (tries 0).cancelled ≡ true
    → AllRefused (reports ((tries, now) ∷ rs) b)
unfolding reports
cancelled_probe-AllRefused tries now rs b o cooled c =
    let (unstored, probing) = cancelled_probe tries now b o cooled c in
    (unstored, half_open-AllRefused rs (report true tries now b).0 probing)
