-- ===== src/Cli/Batch/Reruns.antt =====
-- The number of times that a script of a batch runs.
use agenstro.Common.{
  ℕ, suc, ◌+◌, ◌≤◌, ◌<◌, ◌≡◌, refl, inl, inr, Bool, true, false, ◌&&◌, not, Option, none, some,
  Result, ok, err, List, [], ◌∷◌, arith, length, Bool-cases, Option-cases, if◌then◌else◌,
}
use agenstro.Common.Text.{Text}
use agenstro.Process.Command.{CommandOutcome, is_success}
use agenstro.Daemon.{EventLog}
use agenstro.Daemon.Repair.{Daemon, Review, repair_after_failure}
use agenstro.Daemon.Repair.Authorization.{repair-IsAuthorized}
use agenstro.Daemon.Repair.Verdicts.{failure-IsAnswered}
use agenstro.Cli.Batch.{
  Attempt, ScriptRun, clef_unknown, monitored, attempt_end, add_elapsed, supervised, run_attempts,
}

-- The reruns that the configuration allows.
abbrev pub budget : Option Daemon → ℕ
budget none = 0
budget (some d) = d.config.max_retries

success-rerun :
    (d : Daemon) (script : Text) (s : CommandOutcome) (u : Bool) (attempt : ℕ) (r : Review)
    (log : EventLog)
    → (is_success s && not u) ≡ true
    → (repair_after_failure d script s u attempt r log).rerun ≡ false
unfolding repair_after_failure
success-rerun d script s u attempt r log h = rw h refl

module _ (d : Daemon) (script : Text) (s : CommandOutcome) (u : Bool) (attempt : ℕ) (r : Review)
    (log : EventLog) where
  rerun-budget :
      (repair_after_failure d script s u attempt r log).rerun ≡ true
      → attempt < d.config.max_retries
  rerun-budget h = elim (Bool-cases (is_success s && not u)) [
    | inl fine ↦ cc (h, success-rerun d script s u attempt r log fine)
    | inr failed ↦ elim (failure-IsAnswered d script s u attempt r log failed) [
      | inl (again, wrote, kept, lines) ↦
          elim (Option-cases (repair_after_failure d script s u attempt r log).written) [
            | inl nothing ↦ cc (wrote, nothing)
            | inr (text, e) ↦
                (repair-IsAuthorized d script s u attempt r log text e).0.within_budget
          ]
      | inr (never, why) ↦ cc (h, never)
    ]
  ]

supervised-budget :
    (d : Option Daemon) (script : Text) (a : Attempt) (status : Result Text CommandOutcome)
    (attempt : ℕ) (log : EventLog)
    → (supervised d script a status attempt log).rerun ≡ true
    → attempt < budget d
supervised-budget none script a status attempt log h = cc
supervised-budget (some d) script a (err e) attempt log h = cc
supervised-budget (some d) script a (ok s) attempt log h =
    rerun-budget d script s (clef_unknown a.facts s) attempt a.review log h

abbrev Ends : ℕ → Option ScriptRun → Type 0
Ends n run = (r : ScriptRun) × (run ≡ some r) × (r.attempts ≤ suc n)

and_left : (a b : Bool) → (a && b) ≡ true → a ≡ true
and_left a b h = ground arith

choose-Ends :
    (b : Bool) (n : ℕ) (again : Option ScriptRun) (here : ScriptRun)
    → (b ≡ true → Ends n again)
    → here.attempts ≤ suc n
    → Ends n (if b then again else some here)
choose-Ends true n again here f h = f refl
choose-Ends false n again here f h = (here, refl, h)

run_attempts-Ends :
    (d : Option Daemon) (script : Text) (attempts : List Attempt) (attempt ms : ℕ) (log : EventLog)
    → attempt ≤ budget d
    → budget d < attempt + length attempts
    → Ends (budget d) (run_attempts d script attempts attempt ms log)
unfolding run_attempts
run_attempts-Ends d script [] attempt ms log h k = absurd (omega arith)
run_attempts-Ends d script (a ∷ later) attempt ms log h k =
    let v = supervised d script a a.status attempt (monitored d a log) in
    choose-Ends (v.rerun && not a.cancelled) (budget d)
      (run_attempts d script later (suc attempt) (add_elapsed ms a.status) v.log)
      (attempt_end a v.log attempt ms)
      (λ e.
        let more : attempt < budget d =
          supervised-budget d script a a.status attempt (monitored d a log)
            (and_left v.rerun (not a.cancelled) e) in
        run_attempts-Ends d script later (suc attempt) (add_elapsed ms a.status) v.log more
          (omega (arith, k)))
      (omega arith)

-- The loop of a script ends before more attempts are used up than one and the reruns that the
-- configuration allows, whatever the tools and the provider do: without a daemon the script runs
-- once.
pub run_attempts-ends :
    (d : Option Daemon) (script : Text) (attempts : List Attempt) (ms : ℕ) (log : EventLog)
    → budget d < length attempts
    → (r : ScriptRun) × (run_attempts d script attempts 0 ms log ≡ some r)
      × (r.attempts ≤ suc (budget d))
run_attempts-ends d script attempts ms log h =
    run_attempts-Ends d script attempts 0 ms log (omega arith) (omega arith)
