-- ===== src/Cli/Batch.antt =====
-- tactus-runtime/src/cli.rs: a batch of scripts, which are run one after the other, and the outcome
-- that the batch reports. What the tools, the diagnostics and the daemon's provider did is an
-- argument: a list of attempts for each script.
pub mod Reruns
pub mod Reports
pub mod Counts
pub mod Covers
pub mod Results
mod Examples
use agenstro.Common.{
  ℕ, suc, ◌+◌, min, Bool, true, false, ◌&&◌, ◌||◌, not, Option, none, some, is_some, is_some_and,
  Result, ok, err, List, [], ◌∷◌, ltb, ◌==◌, if◌then◌else◌,
}
use agenstro.Common.Text.{Text}
use agenstro.Process.Command.{CommandOutcome, exited, is_success, is_exited, max_i32}
use agenstro.Daemon.{EventLog}
use agenstro.Daemon.Watching.{Watch, monitor}
use agenstro.Daemon.Repair.{Daemon, Review, Verdict, give_up, repair_after_failure, is_ambiguous}
use agenstro.JournalReader.{u64_max}

pub record SidecarFacts : Type 0 where
  pub outcome_unknown : Bool
  pub observation_ambiguous : Bool

-- One turn of the inner loop: what the monitor finds, the tool's result, the facts of the
-- diagnostics, what the daemon finds, and the token after the repair.
pub record Attempt : Type 0 where
  pub started_write : Bool
  pub rounds : List Watch
  pub status : Result Text CommandOutcome
  pub facts : SidecarFacts
  pub review : Review
  pub cancelled : Bool

pub record Script : Type 0 where
  pub path : Text
  pub attempts : List Attempt

pub record ScriptBatchExecution : Type 0 where
  pub command : CommandOutcome
  pub script_started : Bool
  pub clef_outcome_unknown : Bool

-- How a script ended: its last status, and whether its outcome is unknown.
pub record Ending : Type 0 where
  pub status : CommandOutcome
  pub unknown : Bool

pub record ScriptRun : Type 0 where
  pub log : EventLog
  pub elapsed_ms : ℕ
  pub attempts : ℕ
  pub ended : Result Text Ending

abbrev pub clef_unknown : SidecarFacts → CommandOutcome → Bool
clef_unknown f s = f.outcome_unknown || (f.observation_ambiguous && not (is_success s))

abbrev pub ending : SidecarFacts → Result Text CommandOutcome → Result Text Ending
ending f (err e) = err e
ending f (ok s) = ok (record { status = s; unknown = clef_unknown f s })

abbrev pub add_elapsed : ℕ → Result Text CommandOutcome → ℕ
add_elapsed ms (err e) = ms
add_elapsed ms (ok s) = min (ms + s.elapsed_ms) u64_max

abbrev pub monitored : Option Daemon → Attempt → EventLog → EventLog
monitored none a log = log
monitored (some d) a log = (monitor a.started_write a.rounds log).0

-- What the daemon does about the end of an attempt.
abbrev pub supervised :
    Option Daemon → Text → Attempt → Result Text CommandOutcome → ℕ → EventLog → Verdict
supervised none script a status attempt log = record { log = log; rerun = false; written = none }
supervised (some d) script a (err e) attempt log = give_up a.review.escalated_write log
supervised (some d) script a (ok s) attempt log =
    repair_after_failure d script s (clef_unknown a.facts s) attempt a.review log

abbrev pub attempt_end : Attempt → EventLog → ℕ → ℕ → ScriptRun
attempt_end a log attempt ms = record {
  log = log;
  elapsed_ms = add_elapsed ms a.status;
  attempts = suc attempt;
  ended = ending a.facts a.status;
}

-- The inner loop. It is still running when no attempt is left.
unfoldable pub run_attempts :
    Option Daemon → Text → List Attempt → ℕ → ℕ → EventLog → Option ScriptRun
run_attempts d script [] attempt ms log = none
run_attempts d script (a ∷ later) attempt ms log =
    let v = supervised d script a a.status attempt (monitored d a log) in
    let again = run_attempts d script later (suc attempt) (add_elapsed ms a.status) v.log in
    if v.rerun && not a.cancelled then again else some (attempt_end a v.log attempt ms)

-- `finished` are the observations `ScriptFinished`.
pub record BatchRun : Type 0 where
  pub log : EventLog
  pub finished : List Ending
  pub result : Result Text ScriptBatchExecution

abbrev pub stops : Ending → Bool
stops e = is_ambiguous e.status e.unknown

abbrev pub fails : Ending → Bool
fails e = is_some_and (λ c. not (c == 0)) e.status.exit_code

abbrev pub worst : ℕ → Option ℕ → ℕ
worst first none = first
worst first (some c) = if c == 0 then first else max_i32 first c

abbrev pub stopped : Ending → ScriptRun → BatchRun
stopped e r = record {
  log = r.log;
  finished = e ∷ [];
  result =
      ok (record { command = e.status; script_started = true; clef_outcome_unknown = e.unknown });
}

-- The end of `execute_script_batch`.
abbrev pub batch_end : EventLog → List Ending → ℕ → ℕ → BatchRun
batch_end log finished first ms = record {
  log = log;
  finished = finished;
  result = ok (record {
    command = record { kind = exited; exit_code = some first; error = none; elapsed_ms = ms };
    script_started = true;
    clef_outcome_unknown = false;
  });
}

abbrev pub with_finished : Ending → Option BatchRun → Option BatchRun
with_finished e none = none
with_finished e (some b) = some (record b { finished = e ∷ b.finished })

-- The rest of the loop's body, and the scripts that follow.
abbrev pub after_run : Bool → ℕ → ScriptRun → Ending → Option BatchRun → Option BatchRun
after_run keep_going first r e next =
    if stops e
    then some (stopped e r)
    else if fails e && not keep_going
    then some (batch_end r.log (e ∷ []) first r.elapsed_ms)
    else with_finished e next

unfoldable pub run_scripts : Option Daemon → Bool → List Script → ℕ → ℕ → EventLog → Option BatchRun
run_scripts d keep_going [] first ms log = some (batch_end log [] first ms)
run_scripts d keep_going (s ∷ ss) first ms log = elim (run_attempts d s.path s.attempts 0 ms log) [
  | none ↦ none
  | some r ↦ elim r.ended [
    | err e ↦ some (record { log = r.log; finished = []; result = err e })
    | ok e ↦
        after_run keep_going (worst first e.status.exit_code) r e
          (run_scripts d keep_going ss (worst first e.status.exit_code) r.elapsed_ms r.log)
  ]
]

abbrev unprepared : Option Daemon → Bool → CommandOutcome → EventLog → BatchRun
unprepared d wrote build log = record {
  log = elim d [ none ↦ log | some daemon ↦ (give_up wrote log).log ];
  finished = [];
  result = ok (record { command = build; script_started = false; clef_outcome_unknown = false });
}

unfoldable pub execute_script_batch :
    Option Daemon
    → Bool
    → Bool
    → Result Text CommandOutcome
    → List Script
    → EventLog
    → Option BatchRun
execute_script_batch d keep_going wrote (err e) scripts log =
    some (record { log = log; finished = []; result = err e })
execute_script_batch d keep_going wrote (ok build) scripts log =
    if is_success build
    then run_scripts d keep_going scripts 0 build.elapsed_ms log
    else some (unprepared d wrote build log)

abbrev pub is_completed : ScriptBatchExecution → Bool
is_completed e = is_success e.command && not e.clef_outcome_unknown
