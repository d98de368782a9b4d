-- ===== src/Daemon/Examples.antt =====
-- A daemon at work on concrete inputs.
use agenstro.Common.{
  ◌≤◌, ◌≡◌, refl, true, false, ◌&&◌, not, some, none, ok, [], ◌∷◌, ◌++◌, List, suc,
}
use agenstro.Common.Text.{Text, lit, text_eq, one_of}
use agenstro.Common.Search.{count_matches, starts_with, replace_first}
use agenstro.Process.Command.{CommandOutcome, exited, is_success}
use agenstro.Daemon.{default_config, EventLog, record_event, Decision}
use agenstro.Daemon.Watching.{Watch, monitor, monitor-calls, quiet_rounds}
use agenstro.Daemon.Repair.{
  Reading, Review, Daemon, bounded_source, apply_repair, blocked, repair_after_failure,
}
use agenstro.Daemon.Repair.Authorization.{repair-IsAuthorized, IsAuthorized, IsApplied}
use agenstro.Daemon.Repair.Verdicts.{failure-IsAnswered, IsAnswered, repair_lines}

abbrev script : Text
script = lit "a.hs"

abbrev daemon : Daemon
daemon = record { config = default_config; retry_scripts = script ∷ [] }

abbrev compile_error : CommandOutcome
compile_error = record { kind = exited; exit_code = some 1; error = none; elapsed_ms = 5 }

abbrev entry : Reading
entry = record { plain = ok true; content = ok (lit "x = l") }

abbrev review : Review
review = record {
  finished_write = true;
  proposed_write = true;
  applied_write = true;
  escalated_write = true;
  cancelled = false;
  source = entry;
  response = ok (Decision.repair (lit "s") (lit "l") (lit "1"));
  cancelled_after = false;
  application = record {
    resolved = ok script;
    extension = some (lit "hs");
    reading = entry;
    persisted = ok tt;
  };
}

abbrev no_events : EventLog
no_events = record { lines = []; degraded = false; escalated = false }

repaired :
    (repair_after_failure daemon script compile_error false 0 review no_events).written
    ≡ some (lit "x = 1")
unfolding repair_after_failure is_success blocked record_event text_eq bounded_source apply_repair
    one_of count_matches starts_with replace_first
repaired = refl

repair-IsAuthorized_example :
    IsAuthorized daemon script compile_error false 0 review no_events
    × ((original : Text) × (review.source.content ≡ ok original)
        × IsApplied review.application script original (lit "x = 1"))
repair-IsAuthorized_example =
    repair-IsAuthorized daemon script compile_error false 0 review no_events (lit "x = 1") repaired

known_failure : (is_success compile_error && not false) ≡ false
unfolding is_success
known_failure = refl

failure-IsAnswered_example :
    IsAnswered
      (no_events.lines ++ repair_lines)
      (repair_after_failure daemon script compile_error false 0 review no_events)
failure-IsAnswered_example =
    failure-IsAnswered daemon script compile_error false 0 review no_events known_failure

abbrev round : Decision → Watch
round d = record {
  timed_out = true;
  cancelled = false;
  response = ok d;
  cancelled_after = false;
  wrote = true;
}

abbrev rounds : List Watch
rounds =
    round (Decision.continue (lit "s"))
    ∷ round (Decision.escalate (lit "s"))
    ∷ round (Decision.continue (lit "s"))
    ∷ []

monitor-calls_example :
    (no_events.escalated ≡ true → (monitor true rounds no_events).1 ≡ 0)
    × (no_events.escalated ≡ false → (monitor true rounds no_events).1 ≤ suc (quiet_rounds rounds))
monitor-calls_example = monitor-calls true rounds no_events
