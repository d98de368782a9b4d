-- ===== src/Daemon/Repair.antt =====
-- tactus-runtime/src/daemon.rs: what happens after an entry ended: the guards of a repair, the review
-- by the provider, and the one replacement that the runtime may write.
pub mod Authorization
pub mod Verdicts
use agenstro.Common.{
  ℕ, ◌+◌, Bool, true, false, ◌&&◌, ◌||◌, not, Option, none, some, is_some, is_some_and, Result, ok,
  err, ◌>>=◌, ◌>>◌, fail_if, List, [], ◌∷◌, ltb, leb, ◌==◌, length, any, if◌then◌else◌,
}
use agenstro.Common.Text.{Text, lit, text_eq, is_empty, one_of}
use agenstro.Common.Search.{count_matches, replace_first}
use agenstro.Process.Command.{CommandOutcome, is_success, is_exited}
use agenstro.Daemon.{DaemonConfig, EventLog, record_event, note_escalation, Decision}

abbrev pub max_source_bytes : ℕ
max_source_bytes = 131072

-- Whether the path is a plain file, and at most `max_source_bytes + 1` bytes of it.
pub record Reading : Type 0 where
  pub plain : Result Text Bool
  pub content : Result Text Text

unfoldable pub bounded_source : Reading → Result Text Text
bounded_source r = do
  plain ← r.plain
  fail_if (not plain) (lit "repair source must remain a plain regular file")
  source ← r.content
  fail_if (ltb max_source_bytes (length source))
      (lit "entry exceeds the automatic repair size limit")
  ok source

-- What `apply_repair` finds: the path that the workspace resolves, the extension of the entry, the
-- entry as it is now, and the result of writing the temporary file and renaming it over the entry.
pub record Application : Type 0 where
  pub resolved : Result Text Text
  pub extension : Option Text
  pub reading : Reading
  pub persisted : Result Text (Unit {0})

abbrev pub is_haskell : Option Text → Bool
is_haskell = is_some_and (one_of (lit "hs" ∷ lit "lhs" ∷ []))

abbrev pub unfit_fragment : Text → Text → Text → Bool
unfit_fragment original old new =
    is_empty old
    || text_eq old new
    || ltb 8192 (length old)
    || ltb 8192 (length new)
    || not (count_matches old 0 original == 1)

-- The text that was put in place of the entry.
unfoldable pub apply_repair : Application → Text → Text → Text → Text → Result Text Text
unfolding bounded_source
apply_repair x script original old new = do
  resolved ← x.resolved
  fail_if (not (text_eq resolved script) || not (is_haskell x.extension))
      (lit "repair target must be the selected Haskell entry")
  fail_if (unfit_fragment original old new)
      (lit "repair must replace one unique, nonempty fragment of at most 8192 bytes")
  now ← bounded_source x.reading
  fail_if (not (text_eq now original))
      (lit "entry changed during provider review; repair was not applied")
  fail_if (ltb max_source_bytes (length (replace_first old new original)))
      (lit "repaired entry exceeds the size limit")
  x.persisted
  ok (replace_first old new original)

-- What `repair_after_failure` finds. The writes are those of its log: its first line, the proposal,
-- the application, and an escalation.
pub record Review : Type 0 where
  pub finished_write : Bool
  pub proposed_write : Bool
  pub applied_write : Bool
  pub escalated_write : Bool
  pub cancelled : Bool
  pub source : Reading
  pub response : Result Text Decision
  pub cancelled_after : Bool
  pub application : Application

-- The reasons that forbid a repair, in the order of their tests.
pub data Refusal : Type 0 where
  unknown_outcome cancelled_task already_escalated unauthorized exhausted unreported : Refusal

pub record Daemon : Type 0 where
  pub config : DaemonConfig
  pub retry_scripts : List Text

abbrev pub is_ambiguous : CommandOutcome → Bool → Bool
is_ambiguous status unknown =
    unknown || not (is_exited status.kind) || not (is_some status.exit_code)

unfoldable pub blocked :
    Daemon → Text → CommandOutcome → Bool → ℕ → Bool → EventLog → Option Refusal
blocked d script status unknown attempt cancelled log =
    if is_ambiguous status unknown
    then some unknown_outcome
    else if cancelled
    then some cancelled_task
    else if log.escalated
    then some already_escalated
    else if not (any (λ s. text_eq s script) d.retry_scripts)
    then some unauthorized
    else if leb d.config.max_retries attempt
    then some exhausted
    else if log.degraded
    then some unreported
    else none

-- The log afterwards, whether the entry runs again, and the text that replaced it.
pub record Verdict : Type 0 where
  pub log : EventLog
  pub rerun : Bool
  pub written : Option Text

abbrev pub give_up : Bool → EventLog → Verdict
give_up wrote log = record { log = note_escalation wrote log; rerun = false; written = none }

abbrev pub applied : Review → EventLog → Result Text Text → Verdict
applied r log (err e) = give_up r.escalated_write log
applied r log (ok text) =
    let (log', kept) = record_event (lit "daemon.repair_applied") r.applied_write log in
    record { log = log'; rerun = kept; written = some text }

abbrev pub proposed : Review → Text → Text → Text → Text → EventLog × Bool → Verdict
proposed r script source old new (log, false) = record { log = log; rerun = false; written = none }
proposed r script source old new (log, true) =
    applied r log (apply_repair r.application script source old new)

abbrev pub decided : Review → Text → Text → EventLog → Result Text Decision → Verdict
decided r script source log (err e) = give_up r.escalated_write log
decided r script source log (ok (Decision.continue s)) = give_up r.escalated_write log
decided r script source log (ok (Decision.escalate s)) = give_up r.escalated_write log
decided r script source log (ok (Decision.repair s old new)) =
    proposed r script source old new
      (record_event (lit "daemon.repair_proposed") r.proposed_write log)

abbrev pub reviewed : Review → Text → EventLog → Result Text Text → Verdict
reviewed r script log (err e) = give_up r.escalated_write log
reviewed r script log (ok source) =
    if r.cancelled_after
    then give_up r.escalated_write log
    else decided r script source log r.response

abbrev pub unless_blocked : Review → Text → EventLog → Option Refusal → Verdict
unless_blocked r script log (some why) = give_up r.escalated_write log
unless_blocked r script log none = reviewed r script log (bounded_source r.source)

unfoldable pub repair_after_failure :
    Daemon → Text → CommandOutcome → Bool → ℕ → Review → EventLog → Verdict
repair_after_failure d script status unknown attempt r log =
    let log' = (record_event (lit "daemon.script_finished") r.finished_write log).0 in
    if is_success status && not unknown
    then record { log = log'; rerun = false; written = none }
    else unless_blocked r script log' (blocked d script status unknown attempt r.cancelled log')
