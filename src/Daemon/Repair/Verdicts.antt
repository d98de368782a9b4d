-- ===== src/Daemon/Repair/Verdicts.antt =====
-- How `repair_after_failure` of tactus-runtime/src/daemon.rs ends, and the lines of its log.
use agenstro.Common.{
  ℕ, ◌≡◌, refl, ◌⊎◌, inl, inr, Bool, true, false, ◌&&◌, not, Option, none, some, is_some, Result,
  ok, err, List, [], ◌∷◌, ◌++◌, append_assoc, subst, ap, ◌∙◌, arith, Bool-cases, if◌then◌else◌,
}
use agenstro.Common.Text.{Text, lit}
use agenstro.Process.Command.{CommandOutcome, is_success}
use agenstro.Daemon.{EventLog, record_event, note_escalation, Decision}
use agenstro.Daemon.Repair.{
  bounded_source, Review, Refusal, Daemon, Verdict, give_up, applied, proposed, decided, reviewed,
  unless_blocked, repair_after_failure, apply_repair,
}

-- The names that a repaired failure adds to the log.
abbrev pub repair_lines : List Text
repair_lines =
    lit "daemon.script_finished"
    ∷ (lit "daemon.repair_proposed" ∷ (lit "daemon.repair_applied" ∷ []))

-- The last line of the log is an escalation, or the log says that it is incomplete.
abbrev pub IsReported : EventLog → Type 0
IsReported log =
    ((lines : List Text) × (log.lines ≡ lines ++ (lit "daemon.escalated" ∷ [])))
    ⊎ (log.degraded ≡ true)

abbrev pub IsAnswered : List Text → Verdict → Type 0
IsAnswered lines v =
    ((v.rerun ≡ true)
      × (is_some v.written ≡ true)
      × (v.log.degraded ≡ false)
      × (v.log.lines ≡ lines))
    ⊎ ((v.rerun ≡ false)
        × (((v.log.escalated ≡ true) × IsReported v.log) ⊎ (v.log.degraded ≡ true)))

-- The same, seen from a log that the lines are added to.
abbrev Answers : EventLog → List Text → Verdict → Type 0
Answers log more v =
    ((log.degraded ≡ false) × IsAnswered (log.lines ++ more) v)
    ⊎ ((v.rerun ≡ false)
        × (((v.log.escalated ≡ true) × IsReported v.log) ⊎ (v.log.degraded ≡ true)))

give_up-Answers :
    (before : EventLog) (more : List Text) (wrote : Bool) (log : EventLog)
    → Answers before more (give_up wrote log)
unfolding note_escalation record_event
give_up-Answers before more true log = inr (refl, inl (refl, inl (log.lines, refl)))
give_up-Answers before more false log = inr (refl, inl (refl, inr (ground arith)))

-- The lines after the proposal, and after the application.
abbrev applied_line : List Text
applied_line = lit "daemon.repair_applied" ∷ []

abbrev proposed_lines : List Text
proposed_lines = lit "daemon.repair_proposed" ∷ applied_line

module _ (r : Review) (script : Text) where
  applied-Answers :
      (log : EventLog) (q : Result Text Text) → Answers log applied_line (applied r log q)
  unfolding record_event
  applied-Answers log (err e) = give_up-Answers log applied_line r.escalated_write log
  applied-Answers log (ok text) = by_write r.applied_write (Bool-cases log.degraded)
    where
      by_write :
          (w : Bool)
          → (log.degraded ≡ true) ⊎ (log.degraded ≡ false)
          → Answers log applied_line (record {
            log = (record_event (lit "daemon.repair_applied") w log).0;
            rerun = (record_event (lit "daemon.repair_applied") w log).1;
            written = some text;
          })
      by_write w (inl lost) = inr (ground arith, inr (ground arith))
      by_write false (inr kept) = inr (ground arith, inr (ground arith))
      by_write true (inr kept) = inl (kept, inl (ground arith, refl, ground arith, refl))

  -- What is answered after one more line is answered with that line.
  later-Answers :
      (log log' : EventLog) (line : Text) (more : List Text) (v : Verdict)
      → (log'.degraded ≡ false → (log.degraded ≡ false) × (log'.lines ≡ log.lines ++ (line ∷ [])))
      → Answers log' more v
      → Answers log (line ∷ more) v
  later-Answers log log' line more v h (inr a) = inr a
  later-Answers log log' line more v h (inl (kept, a)) =
      let (fine, same) = h kept in
      inl (
        fine,
        subst (λ (l : List Text). IsAnswered l v)
            (ap (λ (l : List Text). l ++ more) same ∙ append_assoc log.lines (line ∷ []) more) a,
      )

  record_event-kept :
      (name : Text) (w : Bool) (log : EventLog)
      → (record_event name w log).0.degraded ≡ false
      → (log.degraded ≡ false) × ((record_event name w log).0.lines ≡ log.lines ++ (name ∷ []))
  unfolding record_event
  record_event-kept name true log h = (ground arith, refl)
  record_event-kept name false log h = (ground arith, ground arith)

  proposed-Answers :
      (source old new : Text) (log : EventLog) (w : Bool)
      → Answers log proposed_lines
          (proposed r script source old new (record_event (lit "daemon.repair_proposed") w log))
  proposed-Answers source old new log w =
      later-Answers log (record_event (lit "daemon.repair_proposed") w log).0 _ applied_line _
        (record_event-kept (lit "daemon.repair_proposed") w log)
        (reported (record_event (lit "daemon.repair_proposed") w log).0
          (record_event (lit "daemon.repair_proposed") w log).1 (unreported w log))
    where
      unreported :
          (w : Bool) (log : EventLog)
          → (record_event (lit "daemon.repair_proposed") w log).1 ≡ false
          → (record_event (lit "daemon.repair_proposed") w log).0.degraded ≡ true
      unreported w log h = unfold record_event in ground arith

      reported :
          (log' : EventLog) (b : Bool)
          → (b ≡ false → log'.degraded ≡ true)
          → Answers log' applied_line (proposed r script source old new (log', b))
      reported log' false h = inr (refl, inr (h refl))
      reported log' true h = applied-Answers log' (apply_repair r.application script source old new)

  decided-Answers :
      (source : Text) (log : EventLog) (q : Result Text Decision)
      → Answers log proposed_lines (decided r script source log q)
  decided-Answers source log (err e) = give_up-Answers log proposed_lines r.escalated_write log
  decided-Answers source log (ok (Decision.continue s)) =
      give_up-Answers log proposed_lines r.escalated_write log
  decided-Answers source log (ok (Decision.escalate s)) =
      give_up-Answers log proposed_lines r.escalated_write log
  decided-Answers source log (ok (Decision.repair s old new)) =
      proposed-Answers source old new log r.proposed_write

  reviewed-Answers :
      (log : EventLog) (q : Result Text Text) → Answers log proposed_lines (reviewed r script log q)
  reviewed-Answers log (err e) = give_up-Answers log proposed_lines r.escalated_write log
  reviewed-Answers log (ok source) = by_token r.cancelled_after
    where
      by_token :
          (b : Bool)
          → Answers log proposed_lines
              (if b then give_up r.escalated_write log else decided r script source log r.response)
      by_token true = give_up-Answers log proposed_lines r.escalated_write log
      by_token false = decided-Answers source log r.response

  unblocked-Answers :
      (log : EventLog) (q : Option Refusal)
      → Answers log proposed_lines (unless_blocked r script log q)
  unblocked-Answers log (some why) = give_up-Answers log proposed_lines r.escalated_write log
  unblocked-Answers log none = reviewed-Answers log (bounded_source r.source)

Answers-IsAnswered :
    (log : EventLog) (more : List Text) (v : Verdict)
    → Answers log more v
    → IsAnswered (log.lines ++ more) v
Answers-IsAnswered log more v (inl (kept, a)) = a
Answers-IsAnswered log more v (inr a) = inr a

-- After every outcome that is not a known success: either the entry was changed and runs again, the
-- log is complete, and it has gained the lines of the end, the proposal and the application, in this
-- order and no others; or the entry does not run again, and the log is marked as incomplete, or the
-- failure is escalated and the last line of the log says so.
pub failure-IsAnswered :
    (d : Daemon) (script : Text) (status : CommandOutcome) (unknown : Bool) (attempt : ℕ)
    (r : Review) (log : EventLog)
    → (is_success status && not unknown) ≡ false
    → IsAnswered
        (log.lines ++ repair_lines)
        (repair_after_failure d script status unknown attempt r log)
unfolding repair_after_failure
failure-IsAnswered d script status unknown attempt r log h = rw h (
    Answers-IsAnswered log repair_lines _ (
      later-Answers r script log
        (record_event (lit "daemon.script_finished") r.finished_write log).0
        (lit "daemon.script_finished") proposed_lines _
        (record_event-kept r script (lit "daemon.script_finished") r.finished_write log)
        (unblocked-Answers r script _ _)))
