-- ===== src/Journal/Writer/Calls.antt =====
-- The calls that may be made of a journal, and what a journal is after any of them.
use agenstro.Common.{
  ℕ, suc, ◌≡◌, Bool, true, false, Option, none, some, Result, ok, err, List, [], ◌∷◌, length,
}
use agenstro.Common.Text.{Text}
use agenstro.Json.{Value}
use agenstro.Process.{ProcessOutcome}
use agenstro.Outcome.{validate_outcome_consistency}
use agenstro.Journal.Redaction.{Encoder}
use agenstro.Journal.Summary.{RunSummary, trace_api}
use agenstro.Journal.Writer.{
  Presentation, TraceEvent, TransitionTrigger, TransitionGuard, JournalError, already_finished,
  Append, append_failed, RunJournal, record_with_presentation, record_transition, finish,
  finish_degraded,
}

-- A call of the journal and what the file system and the clock did in it.
pub data Call (N : Type 0) : Type 0 where
  log : Text → Value N → Option Presentation → ℕ → Append → Call N
  transition :
      Text → TransitionTrigger N → TransitionGuard → Text → Presentation → ℕ → Append → Call N
  close_run : ProcessOutcome N → ℕ → Result JournalError (Unit {0}) → Option JournalError → Call N
  abandon : ProcessOutcome N → ℕ → Option JournalError → Call N

-- No failed append left its line in the stream.
abbrev pub left_nothing : Append → Bool
left_nothing (append_failed e true) = false
left_nothing _ = true

module _ {N : Type 0} where
  unfoldable pub run_call : Encoder N → Call N → RunJournal N → RunJournal N
  run_call c (log k v p now a) j = (record_with_presentation c k v p now a j).0
  run_call c (transition b t g s p now a) j = (record_transition c b t g s p now a j).0
  run_call c (close_run o now sync rename) j = (finish c o now sync rename j).0
  run_call c (abandon o now rename) j = (finish_degraded c o now rename j).0

  -- The call returns `AlreadyFinished`.
  unfoldable pub Refuses : Encoder N → Call N → RunJournal N → Type 0
  Refuses c (log k v p now a) j =
      (record_with_presentation c k v p now a j).1 ≡ err already_finished
  Refuses c (transition b t g s p now a) j =
      (record_transition c b t g s p now a j).1 ≡ err already_finished
  Refuses c (close_run o now sync rename) j =
      (finish c o now sync rename j).1 ≡ err already_finished
  Refuses c (abandon o now rename) j = (finish_degraded c o now rename j).1 ≡ err already_finished

  unfoldable pub run_calls : Encoder N → List (Call N) → RunJournal N → RunJournal N
  run_calls c [] j = j
  run_calls c (x ∷ xs) j = run_calls c xs (run_call c x j)

  abbrev pub clean : Call N → Bool
  clean (log k v p now a) = left_nothing a
  clean (transition b t g s p now a) = left_nothing a
  clean _ = true

  abbrev pub AreNumbered : Text → ℕ → List (TraceEvent N) → Type 0
  AreNumbered id n [] = Unit
  AreNumbered id n (e ∷ es) =
      (e.api ≡ trace_api) × (e.run_id ≡ id) × (e.seq ≡ n) × AreNumbered id (suc n) es

  abbrev pub IsStream : Text → ℕ → Option (List (TraceEvent N)) → Type 0
  IsStream id n none = Unit
  IsStream id n (some es) = AreNumbered id 1 es × (n ≡ suc (length es))

  abbrev pub IsSummary : RunJournal N → Option (RunSummary N) → Type 0
  IsSummary j none = Unit
  IsSummary j (some s) =
      (j.finished ≡ true)
      × (s.api ≡ trace_api)
      × (s.run_id ≡ j.run_id)
      × (validate_outcome_consistency s.outcome ≡ ok tt)
      × (suc s.events_recorded ≡ j.next_seq)

  abbrev pub IsWellFormed : RunJournal N → Type 0
  IsWellFormed j = IsStream j.run_id j.next_seq j.events × IsSummary j j.published
