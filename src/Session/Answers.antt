-- ===== src/Session/Answers.antt =====
-- tactus-runtime/src/session.rs: one human answer to the pending question of a session. The lock is
-- held throughout, so that nothing else changes the two files.
pub mod Recording
pub mod Turns
use agenstro.Common.{
  ℕ, ◌+◌, max, Bool, true, false, ◌&&◌, ◌||◌, not, Option, none, some, is_some, is_some_and, Result,
  ok, err, ◌>>=◌, ◌>>◌, fail_if, ok_or, List, [], ◌∷◌, ◌++◌, ltb, leb, ◌==◌, length, any,
  if◌then◌else◌,
}
use agenstro.Common.Text.{Text, lit, text_eq}
use agenstro.Json.{Fields, end}
use agenstro.Session.{
  planning, is_awaiting, SessionOption, SessionBrief, AnsweredAxis, SessionView, SessionError, io,
  invalid_id, invalid_argument, turn_stale, axis_mismatch, option_invalid, state_invalid,
  is_session_id, is_axis_id, is_option_id, require_decimal,
}
use agenstro.Session.Validation.{validate_session}
use agenstro.Session.Transcript.{TranscriptCodec, append_transcript}

pub record Submission : Type 0 where
  pub turn : Text
  pub axis : Text
  pub option : Text
  pub note : Option Text

-- The two files of a session.
pub record Store (N : Type 0) : Type 0 where
  pub session : SessionView N
  pub transcript : Text

-- How `replace_session` ends. Before `persist` every failure leaves the document that was there; after
-- it the new document is in place, also when `sync_parent_directory` fails.
pub data Replacement : Type 0 where
  not_replaced : SessionError → Replacement
  unsynced replaced : Replacement

-- What the environment answers: the clock, how the append ends, how the document is replaced; and
-- `u64::to_string` and the derived equality of answers.
pub record Surroundings (N : Type 0) : Type 0 where
  pub unix_ms : Result SessionError ℕ
  pub fault : Option ℕ
  pub replacement : Replacement
  pub to_text : ℕ → Text
  pub same_answer : AnsweredAxis N → AnsweredAxis N → Bool

abbrev is_long_note : Text → Bool
is_long_note note = ltb 4096 (length note) || any (λ b. b == 0) note

unfoldable pub check_submission : Submission → Result SessionError (Unit {0})
unfolding require_decimal
check_submission x = do
  elim (require_decimal x.turn (lit "answer turn")) as (λ q. Result SessionError (Unit {0})) [
    | ok turn ↦ ok tt
    | err e ↦ err invalid_argument
  ]
  fail_if (not (is_axis_id x.axis)) axis_mismatch
  fail_if (not (is_option_id x.option)) option_invalid
  fail_if (is_some_and is_long_note x.note) invalid_argument

module _ {N : Type 0} where
  abbrev pub retain_others : Text → List (AnsweredAxis N) → List (AnsweredAxis N)
  retain_others axis [] = []
  retain_others axis (a ∷ more) =
      let rest = retain_others axis more in if text_eq a.axis axis then rest else a ∷ rest

  abbrev pub with_answer : (ℕ → Text) → SessionView N → AnsweredAxis N → ℕ → SessionView N
  with_answer to_text s a updated = record s {
    state = planning;
    pending = none;
    answered = retain_others a.axis s.answered ++ (a ∷ []);
    updated_unix_ms = to_text updated;
  }

  unfoldable pub project_answer :
      (ℕ → Text) → SessionView N → AnsweredAxis N → ℕ → Result SessionError (SessionView N)
  project_answer to_text s a previous = do
    at ← require_decimal a.answered_at_unix_ms (lit "answer time")
    ok (with_answer to_text s a (max previous at))

  abbrev pub find_option : Text → List (SessionOption N) → Option (SessionOption N)
  find_option id [] = none
  find_option id (o ∷ os) = let rest = find_option id os in if text_eq o.id id then some o else rest

  abbrev pub is_answered : Text → List (AnsweredAxis N) → Bool
  is_answered axis = any (λ a. text_eq a.axis axis)

-- What is known before the transcript is written.
pub record Prepared (N : Type 0) : Type 0 where
  pub pending : SessionBrief N
  pub answered : AnsweredAxis N
  pub previous : ℕ
  pub projected : SessionView N

abbrev pub answered_axis : {N : Type 0} → Submission → Text → Text → AnsweredAxis N
answered_axis x label at = record {
  axis = x.axis;
  option = x.option;
  label = label;
  defaulted = false;
  answered_at_unix_ms = at;
  extensions = end;
}

module _ {N V : Type 0} (c : TranscriptCodec N V) (w : Surroundings N) (id : Text)
    (x : Submission) where
  abbrev pub projects :
      SessionView N → SessionBrief N → AnsweredAxis N → ℕ → Result SessionError (Prepared N)
  projects s pending a previous = do
    projected ← project_answer w.to_text s a previous
    validate_session projected id
    ok (record { pending = pending; answered = a; previous = previous; projected = projected })

  unfoldable pub prepare : SessionView N → Result SessionError (Prepared N)
  unfolding project_answer
  prepare s = do
    fail_if (not (text_eq s.turn x.turn)) turn_stale
    fail_if (not (is_awaiting s.state)) state_invalid
    pending ← ok_or s.pending state_invalid
    fail_if (not (text_eq pending.question.axis x.axis)) axis_mismatch
    selected ← ok_or (find_option x.option pending.question.options) option_invalid
    fail_if (not (is_answered x.axis s.answered) && leb 256 (length s.answered)) state_invalid
    previous ← require_decimal s.updated_unix_ms (lit "session update time")
    now ← w.unix_ms
    projects s pending (answered_axis x selected.label (w.to_text (max now previous))) previous

  -- The document after the transcript has the answer.
  abbrev pub settled : Prepared N → AnsweredAxis N → Result SessionError (SessionView N)
  settled p recorded =
      let again = do
        s ← project_answer w.to_text p.projected recorded p.previous
        validate_session s id
        ok s
      in if w.same_answer recorded p.answered then ok p.projected else again

  abbrev pub replace_session :
      Replacement → Store N → Text → SessionView N → Store N × Result SessionError (SessionView N)
  replace_session (not_replaced e) store transcript s =
      (record store { transcript = transcript }, err e)
  replace_session unsynced store transcript s =
      (record { session = s; transcript = transcript }, err io)
  replace_session replaced store transcript s =
      (record { session = s; transcript = transcript }, ok s)

  abbrev pub publish :
      Store N
      → Text
      → Result SessionError (SessionView N)
      → Store N × Result SessionError (SessionView N)
  publish store transcript (err e) = (record store { transcript = transcript }, err e)
  publish store transcript (ok s) = replace_session w.replacement store transcript s

  abbrev pub recorded_answer :
      Store N
      → Prepared N
      → Text × Result SessionError (AnsweredAxis N)
      → Store N × Result SessionError (SessionView N)
  recorded_answer store p (transcript, err e) = (record store { transcript = transcript }, err e)
  recorded_answer store p (transcript, ok a) = publish store transcript (settled p a)

  abbrev pub submit :
      Store N → Result SessionError (Prepared N) → Store N × Result SessionError (SessionView N)
  submit store (err e) = (store, err e)
  submit store (ok p) =
      recorded_answer store p
        (append_transcript c w.fault p.pending p.answered x.note store.transcript)

  -- `answer`: the document is read, and checked, under the lock.
  unfoldable pub answer : Store N → Store N × Result SessionError (SessionView N)
  unfolding prepare check_submission
  answer store = submit store (do
    check_submission x
    fail_if (not (is_session_id id)) invalid_id
    validate_session store.session id
    prepare store.session)
