-- ===== src/Session/Examples.antt =====
-- A session that is answered, on concrete inputs.
use agenstro.Common.{
  ℕ, ◌≡◌, refl, true, false, none, some, ok, err, [], ◌∷◌, ◌++◌, ltb, length, arith, if◌then◌else◌,
}
use agenstro.Common.Text.{Text, lit}
use agenstro.Json.{end}
use agenstro.Session.{
  session_api, awaiting_answer, reversible, SessionOption, SessionBrief, AnsweredAxis, SessionView,
  io, require_decimal,
}
use agenstro.Session.Transcript.{
  TranscriptRecord, TranscriptCodec, record_of, split_lines, last_line, append_transcript,
}
use agenstro.Session.Transcript.Tails.{IsComplete}
use agenstro.Session.Transcript.Retries.{
  IsReadable, IsFree, first, again, second, append_transcript-retry,
}
use agenstro.Session.Answers.{Replacement, Submission, Store, Surroundings, answer}
use agenstro.Session.Answers.Turns.{FinalOutcome, answer-once}

abbrev choice : Text → SessionOption ℕ
choice id = record { id = id; label = id; coordinates = []; rationale = none; extensions = end }

abbrev brief : SessionBrief ℕ
brief = record {
  api = session_api;
  session_id = lit "session-1";
  turn = lit "1";
  findings = [];
  question = record {
    axis = lit "color";
    prompt = lit "Which?";
    options = choice (lit "red") ∷ choice (lit "blue") ∷ [];
    reversibility = reversible;
    depends_on = [];
    extensions = end;
  };
  stakes = [];
  default_option = none;
  remaining_surface = [];
  remaining_floor = [];
  extensions = end;
}

abbrev red : AnsweredAxis ℕ
red = record {
  axis = lit "color";
  option = lit "red";
  label = lit "red";
  defaulted = false;
  answered_at_unix_ms = lit "7";
  extensions = end;
}

abbrev red_id : Text
red_id = lit "session-1" ++ (lit ":" ++ (lit "1" ++ (lit ":" ++ lit "color")))

abbrev red_record : TranscriptRecord ℕ
red_record = record {
  api = session_api;
  kind = lit "answer";
  answer_id = red_id;
  session_id = lit "session-1";
  turn = lit "1";
  brief = brief;
  answer = red;
  note = none;
}

-- A codec with one line.
abbrev codec : TranscriptCodec ℕ (Unit {0})
codec = record {
  to_vec = λ r. lit "red";
  decode_json = λ s. ok tt;
  answer_id = λ v. some red_id;
  from_value = λ v. ok red_record;
  same_brief = λ a b. true;
}

readable : IsReadable codec (record_of codec brief red none)
readable = record {
  value = tt;
  decoded = refl;
  identified = refl;
  typed = refl;
  plain = refl;
  full = refl;
  small = omega arith;
}

no_lines : IsComplete []
unfolding split_lines
no_lines = refl

no_answer : IsFree codec red_id []
unfolding last_line
no_answer = tt

at_seven : require_decimal (lit "7") (lit "transcript answer time") ≡ ok 7
unfolding require_decimal
at_seven = refl

append_transcript-retry_example :
    ((append_transcript codec (some 2) brief red none []).1 ≡ err io)
    × (append_transcript codec none brief
          (again codec brief none red (lit "9") 7 2 [])
          none
          (append_transcript codec (some 2) brief red none []).0
        ≡ (if ltb 2 (length (first codec brief none red (lit "9") 7 2 []))
            then (
              [] ++ second codec brief none red (lit "9") 7 2 [],
              ok (again codec brief none red (lit "9") 7 2 []),
            )
            else ([] ++ first codec brief none red (lit "9") 7 2 [], ok red)))
append_transcript-retry_example =
    append_transcript-retry codec brief none red (lit "9") 7 2 [] no_lines readable (omega arith)
      refl at_seven no_answer

abbrev waiting : SessionView ℕ
waiting = record {
  api = session_api;
  session_id = lit "session-1";
  label = lit "l";
  state = awaiting_answer;
  turn = lit "1";
  pending = some brief;
  answered = [];
  started_unix_ms = lit "1";
  updated_unix_ms = lit "2";
  extensions = end;
}

abbrev surroundings : Surroundings ℕ
surroundings = record {
  unix_ms = ok 7;
  fault = none;
  replacement = Replacement.replaced;
  to_text = λ n. lit "7";
  same_answer = λ a b. true;
}

abbrev submission : Text → Submission
submission option = record { turn = lit "1"; axis = lit "color"; option = option; note = none }

abbrev store : Store ℕ
store = record { session = waiting; transcript = [] }

answer-once_example :
    FinalOutcome codec surroundings surroundings
      (lit "session-1")
      (submission (lit "red"))
      (submission (lit "blue"))
      store
      (answer codec surroundings (lit "session-1") (submission (lit "red")) store)
answer-once_example =
    answer-once codec surroundings surroundings (lit "session-1") (submission (lit "red"))
      (submission (lit "blue")) store
