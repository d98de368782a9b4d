-- ===== src/Session/Transcript.antt =====
-- tactus-runtime/src/session.rs: the transcript of a session, a file of JSON lines. The file is its
-- bytes; a write may stop after any of them.
pub mod Tails
pub mod Retries
use agenstro.Common.{
  ℕ, suc, ◌-◌, Bool, true, false, ◌&&◌, ◌||◌, not, Option, none, some, Result, ok, err, ◌>>=◌, ◌>>◌,
  fail_if, map_err, List, [], ◌∷◌, ◌++◌, ltb, ◌==◌, length, take, if◌then◌else◌,
}
use agenstro.Common.Text.{Text, lit, text_eq, is_empty}
use agenstro.Session.{
  session_api, SessionBrief, AnsweredAxis, SessionError, io, invalid_argument, corrupt,
  require_decimal,
}

abbrev pub max_transcript_record_bytes : ℕ
max_transcript_record_bytes = 2097152

abbrev pub newline : ℕ
newline = 10

abbrev pub extend_lines : ℕ → Text × Text → Text × Text
extend_lines b ([], tail) = if b == newline then (b ∷ [], tail) else ([], b ∷ tail)
extend_lines b (c ∷ lines, tail) = (b ∷ c ∷ lines, tail)

-- The complete lines of a text, and what follows the last newline.
unfoldable pub split_lines : Text → Text × Text
split_lines [] = ([], [])
split_lines (b ∷ s) = extend_lines b (split_lines s)

abbrev pub tail_too_long : SessionError
tail_too_long = corrupt (lit "transcript tail exceeds the 2 MiB recovery bound")

-- `find_previous_newline`: the bytes up to the newline, it included, and none without a newline. It
-- is searched in the last bytes only.
unfoldable pub find_previous_newline : Text → Result SessionError (Text × Text)
find_previous_newline s =
    if ltb max_transcript_record_bytes (length (split_lines s).1)
    then err tail_too_long
    else ok (split_lines s)

abbrev pub without_last : Text → Text
without_last s = take (length s - 1) s

abbrev pub ends_with_newline : Text → Bool
ends_with_newline s = not (is_empty s) && is_empty (split_lines s).1

abbrev pub line_before : Result SessionError (Text × Text) → Result SessionError (Option Text)
line_before (err e) = err e
line_before (ok (lines, line)) =
    if is_empty line || ltb max_transcript_record_bytes (length line)
    then err (corrupt (lit "invalid bounded transcript record"))
    else ok (some line)

-- The last complete line of a file that ends with one.
unfoldable pub last_line : Text → Result SessionError (Option Text)
unfolding find_previous_newline
last_line s = if is_empty s then ok none else line_before (find_previous_newline (without_last s))

-- The file as it is left, and the last line.
abbrev pub repaired :
    Result SessionError (Text × Text) → Text → Text × Result SessionError (Option Text)
repaired (err e) file = (file, err e)
repaired (ok (lines, tail)) file = (lines, last_line lines)

unfoldable pub repair_and_read_last_transcript_line :
    Text → Text × Result SessionError (Option Text)
unfolding find_previous_newline last_line
repair_and_read_last_transcript_line file =
    if is_empty file || ends_with_newline file
    then (file, last_line file)
    else repaired (find_previous_newline file) file

pub record TranscriptRecord (N : Type 0) : Type 0 where
  pub api : Text
  pub kind : Text
  pub answer_id : Text
  pub session_id : Text
  pub turn : Text
  pub brief : SessionBrief N
  pub answer : AnsweredAxis N
  pub note : Option Text

-- `serde_json`, `decode_json` of protocol.rs with its values, and the derived equality of briefs.
pub record TranscriptCodec (N : Type 0) (V : Type 0) : Type 0 where
  pub to_vec : TranscriptRecord N → Text
  pub decode_json : Text → Result Text V
  pub answer_id : V → Option Text
  pub from_value : V → Result Text (TranscriptRecord N)
  pub same_brief : SessionBrief N → SessionBrief N → Bool

abbrev pub same_note : Option Text → Option Text → Bool
same_note none none = true
same_note (some a) (some b) = text_eq a b
same_note _ _ = false

abbrev pub is_id : Text → Option Text → Bool
is_id id none = false
is_id id (some other) = text_eq other id

abbrev pub same_flag : Bool → Bool → Bool
same_flag true b = b
same_flag false b = not b

module _ {N V : Type 0} (c : TranscriptCodec N V) where
  abbrev pub record_of : SessionBrief N → AnsweredAxis N → Option Text → TranscriptRecord N
  record_of brief answer note = record {
    api = session_api;
    kind = lit "answer";
    answer_id = brief.session_id ++ (lit ":" ++ (brief.turn ++ (lit ":" ++ answer.axis)));
    session_id = brief.session_id;
    turn = brief.turn;
    brief = brief;
    answer = answer;
    note = note;
  }

  abbrev pub differs : TranscriptRecord N → TranscriptRecord N → Bool
  differs stored r =
      not (text_eq stored.api session_api)
      || not (text_eq stored.kind (lit "answer"))
      || not (text_eq stored.answer_id r.answer_id)
      || not (text_eq stored.session_id r.brief.session_id)
      || not (text_eq stored.turn r.brief.turn)
      || not (c.same_brief stored.brief r.brief)
      || not (text_eq stored.answer.axis r.answer.axis)
      || not (text_eq stored.answer.option r.answer.option)
      || not (text_eq stored.answer.label r.answer.label)
      || not (same_flag stored.answer.defaulted r.answer.defaulted)
      || not (same_note stored.note r.note)

  -- The answer that the transcript already has under this identifier.
  abbrev pub stored_answer : TranscriptRecord N → V → Result SessionError (AnsweredAxis N)
  stored_answer r value = do
    stored ← map_err (λ e. corrupt (lit "invalid stored answer record: " ++ e)) (c.from_value value)
    fail_if (differs stored r) invalid_argument
    at ← require_decimal stored.answer.answered_at_unix_ms (lit "transcript answer time")
    ok stored.answer

  -- How the write ends: all of it is written, or it fails after some bytes.
  abbrev pub written : Option ℕ → Text → Text → Text
  written none file encoded = file ++ encoded
  written (some n) file encoded = file ++ take n encoded

  abbrev pub append_record :
      Option ℕ → TranscriptRecord N → Text → Text × Result SessionError (AnsweredAxis N)
  append_record none r file = (written none file (c.to_vec r ++ (newline ∷ [])), ok r.answer)
  append_record (some n) r file = (written (some n) file (c.to_vec r ++ (newline ∷ [])), err io)

  abbrev pub reuse :
      Option ℕ
      → TranscriptRecord N
      → Text
      → Result Text V
      → Text × Result SessionError (AnsweredAxis N)
  reuse fault r file (err e) =
      (file, err (corrupt (lit "invalid complete transcript record: " ++ e)))
  reuse fault r file (ok value) =
      if is_id r.answer_id (c.answer_id value)
      then (file, stored_answer r value)
      else append_record fault r file

  abbrev pub append_after :
      Option ℕ
      → TranscriptRecord N
      → Text × Result SessionError (Option Text)
      → Text × Result SessionError (AnsweredAxis N)
  append_after fault r (file, err e) = (file, err e)
  append_after fault r (file, ok none) = append_record fault r file
  append_after fault r (file, ok (some line)) = reuse fault r file (c.decode_json line)

  -- The transcript afterwards, and the answer that it has.
  unfoldable pub append_transcript :
      Option ℕ
      → SessionBrief N
      → AnsweredAxis N
      → Option Text
      → Text
      → Text × Result SessionError (AnsweredAxis N)
  unfolding repair_and_read_last_transcript_line
  append_transcript fault brief answer note file =
      let r = record_of brief answer note in
      if ltb max_transcript_record_bytes (suc (length (c.to_vec r)))
      then (file, err (corrupt (lit "transcript record exceeds 2 MiB")))
      else append_after fault r (repair_and_read_last_transcript_line file)
