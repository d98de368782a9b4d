-- ===== src/JournalReader.antt =====
-- tactus-runtime/src/journal_reader.rs: the records of a journal that is read back. A `BufRead` is
-- the list of what its `fill_buf` gives: an error, or the bytes that are not consumed yet, which
-- are empty at the end only. The decoding of `serde_json` is a parameter.
pub mod Lines
pub mod OneEvent
pub mod RoundTrip
mod Examples
use agenstro.Common.{
  ℕ, zero, suc, ◌+◌, ◌-◌, min, Bool, true, false, ◌&&◌, ◌||◌, not, Option, none, some, Result, ok,
  err, ◌>>=◌, ◌>>◌, fail_if, map_err, List, [], ◌∷◌, ◌++◌, ltb, ◌==◌, length, take, drop,
  if◌then◌else◌,
}
use agenstro.Common.Text.{Text, lit, text_eq, is_empty}
use agenstro.Outcome.{Inconsistency, validate_outcome_consistency}
use agenstro.Limits.{max_frame_bytes_ceiling}
use agenstro.Journal.Summary.{RunSummary, trace_api}
use agenstro.Journal.Writer.{TraceEvent}

abbrev pub max_event_line_bytes : ℕ
max_event_line_bytes = max_frame_bytes_ceiling + 4194304

abbrev pub max_event_scan_bytes : ℕ
max_event_scan_bytes = 134217728

-- Each reason of the source's `Corrupt` is a constructor.
pub data ReadError : Type 0 where
  io : Text → ReadError
  json : Text → ReadError
  wrong_summary wrong_count incomplete wrong_event : ReadError
  inconsistent : Inconsistency → ReadError
  line_too_large scan_budget_exceeded : ReadError

pub record BoundedLine : Type 0 where
  pub bytes : Text
  pub terminated : Bool

abbrev pub Source : Type 0
Source = List (Result Text Text)

abbrev pub newline : ℕ
newline = 10

-- `.position(|byte| *byte == b'\n').map_or(available.len(), |index| index + 1)`.
unfoldable pub line_length : Text → ℕ
line_length [] = 0
line_length (b ∷ s) = let more = line_length s in if b == newline then 1 else suc more

-- `available[n - 1] == b'\n'`.
unfoldable pub newline_at : ℕ → Text → Bool
newline_at n [] = false
newline_at zero (b ∷ s) = b == newline
newline_at (suc n) (b ∷ s) = newline_at n s

-- `consume`: when all that was given is consumed, `fill_buf` gives what comes next.
abbrev pub consume : Text → Source → Source
consume [] rest = rest
consume (b ∷ s) rest = ok (b ∷ s) ∷ rest

abbrev pub end_of_input : Text → Option BoundedLine
end_of_input [] = none
end_of_input (b ∷ s) = some (record { bytes = b ∷ s; terminated = false })

unfoldable pub read_bounded_line :
    ℕ → Text → Source → Result ReadError (Option BoundedLine × Source)
read_bounded_line max_bytes output [] = ok (end_of_input output, [])
read_bounded_line max_bytes output (err e ∷ rest) = err (io e)
read_bounded_line max_bytes output (ok [] ∷ rest) = ok (end_of_input output, ok [] ∷ rest)
read_bounded_line max_bytes output (ok (b ∷ s) ∷ rest) =
    let n = line_length (b ∷ s) in
    let output' = output ++ take n (b ∷ s) in
    let more = read_bounded_line max_bytes output' rest in
    if ltb max_bytes (length output + n)
    then err line_too_large
    else if newline_at (n - 1) (b ∷ s)
    then ok (some (record { bytes = output'; terminated = true }), consume (drop n (b ∷ s)) rest)
    else more

-- `strip_suffix` of one byte.
unfoldable pub strip_last : ℕ → Text → Text
strip_last x [] = []
strip_last x (b ∷ []) = if b == x then [] else b ∷ []
strip_last x (b ∷ c ∷ s) = b ∷ strip_last x (c ∷ s)

unfoldable pub strip_newline : Text → Text
strip_newline s = strip_last 13 (strip_last newline s)

module _ {N : Type 0} where
  unfoldable pub decode_summary :
      (Text → Result Text (RunSummary N)) → Text → Text → Result ReadError (RunSummary N)
  decode_summary from_slice bytes run_id = do
    summary ← map_err json (from_slice bytes)
    fail_if (not (text_eq summary.api trace_api) || not (text_eq summary.run_id run_id))
        wrong_summary
    map_err inconsistent (validate_outcome_consistency summary.outcome)
    ok summary

pub data EventRead (N : Type 0) : Type 0 where
  event : TraceEvent N → ℕ → EventRead N
  end partial : EventRead N

pub record EventReader : Type 0 where
  pub reader : Source
  pub run_id : Text
  pub closed : Bool
  pub count : ℕ
  pub scanned_bytes : ℕ

-- `EventReader::new`.
unfoldable pub open_reader : Source → Text → Bool → EventReader
open_reader source id closed = record {
  reader = source;
  run_id = id;
  closed = closed;
  count = 0;
  scanned_bytes = 0;
}

abbrev pub u64_max : ℕ
u64_max = 18446744073709551615

abbrev pub Step : Type 0 → Type 0
Step N = Result ReadError (EventRead N × EventReader)

module _ {N : Type 0} where
  abbrev pub accept_event : EventReader → ℕ → Result Text (TraceEvent N) → Step N
  accept_event r n (err e) = err (json e)
  accept_event r n (ok e) =
      if not (text_eq e.api trace_api)
        || not (text_eq e.run_id r.run_id)
        || not (e.seq == r.count + 1)
      then err wrong_event
      else ok (event e n, record r { count = r.count + 1 })

  abbrev pub accept_line :
      (Text → Result Text (TraceEvent N)) → EventReader → BoundedLine → Bool → Bool → Step N
  accept_line from_slice r line true closed =
      accept_event r (length line.bytes) (from_slice (strip_newline line.bytes))
  accept_line from_slice r line false true = err incomplete
  accept_line from_slice r line false false = ok (partial, r)

  unfoldable pub check_line :
      (Text → Result Text (TraceEvent N)) → EventReader → BoundedLine → Step N
  unfolding strip_newline
  check_line from_slice r line =
      if ltb max_event_scan_bytes r.scanned_bytes
      then err scan_budget_exceeded
      else accept_line from_slice r line line.terminated r.closed

  unfoldable pub next_line :
      (Text → Result Text (TraceEvent N)) → EventReader → Option BoundedLine → Step N
  next_line from_slice r none = ok (end, r)
  next_line from_slice r (some line) =
      check_line from_slice
        (record r { scanned_bytes = min (r.scanned_bytes + length line.bytes) u64_max }) line

  unfoldable pub next : (Text → Result Text (TraceEvent N)) → EventReader → Step N
  next from_slice r = do
    (line, rest) ← read_bounded_line max_event_line_bytes [] r.reader
    next_line from_slice (record r { reader = rest }) line

  unfoldable pub validate_summary_count : EventReader → RunSummary N → Result ReadError (Unit {0})
  validate_summary_count r s = fail_if (not (s.events_recorded == r.count)) wrong_count
