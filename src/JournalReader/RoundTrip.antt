-- ===== src/JournalReader/RoundTrip.antt =====
-- The reader gives back what the journal wrote.
use agenstro.Common.{
  ℕ, suc, ◌+◌, ◌≤◌, ◌≡◌, refl, ap, subst, ◌∙◌, Bool, true, some, ok, List, [], ◌∷◌, ◌++◌, map,
  arith, leb, all, length, length-append, leb→le,
}
use agenstro.Common.Text.{Text}
use agenstro.Journal.Redaction.{Encoder}
use agenstro.Journal.Summary.{RunSummary}
use agenstro.Journal.Writer.{TraceEvent, create}
use agenstro.Journal.Writer.Calls.{AreNumbered, IsStream, IsSummary, Call, clean, run_calls}
use agenstro.Journal.Writer.Sequence.{journal-IsWellFormed}
use agenstro.JournalReader.{
  newline, event, end, EventReader, read_bounded_line, next_line, next, validate_summary_count,
  open_reader, max_event_line_bytes, max_event_scan_bytes,
}
use agenstro.JournalReader.Lines.{join, filled, read_bounded_line-IsLineOf}
use agenstro.JournalReader.OneEvent.{Codec, file_of, IsCoded, after, read-Continues}

module _ {N : Type 0} (c : Codec N) where
  -- The reader returns these events one after the other, then the end, and its count is the
  -- summary's.
  abbrev pub ReadsBack : List (TraceEvent N) → EventReader → RunSummary N → Type 0
  ReadsBack [] r s = (next c.from_slice r ≡ ok (end, r)) × (validate_summary_count r s ≡ ok tt)
  ReadsBack (e ∷ es) r s =
      (r' : EventReader) × (n : ℕ) × (next c.from_slice r ≡ ok (event e n, r')) × ReadsBack es r' s

  abbrev pub short : TraceEvent N → Bool
  short e = leb (length (c.encode e) + 1) max_event_line_bytes

  abbrev pub AreCoded : List (TraceEvent N) → Type 0
  AreCoded [] = Unit
  AreCoded (e ∷ es) = IsCoded c e × AreCoded es

  next-end : (r : EventReader) → r.reader ≡ [] → next c.from_slice r ≡ ok (end, r)
  unfolding next next_line read_bounded_line
  next-end r e = rw e refl

  nothing_left : (ds : List Text) → filled ds ≡ true → join ds ≡ [] → ds ≡ []
  nothing_left [] full none_left = refl
  nothing_left ([] ∷ ds) full none_left = cc
  nothing_left ((b ∷ d) ∷ ds) full none_left = cc

  stream-ReadsBack :
      (es : List (TraceEvent N)) (r : EventReader) (s : RunSummary N) (cs : List Text)
      → r.reader ≡ map ok cs
      → filled cs ≡ true
      → join cs ≡ file_of c es
      → AreNumbered r.run_id (suc r.count) es
      → AreCoded es
      → all short es ≡ true
      → r.scanned_bytes + length (file_of c es) ≤ max_event_scan_bytes
      → s.events_recorded ≡ r.count + length es
      → ReadsBack es r s
  unfolding validate_summary_count
  stream-ReadsBack [] r s cs here full all_of w coded small few count =
      (next-end r (here ∙ ap (map ok) (nothing_left cs full all_of)), ground (arith, count))
  stream-ReadsBack (e ∷ es) r s cs here full all_of w coded small few count =
      let total = length-append (c.encode e ++ (newline ∷ [])) (file_of c es) in
      let (ds, full', rest, read) =
        read-Continues c r e (file_of c es) (join cs) _ all_of
          (ground (arith, leb→le (length (c.encode e) + 1) max_event_line_bytes)) coded.0 w.0 w.1
          (omega (arith, w.2)) (omega (arith, few, total))
          (ap (read_bounded_line max_event_line_bytes []) here)
          (read_bounded_line-IsLineOf max_event_line_bytes cs full) in
      (
        after c r (map ok ds) e,
        _,
        read,
        stream-ReadsBack es (after c r (map ok ds) e) s ds refl full' rest
            (subst (λ n. AreNumbered r.run_id n es) (omega arith) w.3) coded.1 (ground arith)
            (omega (arith, few, total)) (omega (arith, count)),
      )

  -- What a run wrote is read back, when a summary of it was published and no refused event left its
  -- line behind: opened as a closed stream, `events.jsonl` gives the events of the journal in their
  -- order, however it is cut into buffers, then its end, and the reader's count is the one of the
  -- summary. Each line, and the whole, is within the limits of the reader; an event is written as
  -- one line that does not end in a carriage return, and decodes to itself.
  pub journal-ReadsBack :
      (encoder : Encoder N) (id : Text) (now : ℕ) (xs : List (Call N)) (es : List (TraceEvent N))
      (s : RunSummary N) (cs : List Text)
      → all clean xs ≡ true
      → (run_calls encoder xs (create id now)).events ≡ some es
      → (run_calls encoder xs (create id now)).published ≡ some s
      → filled cs ≡ true
      → join cs ≡ file_of c es
      → AreCoded es
      → all short es ≡ true
      → length (file_of c es) ≤ max_event_scan_bytes
      → ReadsBack es (open_reader (map ok cs) (run_calls encoder xs (create id now)).run_id true) s
  unfolding open_reader
  journal-ReadsBack encoder id now xs es s cs h stream published full all_of coded small few =
      let j = run_calls encoder xs (create id now) in
      let w = journal-IsWellFormed encoder id now xs h in
      let numbered = subst (IsStream j.run_id j.next_seq) stream w.0 in
      let counted = subst (IsSummary j) published w.1 in
      stream-ReadsBack es _ s cs refl full all_of numbered.0 coded small (omega (arith, few))
        (omega (arith, numbered.1, counted.4))
