-- ===== src/JournalReader/OneEvent.antt =====
-- The reader gives back one event that the journal wrote.
use agenstro.Common.{
  ℕ, ◌+◌, ◌≤◌, ◌≡◌, refl, sym, ap, ap₂, ◌∙◌, true, false, ◌||◌, not, Option, none, some, Result, ok,
  err, ◌>>=◌, List, [], ◌∷◌, ◌++◌, map, arith, ltb, ◌==◌, length, take, drop, min, length-append,
  append_assoc,
}
use agenstro.Common.Text.{Text, text_eq, text_eq_refl}
use agenstro.Journal.Summary.{trace_api}
use agenstro.Journal.Writer.{TraceEvent}
use agenstro.JournalReader.{
  ReadError, BoundedLine, Source, newline, line_length, event, EventReader, strip_last,
  strip_newline, read_bounded_line, accept_event, check_line, next_line, next, max_event_line_bytes,
  max_event_scan_bytes, u64_max,
}
use agenstro.JournalReader.Lines.{
  join, filled, has_newline, line_length-none, IsLineOf, take_past, drop_past, has_newline-append,
}

-- `serde_json` for an event.
pub record Codec (N : Type 0) : Type 0 where
  pub encode : TraceEvent N → Text
  pub from_slice : Text → Result Text (TraceEvent N)

strip_last-append : (s : Text) → strip_last newline (s ++ (newline ∷ [])) ≡ s
unfolding strip_last
strip_last-append [] = refl
strip_last-append (b ∷ []) = refl
strip_last-append (b ∷ c ∷ s) = rw (strip_last-append (c ∷ s)) refl

not_less : {a b : ℕ} → a ≤ b → ltb b a ≡ false
not_less h = ground arith

module _ {N : Type 0} (c : Codec N) where
  -- What is written for the event is one line, which does not end in a carriage return, and it is
  -- read back as the event.
  abbrev pub IsCoded : TraceEvent N → Type 0
  IsCoded e =
      (has_newline (c.encode e) ≡ false)
      × (strip_last 13 (c.encode e) ≡ c.encode e)
      × (c.from_slice (c.encode e) ≡ ok e)

  -- The bytes of `events.jsonl`.
  abbrev pub file_of : List (TraceEvent N) → Text
  file_of [] = []
  file_of (e ∷ es) = (c.encode e ++ (newline ∷ [])) ++ file_of es

  strip_newline-encode :
      (e : TraceEvent N) → IsCoded e → strip_newline (c.encode e ++ (newline ∷ [])) ≡ c.encode e
  unfolding strip_newline
  strip_newline-encode e k = rw (strip_last-append (c.encode e)) (k.1)

  accept_event-next :
      (r : EventReader) (n : ℕ) (e : TraceEvent N)
      → e.api ≡ trace_api
      → e.run_id ≡ r.run_id
      → e.seq ≡ r.count + 1
      → accept_event r n (ok e) ≡ ok (event e n, record r { count = r.count + 1 })
  accept_event-next r n e api run seq = rw same refl
    where
      api' : text_eq e.api trace_api ≡ true
      api' = ap (λ s. text_eq s trace_api) api ∙ text_eq_refl trace_api

      run' : text_eq e.run_id r.run_id ≡ true
      run' = ap (λ s. text_eq s r.run_id) run ∙ text_eq_refl r.run_id

      same :
          (not (text_eq e.api trace_api)
            || not (text_eq e.run_id r.run_id)
            || not (e.seq == r.count + 1))
          ≡ false
      same = rw (api', run') (ground (arith, seq))

  -- The reader after one event.
  abbrev pub after : EventReader → Source → TraceEvent N → EventReader
  after r rest e = record {
    reader = rest;
    run_id = r.run_id;
    closed = r.closed;
    count = r.count + 1;
    scanned_bytes = min (r.scanned_bytes + length (c.encode e ++ (newline ∷ []))) u64_max;
  }

  check-encoded :
      (r : EventReader) (e : TraceEvent N) (n : ℕ)
      → IsCoded e
      → e.api ≡ trace_api
      → e.run_id ≡ r.run_id
      → e.seq ≡ r.count + 1
      → r.scanned_bytes ≤ max_event_scan_bytes
      → check_line c.from_slice r
          (record { bytes = c.encode e ++ (newline ∷ []); terminated = true })
        ≡ ok (event e (length (c.encode e ++ (newline ∷ []))), record r { count = r.count + 1 })
  unfolding check_line
  check-encoded r e n k api run seq few =
      rw (not_less few, strip_newline-encode e k, k.2) (accept_event-next r _ e api run seq)

  line_of_file :
      (e : TraceEvent N) (rest : Text)
      → IsCoded e
      → line_length ((c.encode e ++ (newline ∷ [])) ++ rest) ≡ length (c.encode e) + 1
  unfolding line_length
  line_of_file e rest k =
      rw (append_assoc (c.encode e) (newline ∷ []) rest)
        ((line_length-none (c.encode e) (newline ∷ rest) (k.0)).0)

  take_line :
      (e : TraceEvent N) (rest : Text)
      → take (length (c.encode e) + 1) ((c.encode e ++ (newline ∷ [])) ++ rest)
        ≡ c.encode e ++ (newline ∷ [])
  take_line e rest =
      rw (append_assoc (c.encode e) (newline ∷ []) rest) (take_past (c.encode e) (newline ∷ rest) 1)

  drop_line :
      (e : TraceEvent N) (rest : Text)
      → drop (length (c.encode e) + 1) ((c.encode e ++ (newline ∷ [])) ++ rest) ≡ rest
  drop_line e rest =
      rw (append_assoc (c.encode e) (newline ∷ []) rest) (drop_past (c.encode e) (newline ∷ rest) 1)

  newline_of_file :
      (e : TraceEvent N) (rest : Text)
      → IsCoded e
      → has_newline ((c.encode e ++ (newline ∷ [])) ++ rest) ≡ true
  newline_of_file e rest k =
      rw
        (
          append_assoc (c.encode e) (newline ∷ []) rest,
          has_newline-append (c.encode e) (newline ∷ rest),
          k.0,
        )
        refl

  next_line-encoded :
      (r : EventReader) (src : Source) (line : BoundedLine) (e : TraceEvent N)
      → line.bytes ≡ c.encode e ++ (newline ∷ [])
      → line.terminated ≡ true
      → IsCoded e
      → e.api ≡ trace_api
      → e.run_id ≡ r.run_id
      → e.seq ≡ r.count + 1
      → r.scanned_bytes + length (c.encode e ++ (newline ∷ [])) ≤ max_event_scan_bytes
      → next_line c.from_slice (record r { reader = src }) (some line)
        ≡ ok (event e (length (c.encode e ++ (newline ∷ []))), after r src e)
  unfolding next_line
  next_line-encoded r src line e bytes whole k api run seq few =
      ap (λ l. next_line c.from_slice (record r { reader = src }) (some l)) same
      ∙ check-encoded _ e 0 k api run seq (omega (arith, few))
    where
      same : line ≡ record { bytes = c.encode e ++ (newline ∷ []); terminated = true }
      same = ap₂ (λ b t. record { bytes = b; terminated = t }) bytes whole

  -- The next call returns the event, and leaves what follows it.
  abbrev pub Continues : EventReader → TraceEvent N → Text → Type 0
  Continues r e rest =
      (ds : List Text) × (filled ds ≡ true)
      × (join ds ≡ rest)
      × (next c.from_slice r
          ≡ ok (event e (length (c.encode e ++ (newline ∷ []))), after r (map ok ds) e))

  pub read-Continues :
      (r : EventReader) (e : TraceEvent N) (rest bytes : Text)
      (q : Result ReadError (Option BoundedLine × Source))
      → bytes ≡ (c.encode e ++ (newline ∷ [])) ++ rest
      → length (c.encode e) + 1 ≤ max_event_line_bytes
      → IsCoded e
      → e.api ≡ trace_api
      → e.run_id ≡ r.run_id
      → e.seq ≡ r.count + 1
      → r.scanned_bytes + length (c.encode e ++ (newline ∷ [])) ≤ max_event_scan_bytes
      → read_bounded_line max_event_line_bytes [] r.reader ≡ q
      → IsLineOf max_event_line_bytes [] bytes q
      → Continues r e rest
  unfolding next
  read-Continues r e rest bytes (err x) here short k api run seq few read w =
      absurd (omega (arith, w.1, ap line_length here ∙ line_of_file e rest k, short))
  read-Continues r e rest bytes (ok (none, src)) here short k api run seq few read w = absurd (
      omega (
        arith,
        sym (ap length (sym here ∙ w)),
        length-append (c.encode e ++ (newline ∷ [])) rest,
        length-append (c.encode e) (newline ∷ []),
      ))
  read-Continues r e rest bytes (ok (some line, src)) here short k api run seq few read w =
      let (text, whole, fits, (ds, left, full, following)) = w in
      let size : line_length bytes ≡ length (c.encode e) + 1 =
        ap line_length here ∙ line_of_file e rest k in
      (
        ds,
        full,
        following ∙ ap₂ drop size here ∙ drop_line e rest,
        ap (λ x. x >>= λ p. next_line c.from_slice (record r { reader = p.1 }) p.0) read
            ∙ next_line-encoded r src line e (text ∙ ap₂ take size here ∙ take_line e rest)
                (whole ∙ ap has_newline here ∙ newline_of_file e rest k) k api run seq few
            ∙ ap (λ x. ok (event e (length (c.encode e ++ (newline ∷ []))), after r x e)) left,
      )
