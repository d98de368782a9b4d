-- ===== src/Runs/Paging.antt =====
-- tactus-runtime/src/runs.rs: one bounded page of a run's events, after a cursor.
use agenstro.Common.{
  ℕ, suc, ◌+◌, ◌≤◌, ◌<◌, ◌≡◌, Bool, true, false, Result, ok, err, List, [], ◌∷◌, ◌++◌, map, leb,
  ltb, length, take, if◌then◌else◌, min,
}
use agenstro.Journal.Writer.{TraceEvent}
use agenstro.JournalReader.{ReadError, EventRead, event, end, partial, u64_max}
use agenstro.Runs.{RunsError, unreadable, event_too_large, is_empty_list}

pub record RunEventPage (N : Type 0) : Type 0 where
  pub events : List (TraceEvent N)
  pub next_after : ℕ
  pub complete : Bool

module _ {N : Type 0} where
  -- `events.last().map_or(after, |event| event.seq)`.
  unfoldable pub last_seq : ℕ → List (TraceEvent N) → ℕ
  last_seq after [] = after
  last_seq after (e ∷ es) = last_seq e.seq es

  abbrev page_of : ℕ → List (TraceEvent N) → Bool → RunEventPage N
  page_of after es complete = record {
    events = es;
    next_after = last_seq after es;
    complete = complete;
  }

  abbrev full_page : ℕ → List (TraceEvent N) → Result RunsError (RunEventPage N)
  full_page after es = if is_empty_list es then err event_too_large else ok (page_of after es false)

  unfoldable pub page_loop :
      ℕ
      → ℕ
      → ℕ
      → ℕ
      → List (TraceEvent N)
      → List (Result ReadError (EventRead N))
      → Result RunsError (RunEventPage N)
  page_loop after limit max_bytes retained es [] = ok (page_of after es true)
  page_loop after limit max_bytes retained es (err e ∷ rest) = err (unreadable e)
  page_loop after limit max_bytes retained es (ok end ∷ rest) = ok (page_of after es true)
  page_loop after limit max_bytes retained es (ok partial ∷ rest) = ok (page_of after es false)
  page_loop after limit max_bytes retained es (ok (event e n) ∷ rest) =
      let skip = page_loop after limit max_bytes retained es rest in
      let keep = page_loop after limit max_bytes (retained + n) (es ++ (e ∷ [])) rest in
      if leb e.seq after
      then skip
      else if leb limit (length es)
      then ok (page_of after es false)
      else if ltb max_bytes (min (retained + n) u64_max)
      then full_page after es
      else keep

  unfoldable pub read_event_page :
      ℕ → ℕ → ℕ → List (Result ReadError (EventRead N)) → Result RunsError (RunEventPage N)
  unfolding page_loop
  read_event_page after limit max_bytes reads = page_loop after limit max_bytes 0 [] reads

  -- What the reader returns for a stream of events with their sizes, at its end.
  abbrev pub reads_of : List (TraceEvent N × ℕ) → List (Result ReadError (EventRead N))
  reads_of [] = ok end ∷ []
  reads_of ((e, n) ∷ es) = ok (event e n) ∷ reads_of es

  abbrev pub AreFrom : ℕ → List (TraceEvent N × ℕ) → Type 0
  AreFrom n [] = Unit
  AreFrom n ((e, b) ∷ es) = (e.seq ≡ n) × AreFrom (suc n) es

  abbrev pub events_of : List (TraceEvent N × ℕ) → List (TraceEvent N)
  events_of = map (λ p. p.0)

  -- The page holds the next `k` of the events that are left, and the cursor moved past them.
  abbrev pub IsPage :
      ℕ
      → ℕ
      → List (TraceEvent N)
      → List (TraceEvent N × ℕ)
      → Result RunsError (RunEventPage N)
      → Type 0
  IsPage after limit es left (err e) = (e ≡ event_too_large) × (es ≡ [])
  IsPage after limit es left (ok page) =
      (k : ℕ) × (page.events ≡ es ++ take k (events_of left))
      × (page.next_after ≡ after + k)
      × (k ≤ length left)
      × (length es + k ≤ limit)
      × (page.complete ≡ true → k ≡ length left)
      × (0 < limit → 0 < length left → 0 < length es + k)
