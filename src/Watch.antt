-- ===== src/Watch.antt =====
-- tactus-runtime/src/watch.rs: the buffer of live events that the viewer pages through. A `seq` is
-- the number whose decimal text the source keeps.
pub mod Buffer
pub mod Pages
mod Examples
use agenstro.Common.{
  ℕ, suc, ◌+◌, ◌-◌, min, Bool, true, false, ◌&&◌, ◌||◌, not, Option, none, some, is_some,
  is_some_and, is_none_or, List, [], ◌∷◌, ◌++◌, ltb, leb, ◌==◌, length, all, if◌then◌else◌,
}
use agenstro.Common.Text.{Text, lit, text_eq, is_empty, one_of}
use agenstro.JournalReader.{u64_max}

abbrev pub max_buffer_bytes : ℕ
max_buffer_bytes = 4194304

abbrev pub max_buffer_events : ℕ
max_buffer_events = 4096

abbrev pub max_page_events : ℕ
max_page_events = 256

pub record Packet : Type 0 where
  pub token : Text
  pub run_id : Text
  pub parent_run_id : Option Text
  pub provider : Text
  pub source_seq : ℕ
  pub kind : Text
  pub text : Text
  pub truncated : Bool

pub record LiveEvent : Type 0 where
  pub seq : ℕ
  pub at_unix_ms : ℕ
  pub run_id : Text
  pub parent_run_id : Option Text
  pub provider : Text
  pub kind : Text
  pub text : Text
  pub truncated : Bool
  pub missed_packets : ℕ

-- The map of sources is its members in the order of their keys.
pub record LiveBuffer : Type 0 where
  pub events : List LiveEvent
  pub bytes : ℕ
  pub sequence : ℕ
  pub sources : List (Text × ℕ)

abbrev pub new_buffer : LiveBuffer
new_buffer = record { events = []; bytes = 0; sequence = 0; sources = [] }

abbrev text_ltb : Text → Text → Bool
text_ltb s [] = false
text_ltb [] (b ∷ t) = true
text_ltb (a ∷ s) (b ∷ t) = ltb a b || (a == b && text_ltb s t)

-- `sources.get(id).copied().unwrap_or(0)`.
unfoldable pub last_source : Text → List (Text × ℕ) → ℕ
last_source id [] = 0
last_source id ((k, n) ∷ rest) = let more = last_source id rest in if text_eq k id then n else more

abbrev has_source : Text → List (Text × ℕ) → Bool
has_source id [] = false
has_source id ((k, n) ∷ rest) = text_eq k id || has_source id rest

-- `BTreeMap::insert` and `pop_first`.
abbrev insert_source : Text → ℕ → List (Text × ℕ) → List (Text × ℕ)
insert_source id n [] = (id, n) ∷ []
insert_source id n ((k, m) ∷ rest) =
    let more = insert_source id n rest in
    if text_eq k id
    then (id, n) ∷ rest
    else if text_ltb id k
    then (id, n) ∷ (k, m) ∷ rest
    else (k, m) ∷ more

abbrev pop_first : List (Text × ℕ) → List (Text × ℕ)
pop_first [] = []
pop_first (x ∷ rest) = rest

unfoldable pub note_source : Text → ℕ → List (Text × ℕ) → List (Text × ℕ)
note_source id n sources = insert_source id n (
    if leb max_buffer_events (length sources) && not (has_source id sources)
    then pop_first sources
    else sources)

-- The loop that drops the oldest events. On an empty queue with too many bytes the source would not
-- end; there are none then.
unfoldable pub trim : List LiveEvent → ℕ → List LiveEvent × ℕ
trim [] bytes = ([], bytes)
trim (e ∷ es) bytes =
    let rest = trim es (bytes - length e.text) in
    if ltb max_buffer_events (suc (length es)) || ltb max_buffer_bytes bytes
    then rest
    else (e ∷ es, bytes)

abbrev pub live_event : LiveBuffer → Packet → ℕ → LiveEvent
live_event b p now = record {
  seq = min (b.sequence + 1) u64_max;
  at_unix_ms = now;
  run_id = p.run_id;
  parent_run_id = p.parent_run_id;
  provider = p.provider;
  kind = p.kind;
  text = p.text;
  truncated = p.truncated;
  missed_packets = p.source_seq - last_source p.run_id b.sources - 1;
}

abbrev pub append_packet : LiveBuffer → Packet → ℕ → LiveBuffer
append_packet b p now =
    let kept = trim (b.events ++ (live_event b p now ∷ [])) (b.bytes + length p.text) in
    record {
      events = kept.0;
      bytes = kept.1;
      sequence = min (b.sequence + 1) u64_max;
      sources = note_source p.run_id p.source_seq b.sources;
    }

unfoldable pub push : Packet → ℕ → LiveBuffer → LiveBuffer
push p now b =
    if leb p.source_seq (last_source p.run_id b.sources) then b else append_packet b p now

unfoldable pub push_all : List (Packet × ℕ) → LiveBuffer → LiveBuffer
push_all [] b = b
push_all ((p, now) ∷ rest) b = push_all rest (push p now b)

unfoldable pub matches : Option Text → LiveEvent → Bool
matches run e =
    is_none_or (λ r. text_eq e.run_id r || is_some_and (λ q. text_eq q r) e.parent_run_id) run

-- `n` events are on the page, and `next` is the cursor.
unfoldable pub page_events : ℕ → Option Text → ℕ → ℕ → List LiveEvent → List LiveEvent × ℕ
page_events after run n next [] = ([], next)
page_events after run n next (e ∷ es) =
    let skip = page_events after run n next es in
    let pass = page_events after run n e.seq es in
    let more = page_events after run (suc n) e.seq es in
    if leb e.seq after
    then skip
    else if matches run e
    then (if suc n == max_page_events then (e ∷ [], e.seq) else (e ∷ more.0, more.1))
    else pass

abbrev oldest : List LiveEvent → Option ℕ
oldest [] = none
oldest (e ∷ es) = some e.seq

pub record Page : Type 0 where
  pub events : List LiveEvent
  pub next_after : ℕ
  pub history_lost : Bool
  pub latest : ℕ

unfoldable pub page : ℕ → Option Text → LiveBuffer → Page
page after run b =
    let found = page_events after run 0 after b.events in
    record {
      events = found.0;
      next_after = found.1;
      history_lost = is_some_and (λ first. ltb (min (after + 1) u64_max) first) (oldest b.events);
      latest = b.sequence;
    }

unfoldable pub valid_id : Text → Bool
valid_id s =
    not (is_empty s)
    && leb (length s) 160
    && all
        (λ b.
          (leb 48 b && leb b 57)
          || (leb 65 b && leb b 90)
          || (leb 97 b && leb b 122)
          || b == 45
          || b == 95)
        s

unfoldable pub valid_token : Text → Bool
valid_token s = leb 32 (length s) && valid_id s

unfoldable pub valid_packet : Packet → Bool
valid_packet p =
    valid_id p.run_id
    && is_none_or valid_id p.parent_run_id
    && valid_id p.provider
    && leb (length p.text) 4096
    && ltb 0 p.source_seq
    && one_of
        (lit "started"
          ∷ lit "text.delta"
          ∷ lit "text.message"
          ∷ lit "text.final"
          ∷ lit "finished"
          ∷ [])
        p.kind
