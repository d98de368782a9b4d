-- ===== src/Watch/Buffer.antt =====
-- The bounds of the live buffer, and the numbers of its events.
use agenstro.Common.{
  ℕ, suc, ◌+◌, ◌-◌, ◌≤◌, ◌≡◌, refl, inl, inr, Bool, true, false, ◌||◌, List, [], ◌∷◌, ◌++◌, arith,
  ltb, leb, min, length, length-append, Bool-cases, if◌then◌else◌,
}
use agenstro.JournalReader.{u64_max}
use agenstro.Watch.{
  Packet, LiveEvent, LiveBuffer, new_buffer, last_source, trim, live_event, append_packet, push,
  push_all, max_buffer_bytes, max_buffer_events,
}

abbrev pub total : List LiveEvent → ℕ
total [] = 0
total (e ∷ es) = length e.text + total es

abbrev pub AreFrom : ℕ → List LiveEvent → Type 0
AreFrom n [] = Unit
AreFrom n (e ∷ es) = (e.seq ≡ n) × AreFrom (suc n) es

-- The events are numbered without a gap up to the last number given.
abbrev pub IsNumbered : ℕ → List LiveEvent → Type 0
IsNumbered last es = (first : ℕ) × AreFrom first es × (first + length es ≡ suc last)

abbrev pub IsBounded : List LiveEvent → ℕ → Type 0
IsBounded es bytes =
    (bytes ≡ total es) × (length es ≤ max_buffer_events) × (bytes ≤ max_buffer_bytes)

abbrev pub IsWellFormed : LiveBuffer → Type 0
IsWellFormed b = IsBounded b.events b.bytes × IsNumbered b.sequence b.events

total-append :
    (es : List LiveEvent) (e : LiveEvent) → total (es ++ (e ∷ [])) ≡ total es + length e.text
total-append [] e = omega arith
total-append (x ∷ es) e = omega (arith, total-append es e)

AreFrom-append :
    (n : ℕ) (es : List LiveEvent) (e : LiveEvent)
    → AreFrom n es
    → e.seq ≡ n + length es
    → AreFrom n (es ++ (e ∷ []))
AreFrom-append n [] e w h = (omega (arith, h), tt)
AreFrom-append n (x ∷ es) e w h = (w.0, AreFrom-append (suc n) es e w.1 (omega (arith, h)))

trim-IsBounded :
    (es : List LiveEvent) (bytes : ℕ)
    → bytes ≡ total es
    → IsBounded (trim es bytes).0 (trim es bytes).1
unfolding trim
trim-IsBounded [] bytes h = (h, omega arith, omega (arith, h))
trim-IsBounded (e ∷ es) bytes h =
    elim (Bool-cases (ltb max_buffer_events (suc (length es)) || ltb max_buffer_bytes bytes)) [
      | inl full ↦ rw full (trim-IsBounded es (bytes - length e.text) (omega (arith, h)))
      | inr fits ↦ rw fits (h, ground arith, ground arith)
    ]

trim-IsNumbered :
    (last : ℕ) (es : List LiveEvent) (bytes : ℕ)
    → IsNumbered last es
    → IsNumbered last (trim es bytes).0
unfolding trim
trim-IsNumbered last [] bytes w = w
trim-IsNumbered last (e ∷ es) bytes w =
    elim (Bool-cases (ltb max_buffer_events (suc (length es)) || ltb max_buffer_bytes bytes)) [
      | inl full ↦
          rw full
            (trim-IsNumbered last es (bytes - length e.text) (suc w.0, w.1.1, omega (arith, w.2)))
      | inr fits ↦ rw fits w
    ]

append-IsWellFormed :
    (b : LiveBuffer) (p : Packet) (now : ℕ)
    → IsWellFormed b
    → suc b.sequence ≤ u64_max
    → IsWellFormed (append_packet b p now)
append-IsWellFormed b p now w small =
    let e = live_event b p now in
    let next : e.seq ≡ suc b.sequence = omega (arith, small) in
    let (first, numbered, up_to) = w.1 in
    (
      trim-IsBounded (b.events ++ (e ∷ [])) (b.bytes + length p.text)
          (omega (arith, w.0.0, total-append b.events e)),
      trim-IsNumbered (min (b.sequence + 1) u64_max) (b.events ++ (e ∷ []))
          (b.bytes + length p.text)
          (
            first,
            AreFrom-append first b.events e numbered (omega (arith, next, up_to)),
            omega (arith, next, up_to, length-append b.events (e ∷ [])),
          ),
    )

push-IsWellFormed :
    (p : Packet) (now : ℕ) (b : LiveBuffer)
    → IsWellFormed b
    → suc b.sequence ≤ u64_max
    → IsWellFormed (push p now b) × ((push p now b).sequence ≤ suc b.sequence)
unfolding push
push-IsWellFormed p now b w small = by_guard (leb p.source_seq (last_source p.run_id b.sources))
  where
    by_guard :
        (g : Bool)
        → IsWellFormed (if g then b else append_packet b p now)
          × ((if g then b else append_packet b p now).sequence ≤ suc b.sequence)
    by_guard true = (w, omega arith)
    by_guard false = (append-IsWellFormed b p now w small, omega arith)

pushes-IsWellFormed :
    (ps : List (Packet × ℕ)) (b : LiveBuffer)
    → IsWellFormed b
    → b.sequence + length ps ≤ u64_max
    → IsWellFormed (push_all ps b)
unfolding push_all
pushes-IsWellFormed [] b w small = w
pushes-IsWellFormed ((p, now) ∷ ps) b w small =
    let one = push-IsWellFormed p now b w (omega (arith, small)) in
    pushes-IsWellFormed ps (push p now b) one.0 (omega (arith, small, one.1))

-- Whatever packets arrive, fewer than 2^64: the buffer never holds more than 4,096 events or 4 MiB of
-- text, its byte count is exact, so that the loop that drops old events ends, and its events are
-- numbered without a gap up to the last number given.
pub push_all-IsWellFormed :
    (ps : List (Packet × ℕ)) → length ps ≤ u64_max → IsWellFormed (push_all ps new_buffer)
push_all-IsWellFormed ps small =
    pushes-IsWellFormed ps new_buffer ((refl, omega arith, omega arith), (1, tt, refl))
      (omega (arith, small))
