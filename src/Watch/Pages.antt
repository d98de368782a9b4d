-- ===== src/Watch/Pages.antt =====
-- The pages of the live buffer of tactus-runtime/src/watch.rs, for a viewer that follows their cursor.
use agenstro.Common.{
  ℕ, suc, ◌+◌, ◌≤◌, ◌<◌, ◌≡◌, refl, sym, ap, subst, max, Bool, true, false, ◌&&◌, Option, List, [],
  ◌∷◌, ◌⊎◌, inl, inr, ◌∙◌, arith, ltb, leb, ◌==◌, length, if◌then◌else◌,
}
use agenstro.Common.Text.{Text}
use agenstro.Watch.{LiveEvent, LiveBuffer, matches, page_events, page, max_page_events}
use agenstro.Watch.Buffer.{AreFrom, IsWellFormed}

-- The events of the run whose numbers are above `low` and at most `high`.
unfoldable pub between : ℕ → ℕ → Option Text → List LiveEvent → List LiveEvent
between low high run [] = []
between low high run (e ∷ es) =
    let rest = between low high run es in
    if ltb low e.seq && leb e.seq high && matches run e then e ∷ rest else rest

between-none :
    (low high : ℕ) (run : Option Text) (n : ℕ) (es : List LiveEvent)
    → AreFrom n es
    → high < n
    → between low high run es ≡ []
unfolding between
between-none low high run n [] w h = refl
between-none low high run n (e ∷ es) w h =
    rw (above, between-none low high run (suc n) es w.1 (omega (arith, h))) refl
  where
    above : (ltb low e.seq && leb e.seq high && matches run e) ≡ false
    above = ground (arith, w.0, h)

-- No event has a number above the cursor.
unfoldable pub reaches : ℕ → List LiveEvent → Bool
reaches cursor [] = true
reaches cursor (e ∷ es) = leb e.seq cursor && reaches cursor es

-- The part of a page that begins when `n` events are on it and the cursor is `next`.
abbrev IsPart : ℕ → Option Text → ℕ → ℕ → List LiveEvent → List LiveEvent × ℕ → Type 0
IsPart after run n next es (found, cursor) =
    (found ≡ between after cursor run es)
    × (next ≤ cursor)
    × (n + length found ≤ max_page_events)
    × ((n + length found ≡ max_page_events) ⊎ (reaches cursor es ≡ true))

count_as : {P : Type 0} (k m : ℕ) → m ≡ k → (k ≡ max_page_events) ⊎ P → (m ≡ max_page_events) ⊎ P
count_as k m h (inl full) = inl (h ∙ full)
count_as k m h (inr p) = inr p

reached :
    (cursor : ℕ) (e : LiveEvent) (es : List LiveEvent) (k : ℕ)
    → e.seq ≤ cursor
    → (k ≡ max_page_events) ⊎ (reaches cursor es ≡ true)
    → (k ≡ max_page_events) ⊎ (reaches cursor (e ∷ es) ≡ true)
unfolding reaches
reached cursor e es k h (inl full) = inl full
reached cursor e es k h (inr rest) = inr (ground (arith, h, rest))

module _ (after : ℕ) (run : Option Text) where
  skipped-IsPart :
      (n next : ℕ) (e : LiveEvent) (es : List LiveEvent) (r : List LiveEvent × ℕ)
      → leb e.seq after ≡ true
      → after ≤ next
      → IsPart after run n next es r
      → IsPart after run n next (e ∷ es) r
  unfolding between
  skipped-IsPart n next e es (found, cursor) h past w =
      (rw outside w.0, w.1, w.2, reached cursor e es (n + length found) (ground (arith, w.1)) w.3)
    where
      outside : (ltb after e.seq && leb e.seq cursor && matches run e) ≡ false
      outside = ground arith

  passed-IsPart :
      (n next : ℕ) (e : LiveEvent) (es : List LiveEvent) (r : List LiveEvent × ℕ)
      → matches run e ≡ false
      → next ≤ e.seq
      → IsPart after run n e.seq es r
      → IsPart after run n next (e ∷ es) r
  unfolding between
  passed-IsPart n next e es (found, cursor) h past w = (
    rw outside w.0,
    omega (arith, past, w.1),
    w.2,
    reached cursor e es (n + length found) (ground (arith, w.1)) w.3,
  )
    where
      outside : (ltb after e.seq && leb e.seq cursor && matches run e) ≡ false
      outside = ground arith

  kept-IsPart :
      (n next : ℕ) (e : LiveEvent) (es : List LiveEvent) (r : List LiveEvent × ℕ)
      → leb e.seq after ≡ false
      → matches run e ≡ true
      → next ≤ e.seq
      → IsPart after run (suc n) e.seq es r
      → IsPart after run n next (e ∷ es) (e ∷ r.0, r.1)
  unfolding between
  kept-IsPart n next e es (found, cursor) h m past w = (
    rw inside (ap (λ l. e ∷ l) w.0),
    omega (arith, past, w.1),
    omega (arith, w.2),
    count_as (suc n + length found) (n + suc (length found)) (omega arith)
        (reached cursor e es (suc n + length found) (ground (arith, w.1)) w.3),
  )
    where
      inside : (ltb after e.seq && leb e.seq cursor && matches run e) ≡ true
      inside = ground (arith, w.1)

  last-IsPart :
      (n next : ℕ) (e : LiveEvent) (es : List LiveEvent)
      → leb e.seq after ≡ false
      → matches run e ≡ true
      → next ≤ e.seq
      → AreFrom (suc e.seq) es
      → suc n ≤ max_page_events
      → (suc n == max_page_events) ≡ true
      → IsPart after run n next (e ∷ es) (e ∷ [], e.seq)
  unfolding between
  last-IsPart n next e es h m past w room full = (
    rw (inside, between-none after e.seq run (suc e.seq) es w (omega arith)) refl,
    past,
    omega (arith, room),
    inl (ground arith),
  )
    where
      inside : (ltb after e.seq && leb e.seq e.seq && matches run e) ≡ true
      inside = ground arith

  chosen-IsPart :
      (e : LiveEvent) (es : List LiveEvent) (n next : ℕ) (skip pass more : List LiveEvent × ℕ)
      (g m l : Bool)
      → leb e.seq after ≡ g
      → matches run e ≡ m
      → (suc n == max_page_events) ≡ l
      → AreFrom (suc e.seq) es
      → next ≤ max after e.seq
      → suc n ≤ max_page_events
      → after ≤ next
      → IsPart after run n next es skip
      → (leb e.seq after ≡ false → IsPart after run n e.seq es pass)
      → (leb e.seq after ≡ false → suc n < max_page_events → IsPart after run (suc n) e.seq es more)
      → IsPart after run n next (e ∷ es) (
          if g
          then skip
          else if m
          then (if l then (e ∷ [], e.seq) else (e ∷ more.0, more.1))
          else pass)
  chosen-IsPart e es n next skip pass more true m l old matched full w cursor room begun a b c =
      skipped-IsPart n next e es skip old begun a
  chosen-IsPart e es n next skip pass more false false l old matched full w cursor room begun a b
        c =
      passed-IsPart n next e es pass matched (ground (arith, cursor)) (b old)
  chosen-IsPart e es n next skip pass more false true true old matched full w cursor room begun a b
        c =
      last-IsPart n next e es old matched (ground (arith, cursor)) w room full
  chosen-IsPart e es n next skip pass more false true false old matched full w cursor room begun a b
        c =
      kept-IsPart n next e es more old matched (ground (arith, cursor)) (c old (ground arith))

  page_events-IsPart :
      (es : List LiveEvent) (n next first : ℕ)
      → AreFrom first es
      → next ≤ max after first
      → n < max_page_events
      → after ≤ next
      → IsPart after run n next es (page_events after run n next es)
  unfolding page_events between reaches
  page_events-IsPart [] n next first w cursor room begun =
      (refl, omega arith, omega (arith, room), inr refl)
  page_events-IsPart (e ∷ es) n next first w cursor room begun =
      chosen-IsPart e es n next _ _ _ _ _ _ refl refl refl
        (subst (λ k. AreFrom (suc k) es) (sym w.0) w.1) (omega (arith, w.0, cursor))
        (omega (arith, room)) begun
        (page_events-IsPart es n next (suc first) w.1 (omega (arith, cursor)) room begun)
        (λ g.
          page_events-IsPart es n e.seq (suc first) w.1 (omega (arith, w.0)) room
            (ground (arith, g)))
        (λ g r.
          page_events-IsPart es (suc n) e.seq (suc first) w.1 (omega (arith, w.0)) r
            (ground (arith, g)))

-- In a well-formed buffer, a page holds every event of the run, and no other, whose number is above
-- the cursor and at most `nextAfter`; the cursor never goes back; a page has at most 256 events; and
-- a page with fewer has led the cursor to the end of the buffer, past the events of other runs too.
-- So a viewer that follows the cursor misses no event that the buffer still holds.
pub page-between :
    (b : LiveBuffer) (after : ℕ) (run : Option Text)
    → IsWellFormed b
    → ((page after run b).events ≡ between after (page after run b).next_after run b.events)
      × (after ≤ (page after run b).next_after)
      × (length (page after run b).events ≤ max_page_events)
      × ((length (page after run b).events ≡ max_page_events)
          ⊎ (reaches (page after run b).next_after b.events ≡ true))
unfolding page
page-between b after run w =
    let (first, numbered, up_to) = w.1 in
    let (whole, forward, bounded, end) =
      page_events-IsPart after run b.events 0 after first numbered (omega arith) (omega arith)
        (omega arith) in
    (
      whole,
      forward,
      omega (arith, bounded),
      count_as (0 + length (page after run b).events) (length (page after run b).events)
          (omega arith) end,
    )
