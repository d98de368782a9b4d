-- ===== src/Runs/Maintenance/Safety.antt =====
-- Which runs a confirmed `archive` or `gc` may touch.
use agenstro.Common.{
  ℕ, ◌+◌, ◌≡◌, ◌≢◌, refl, sym, ap, ◌∙◌, inl, inr, Bool, true, false, ◌&&◌, ◌||◌, not, Option, none,
  some, is_some, is_none_or, Result, ok, err, List, [], ◌∷◌, arith, ltb, Bool-cases, if◌then◌else◌,
}
use agenstro.Common.Text.{Text, lit}
use agenstro.Journal.Summary.{RunSummary}
use agenstro.Outcome.{OutcomeState, succeeded, failed, outcome_unknown, classify_outcome}
use agenstro.JournalReader.{ReadError, EventRead, event, end, partial}
use agenstro.Runs.{
  RunRecord, RunsError, EventFacts, scan, scan_events, event_is_outcome_unknown, finish_scan,
  observe_event, is_unknown_state, unresolved, project, projected, inspect_run, reasons,
  is_empty_list, partly, intact,
}
use agenstro.Runs.Maintenance.{
  Operation, MaintenanceAction, eligible_for_maintenance, maintenance_plan, Finding, Sweep,
  sweep_run, sweep_inspected, sweep_one, sweep_planned, maintain, protects, MaintenanceReport,
  destination_taken, is_intact,
}

known_state : (c : OutcomeState) → is_unknown_state c ≡ false → c ≢ outcome_unknown
known_state succeeded h e = cc
known_state failed h e = cc
known_state outcome_unknown h e = cc

unknown-parts : (a b : Bool) → (a || b) ≡ false → (a ≡ false) × (b ≡ false)
unknown-parts a b h = ground arith

open_ineligible :
    (N : Type 0) (id : Text) (started : ℕ) (g : EventFacts) (before : Option ℕ)
    → eligible_for_maintenance (project {N = N} id started none g) before ≡ false
unfolding eligible_for_maintenance project
open_ineligible N id started g before = refl

module _ {N : Type 0} where
  -- The whole stream was read, no event leaves the outcome open, and the summary's count is right.
  abbrev pub IsComplete : ℕ → RunSummary N → List (Result ReadError (EventRead N)) → Type 0
  IsComplete n s [] = s.events_recorded ≡ n
  IsComplete n s (ok end ∷ rest) = s.events_recorded ≡ n
  IsComplete n s (ok (event e b) ∷ rest) =
      (event_is_outcome_unknown e ≡ false) × IsComplete (n + 1) s rest
  IsComplete n s (ok partial ∷ rest) = true ≡ false
  IsComplete n s (err e ∷ rest) = true ≡ false

  finish_scan-eq-ok :
      (f g : EventFacts) (s : RunSummary N)
      → finish_scan f (some s) ≡ ok g
      → g.outcome_unknown ≡ false
      → (f.outcome_unknown ≡ false) × (s.events_recorded ≡ f.count)
  finish_scan-eq-ok f g s h known = ground arith

  scan-IsComplete :
      (reads : List (Result ReadError (EventRead N))) (f g : EventFacts) (s : RunSummary N)
      → scan f (some s) reads ≡ ok g
      → g.complete ≡ true
      → g.outcome_unknown ≡ false
      → (f.outcome_unknown ≡ false) × IsComplete f.count s reads
  unfolding scan
  scan-IsComplete [] f g s h whole known = finish_scan-eq-ok f g s h known
  scan-IsComplete (ok end ∷ rest) f g s h whole known = finish_scan-eq-ok f g s h known
  scan-IsComplete (ok partial ∷ rest) f g s h whole known = absurd (ground arith)
  scan-IsComplete (err ReadError.scan_budget_exceeded ∷ rest) f g s h whole known =
      absurd (ground arith)
  scan-IsComplete (err _ ∷ rest) f g s h whole known = cc
  scan-IsComplete (ok (event e b) ∷ rest) f g s h whole known =
      let w = scan-IsComplete rest (observe_event e f) g s h whole known in
      (ground arith, (ground arith, w.1))

  -- A summary whose outcome is known, older than the cut-off, with its complete stream of events.
  abbrev pub IsSettled : Option ℕ → Finding N → Type 0
  IsSettled before f =
      (s : RunSummary N) × (f.summary ≡ ok (some s))
      × (classify_outcome s.outcome ≢ outcome_unknown)
      × (is_none_or (λ b. ltb s.finished_unix_ms b) before ≡ true)
      × IsComplete 0 s f.reads
      × (f.safe ≡ true)

  eligible-settled :
      (id : Text) (started : ℕ) (s : RunSummary N) (g : EventFacts) (before : Option ℕ)
      → eligible_for_maintenance (project id started (some s) g) before ≡ true
      → (g.complete ≡ true)
        × (unresolved s g ≡ false)
        × (is_none_or (λ b. ltb s.finished_unix_ms b) before ≡ true)
  unfolding eligible_for_maintenance project
  eligible-settled id started s g before h = by_facts g.complete (unresolved s g) h
    where
      by_facts :
          (complete unknown : Bool)
          → (is_intact (if complete then intact else partly)
              && not (not (is_empty_list (reasons unknown complete)))
              && true
              && is_none_or (λ b. ltb s.finished_unix_ms b) before)
            ≡ true
          → (complete ≡ true)
            × (unknown ≡ false)
            × (is_none_or (λ b. ltb s.finished_unix_ms b) before ≡ true)
      by_facts true true h = cc
      by_facts true false h = (refl, refl, h)
      by_facts false unknown h = cc

  summary-IsSettled :
      (id : Text) (f : Finding N) (before : Option ℕ) (s : RunSummary N) (g : EventFacts)
      → f.summary ≡ ok (some s)
      → f.safe ≡ true
      → scan_events (some s) f.reads ≡ ok g
      → eligible_for_maintenance (project id f.started (some s) g) before ≡ true
      → IsSettled before f
  unfolding scan_events
  summary-IsSettled id f before s g found safe scanned fit =
      let (whole, known, old) = eligible-settled id f.started s g before fit in
      let (kind, events) =
        unknown-parts (is_unknown_state (classify_outcome s.outcome)) g.outcome_unknown known in
      (
        s,
        found,
        known_state (classify_outcome s.outcome) kind,
        old,
        (scan-IsComplete f.reads _ g s scanned whole events).1,
        safe,
      )

  scanned-IsSettled :
      (id : Text) (f : Finding N) (before : Option ℕ) (r : RunRecord) (s : Option (RunSummary N))
      (q : Result RunsError EventFacts)
      → f.summary ≡ ok s
      → f.safe ≡ true
      → scan_events s f.reads ≡ q
      → projected id f.started s q ≡ ok r
      → eligible_for_maintenance r before ≡ true
      → IsSettled before f
  scanned-IsSettled id f before r s (err e) found safe scanned h fit = cc
  scanned-IsSettled id f before r none (ok g) found safe scanned h fit =
      let same : project {N = N} id f.started none g ≡ r = cc in
      absurd (
        cc (
          sym (open_ineligible N id f.started g before)
          ∙ ap (λ x. eligible_for_maintenance x before) same
          ∙ fit))
  scanned-IsSettled id f before r (some s) (ok g) found safe scanned h fit =
      let same : project id f.started (some s) g ≡ r = cc in
      summary-IsSettled id f before s g found safe scanned
        (ap (λ x. eligible_for_maintenance x before) same ∙ fit)

  inspected-IsSettled :
      (id : Text) (f : Finding N) (before : Option ℕ) (r : RunRecord)
      (q : Result RunsError (Option (RunSummary N)))
      → f.summary ≡ q
      → f.safe ≡ true
      → inspect_run id f.started q f.reads ≡ ok r
      → eligible_for_maintenance r before ≡ true
      → IsSettled before f
  unfolding inspect_run
  inspected-IsSettled id f before r (err e) found safe h fit = cc
  inspected-IsSettled id f before r (ok s) found safe h fit =
      scanned-IsSettled id f before r s (scan_events s f.reads) found safe refl h fit

  -- Each run that was to be moved or deleted is settled, as it was found when its turn came.
  abbrev pub AreSettled : Option ℕ → (Text → Finding N) → List Text → Type 0
  AreSettled before find [] = Unit
  AreSettled before find (id ∷ ids) = IsSettled before (find id) × AreSettled before find ids

  sweep_run-AreSettled :
      (op : Operation) (before : Option ℕ) (find : Text → Finding N) (id : Text)
      (x : Result Text (Unit {0})) (d : Sweep)
      → IsSettled before (find id)
      → AreSettled before find d.swept
      → AreSettled before find (sweep_run op id x d).swept
  sweep_run-AreSettled op before find id (ok u) d settled w = (settled, w)
  sweep_run-AreSettled op before find id (err e) d settled w = (settled, w)

  inspected-AreSettled :
      (op : Operation) (before : Option ℕ) (find : Text → Finding N) (id : Text) (r : RunRecord)
      (d : Sweep) (fit safe : Bool)
      → (eligible_for_maintenance r before ≡ true
          → (find id).safe ≡ true
          → IsSettled before (find id))
      → eligible_for_maintenance r before ≡ fit
      → (find id).safe ≡ safe
      → AreSettled before find d.swept
      → AreSettled before find (sweep_inspected op before id (find id) (ok r) d).swept
  inspected-AreSettled op before find id r d true true settled e f w =
      rw (e, f) (by_destination (destination_taken op (find id).destination_exists))
    where
      by_destination :
          (b : Bool)
          → AreSettled before find
              (if b
                then record d { report = protects id (lit "archive_destination_exists") d.report }
                else sweep_run op id (find id).moved d).swept
      by_destination true = w
      by_destination false =
          sweep_run-AreSettled op before find id (find id).moved d (settled e f) w
  inspected-AreSettled op before find id r d true false settled e f w = rw (e, f) w
  inspected-AreSettled op before find id r d false safe settled e f w = rw e w

  one-AreSettled :
      (op : Operation) (before : Option ℕ) (find : Text → Finding N) (id : Text) (d : Sweep)
      (q : Result RunsError RunRecord)
      → inspect_run id (find id).started (find id).summary (find id).reads ≡ q
      → AreSettled before find d.swept
      → AreSettled before find (sweep_inspected op before id (find id) q d).swept
  one-AreSettled op before find id d (err e) h w = w
  one-AreSettled op before find id d (ok r) h w =
      inspected-AreSettled op before find id r d _ _
        (λ fit safe. inspected-IsSettled id (find id) before r (find id).summary refl safe h fit)
        refl refl w

  planned-AreSettled :
      (op : Operation) (before : Option ℕ) (find : Text → Finding N) (as' : List MaintenanceAction)
      (d : Sweep)
      → AreSettled before find d.swept
      → AreSettled before find (sweep_planned op before find as' d).swept
  unfolding sweep_planned sweep_one
  planned-AreSettled op before find [] d w = w
  planned-AreSettled op before find (a ∷ rest) d w = elim (Bool-cases (is_some d.failed)) [
    | inl stopped ↦ rw stopped w
    | inr going ↦ rw going (
        planned-AreSettled op before find rest _
          (one-AreSettled op before find a.run_id d _ refl w))
  ]

  maintain_confirmed :
      (op : Operation) (before : Option ℕ) (plan : MaintenanceReport) (find : Text → Finding N)
      (e : Bool)
      → AreSettled before find
          (if false || e
            then record { report = plan; failed = none; swept = [] }
            else sweep_planned op before find plan.actions
                (record { report = record plan { actions = [] }; failed = none; swept = [] })).swept
  maintain_confirmed op before plan find true = tt
  maintain_confirmed op before plan find false = planned-AreSettled op before find plan.actions _ tt

  -- Whatever runs were scanned and whatever changed since: each run that `archive` moves or `gc`
  -- deletes, wholly or in part, has, when its turn comes, a published summary with a known outcome
  -- that finished before the cut-off, a stream of events that was read to its end, has the summary's
  -- number of events and none that leaves the outcome open, and a directory that the last check
  -- accepts; and without a confirmation no run is moved or deleted.
  pub maintain-AreSettled :
      (op : Operation) (confirmed : Bool) (before : Option ℕ) (scanned : List (RunRecord × Bool))
      (find : Text → Finding N)
      → AreSettled before find (maintain op confirmed before scanned find).swept
        × (confirmed ≡ false → (maintain op confirmed before scanned find).swept ≡ [])
  unfolding maintain
  maintain-AreSettled op false before scanned find = (tt, λ h. refl)
  maintain-AreSettled op true before scanned find =
      (maintain_confirmed op before (maintenance_plan op true before scanned) find _, λ h. cc)
