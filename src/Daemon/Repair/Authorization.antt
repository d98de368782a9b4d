-- ===== src/Daemon/Repair/Authorization.antt =====
-- When the daemon may change an entry, and what it then writes.
use agenstro.Common.{
  ℕ, ◌≤◌, ◌<◌, ◌≡◌, refl, ap, ◌∙◌, Bool, true, false, ◌&&◌, ◌||◌, not, Option, none, some, Result,
  ok, err, >>=-eq-ok, fail_if-eq-ok, ◌++◌, arith, ltb, length, any, fail_if, if◌then◌else◌,
}
use agenstro.Common.Text.{Text, lit, text_eq, text_eq→eq}
use agenstro.Common.Search.{count_matches, replace_first, replace_first_lem}
use agenstro.Process.Command.{CommandOutcome, is_success}
use agenstro.Daemon.{EventLog, record_event, Decision}
use agenstro.Daemon.Repair.{
  Reading, bounded_source, max_source_bytes, Application, is_haskell, unfit_fragment, apply_repair,
  Review, Refusal, Daemon, is_ambiguous, blocked, Verdict, give_up, applied, proposed, decided,
  reviewed, unless_blocked, repair_after_failure,
}

-- The text that was reviewed, and the one that replaced it: they differ in one fragment.
abbrev pub IsReplacement : Text → Text → Type 0
IsReplacement original updated =
    (old : Text) × (new : Text) × (before : Text) × (after : Text) × (original
      ≡ before ++ (old ++ after))
    × (updated ≡ before ++ (new ++ after))
    × (count_matches old 0 original ≡ 1)
    × (length old ≤ 8192)
    × (length new ≤ 8192)

-- Nothing but a small replacement of the entry that was reviewed is written.
pub record IsApplied (x : Application) (script original updated : Text) : Type 0 where
  pub resolved : x.resolved ≡ ok script
  pub haskell : is_haskell x.extension ≡ true
  pub unchanged : x.reading.content ≡ ok original
  pub small : length updated ≤ max_source_bytes
  pub replaced : IsReplacement original updated

bounded_source-eq-ok : (r : Reading) (s : Text) → bounded_source r ≡ ok s → r.content ≡ ok s
unfolding bounded_source
bounded_source-eq-ok r s h =
    let (plain, e, rest) = >>=-eq-ok r.plain _ h in
    let (u, e', rest') = >>=-eq-ok (fail_if (not plain) _) _ rest in
    let (source, found, rest'') = >>=-eq-ok r.content _ rest' in
    let (u', e'', last) = >>=-eq-ok (fail_if (ltb max_source_bytes (length source)) _) _ rest'' in
    found ∙ last

unfit-IsReplacement :
    (original old new : Text)
    → unfit_fragment original old new ≡ false
    → IsReplacement original (replace_first old new original)
unfit-IsReplacement original old new h =
    let one : count_matches old 0 original ≡ 1 = ground arith in
    let (before, after, whole, replaced) =
      replace_first_lem old new original (λ z. absurd (omega arith)) in
    (old, new, before, after, whole, replaced, one, ground arith, ground arith)

apply_repair-IsApplied :
    (x : Application) (script original old new updated : Text)
    → apply_repair x script original old new ≡ ok updated
    → IsApplied x script original updated
unfolding apply_repair
apply_repair-IsApplied x script original old new updated h =
    let (resolved, found, h1) = >>=-eq-ok x.resolved _ h in
    let (u1, target, h2) =
      >>=-eq-ok (fail_if (not (text_eq resolved script) || not (is_haskell x.extension)) _) _ h1 in
    let (u2, fits, h3) = >>=-eq-ok (fail_if (unfit_fragment original old new) _) _ h2 in
    let (now, current, h4) = >>=-eq-ok (bounded_source x.reading) _ h3 in
    let (u3, same, h5) = >>=-eq-ok (fail_if (not (text_eq now original)) _) _ h4 in
    let (u4, small, h6) =
      >>=-eq-ok (fail_if (ltb max_source_bytes (length (replace_first old new original))) _) _ h5 in
    let (u5, done, h7) = >>=-eq-ok x.persisted _ h6 in
    let written : replace_first old new original ≡ updated = cc h7 in
    let chosen = fail_if-eq-ok _ _ u1 target in
    record {
      resolved = found ∙ ap ok (text_eq→eq resolved script (ground (arith, chosen)));
      haskell = ground (arith, chosen);
      unchanged =
          bounded_source-eq-ok x.reading now current
          ∙ ap ok (text_eq→eq now original (ground (arith, fail_if-eq-ok _ _ u3 same)));
      small = rw (← written) (ground (arith, fail_if-eq-ok _ _ u4 small));
      replaced = rw (← written) (unfit-IsReplacement original old new (fail_if-eq-ok _ _ u2 fits));
    }

-- The conditions of an automatic repair.
pub record IsAuthorized (d : Daemon) (script : Text) (status : CommandOutcome) (unknown : Bool)
    (attempt : ℕ) (r : Review) (log : EventLog) : Type 0 where
  pub known : is_ambiguous status unknown ≡ false
  pub failed : is_success status ≡ false
  pub running : r.cancelled ≡ false
  pub still_running : r.cancelled_after ≡ false
  pub quiet : log.escalated ≡ false
  pub reported : log.degraded ≡ false
  pub listed : any (λ s. text_eq s script) d.retry_scripts ≡ true
  pub within_budget : attempt < d.config.max_retries

module _ (r : Review) (script : Text) where
  -- The text that was written comes from the review of this source.
  abbrev WroteOnly : Text → Verdict → Type 0
  WroteOnly source v =
      (text : Text) → v.written ≡ some text → IsApplied r.application script source text

  applied-WroteOnly :
      (source old new : Text) (log : EventLog) (q : Result Text Text)
      → apply_repair r.application script source old new ≡ q
      → WroteOnly source (applied r log q)
  applied-WroteOnly source old new log (err e) h text w = cc
  applied-WroteOnly source old new log (ok updated) h text w =
      apply_repair-IsApplied r.application script source old new text (h ∙ cc)

  proposed-WroteOnly :
      (source old new : Text) (q : EventLog × Bool)
      → WroteOnly source (proposed r script source old new q)
  proposed-WroteOnly source old new (log, false) text w = cc
  proposed-WroteOnly source old new (log, true) text w =
      applied-WroteOnly source old new log (apply_repair r.application script source old new) refl
        text w

  decided-WroteOnly :
      (source : Text) (log : EventLog) (q : Result Text Decision)
      → WroteOnly source (decided r script source log q)
  decided-WroteOnly source log (err e) text w = cc
  decided-WroteOnly source log (ok (Decision.continue s)) text w = cc
  decided-WroteOnly source log (ok (Decision.escalate s)) text w = cc
  decided-WroteOnly source log (ok (Decision.repair s old new)) text w =
      proposed-WroteOnly source old new
        (record_event (lit "daemon.repair_proposed") r.proposed_write log) text w

  -- What a review that wrote something was.
  abbrev Reviewed : Text → Type 0
  Reviewed text =
      (r.cancelled_after ≡ false)
      × ((original : Text) × (bounded_source r.source ≡ ok original)
          × IsApplied r.application script original text)

  reviewed-Reviewed :
      (log : EventLog) (q : Result Text Text) (text : Text)
      → bounded_source r.source ≡ q
      → (reviewed r script log q).written ≡ some text
      → Reviewed text
  reviewed-Reviewed log (err e) text h w = cc
  reviewed-Reviewed log (ok source) text h w = by_token r.cancelled_after refl w
    where
      by_token :
          (b : Bool)
          → r.cancelled_after ≡ b
          → (if b
              then give_up r.escalated_write log
              else decided r script source log r.response).written
            ≡ some text
          → Reviewed text
      by_token true e w = cc
      by_token false e w = (e, (source, h, decided-WroteOnly source log r.response text w))

  unblocked-Reviewed :
      (log : EventLog) (q : Option Refusal) (text : Text)
      → (unless_blocked r script log q).written ≡ some text
      → (q ≡ none) × Reviewed text
  unblocked-Reviewed log (some why) text w = cc
  unblocked-Reviewed log none text w =
      (refl, reviewed-Reviewed log (bounded_source r.source) text refl w)

module _ (d : Daemon) (script : Text) (status : CommandOutcome) (unknown : Bool) (attempt : ℕ) where
  blocked-eq-none :
      (cancelled : Bool) (log : EventLog)
      → blocked d script status unknown attempt cancelled log ≡ none
      → (is_ambiguous status unknown ≡ false)
        × (cancelled ≡ false)
        × (log.escalated ≡ false)
        × (any (λ s. text_eq s script) d.retry_scripts ≡ true)
        × (attempt < d.config.max_retries)
        × (log.degraded ≡ false)
  unfolding blocked
  blocked-eq-none cancelled log h = ground arith

  failed_status :
      is_ambiguous status unknown ≡ false
      → (is_success status && not unknown) ≡ false
      → is_success status ≡ false
  failed_status h k = ground arith

  after_failure-IsAuthorized :
      (r : Review) (log : EventLog) (text : Text)
      → (is_success status && not unknown) ≡ false
      → (unless_blocked r script
          (record_event (lit "daemon.script_finished") r.finished_write log).0
          (blocked d script status unknown attempt r.cancelled
            (record_event (lit "daemon.script_finished") r.finished_write log).0)).written
        ≡ some text
      → IsAuthorized d script status unknown attempt r log
        × ((original : Text) × (r.source.content ≡ ok original)
            × IsApplied r.application script original text)
  unfolding record_event
  after_failure-IsAuthorized r log text failed h =
      let log' = (record_event (lit "daemon.script_finished") r.finished_write log).0 in
      let (free, (kept, (original, read, done))) = unblocked-Reviewed r script log' _ text h in
      let (known, running, quiet, listed, budget, reported) =
        blocked-eq-none r.cancelled log' free in
      (
        record {
          known = known;
          failed = failed_status known failed;
          running = running;
          still_running = kept;
          quiet = quiet;
          reported = ground arith;
          listed = listed;
          within_budget = budget;
        },
        (original, bounded_source-eq-ok r.source original read, done),
      )

  -- The daemon changes an entry only when its failure is known, the task is not cancelled, the entry
  -- is authorized, the budget is not used up, and nothing was escalated or lost from its log; it was
  -- not cancelled during the review either. What it writes is the text that was reviewed, which the
  -- entry still has, with one fragment of at most 8,192 bytes replaced.
  pub repair-IsAuthorized :
      (r : Review) (log : EventLog) (text : Text)
      → (repair_after_failure d script status unknown attempt r log).written ≡ some text
      → IsAuthorized d script status unknown attempt r log
        × ((original : Text) × (r.source.content ≡ ok original)
            × IsApplied r.application script original text)
  unfolding repair_after_failure
  repair-IsAuthorized r log text h = by_status (is_success status && not unknown) refl h
    where
      by_status :
          (b : Bool)
          → (is_success status && not unknown) ≡ b
          → (if b
              then record {
                log = (record_event (lit "daemon.script_finished") r.finished_write log).0;
                rerun = false;
                written = none;
              }
              else unless_blocked r script
                  (record_event (lit "daemon.script_finished") r.finished_write log).0
                  (blocked d script status unknown attempt r.cancelled
                    (record_event (lit "daemon.script_finished") r.finished_write log).0)).written
            ≡ some text
          → IsAuthorized d script status unknown attempt r log
            × ((original : Text) × (r.source.content ≡ ok original)
                × IsApplied r.application script original text)
      by_status true e w = cc
      by_status false e w = after_failure-IsAuthorized r log text e w
