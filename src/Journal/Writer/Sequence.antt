-- ===== src/Journal/Writer/Sequence.antt =====
-- The numbers of a journal's events, and what stands in a published summary, whatever calls were
-- made of the journal.
use agenstro.Common.{
  ℕ, suc, ◌+◌, ◌≡◌, refl, sym, ap, subst, ◌∙◌, inl, inr, Bool, true, false, Option, none, some,
  Result, ok, err, List, [], ◌∷◌, ◌++◌, arith, length, all, length-append, Option-cases,
  if◌then◌else◌, map_err, fail_if, ◌>>◌,
}
use agenstro.Common.Text.{Text}
use agenstro.Json.{Value}
use agenstro.Process.{ProcessOutcome}
use agenstro.Outcome.{Inconsistency, validate_outcome_consistency}
use agenstro.Journal.Redaction.{Encoder}
use agenstro.Journal.Summary.{RunSummary, trace_api, diagnostic_summary}
use agenstro.Journal.Summary.Fidelity.{diagnostic_summary_faithful}
use agenstro.Journal.Writer.{
  Presentation, TraceEvent, JournalError, already_finished, invalid_outcome, Append, appended,
  append_failed, RunJournal, create, record_with_presentation, record_transition, snapshot_summary,
  finish, finish_degraded, append, close, finish_with, admit, Answer,
}
use agenstro.Journal.Writer.Calls.{
  Call, log, transition, close_run, abandon, left_nothing, run_call, Refuses, run_calls, clean,
  AreNumbered, IsStream, IsSummary, IsWellFormed,
}

module _ {N : Type 0} where
  AreNumbered-append :
      (id : Text) (n : ℕ) (es : List (TraceEvent N)) (e : TraceEvent N)
      → AreNumbered id n es
      → e.api ≡ trace_api
      → e.run_id ≡ id
      → e.seq ≡ n + length es
      → AreNumbered id n (es ++ (e ∷ []))
  AreNumbered-append id n [] e w api run seq = (api, run, omega arith, tt)
  AreNumbered-append id n (x ∷ es) e w api run seq =
      (w.0, w.1, w.2, AreNumbered-append id (suc n) es e w.3 api run (omega arith))

  append-IsWellFormed :
      (j : RunJournal N) (e : TraceEvent N) (es : Option (List (TraceEvent N))) (a : Append)
      → left_nothing a ≡ true
      → j.published ≡ none
      → j.events ≡ es
      → IsStream j.run_id j.next_seq es
      → e.api ≡ trace_api
      → e.run_id ≡ j.run_id
      → e.seq ≡ j.next_seq
      → IsWellFormed (append j e es a).0
  append-IsWellFormed j e none a h unpublished same w api run seq = rw (unpublished, same) (tt, tt)
  append-IsWellFormed j e (some es) appended h unpublished same w api run seq = rw unpublished (
    (
      AreNumbered-append j.run_id 1 es e w.0 api run (omega (arith, seq, w.1)),
      omega (arith, w.1, length-append es (e ∷ [])),
    ),
    tt,
  )
  append-IsWellFormed j e (some es) (append_failed x true) h unpublished same w api run seq = cc
  append-IsWellFormed j e (some es) (append_failed x false) h unpublished same w api run seq =
      rw (unpublished, same) (w, tt)

  open_journal : (j : RunJournal N) → IsWellFormed j → j.finished ≡ false → j.published ≡ none
  open_journal j w unfinished = elim (Option-cases j.published) [
    | inl none_yet ↦ none_yet
    | inr (s, written) ↦ absurd (cc (sym unfinished ∙ (subst (IsSummary j) written w.1).0))
  ]

  guarded-IsWellFormed :
      (j : RunJournal N) (e : TraceEvent N) (a : Append) (b : Bool)
      → j.finished ≡ b
      → left_nothing a ≡ true
      → IsWellFormed j
      → e.api ≡ trace_api
      → e.run_id ≡ j.run_id
      → e.seq ≡ j.next_seq
      → IsWellFormed (if b then (j, err already_finished) else append j e j.events a).0
  guarded-IsWellFormed j e a true closed h w api run seq = w
  guarded-IsWellFormed j e a false unfinished h w api run seq =
      append-IsWellFormed j e j.events a h (open_journal j w unfinished) refl w.0 api run seq

  record-IsWellFormed :
      (c : Encoder N) (k : Text) (v : Value N) (p : Option Presentation) (now : ℕ) (a : Append)
      (j : RunJournal N)
      → left_nothing a ≡ true
      → IsWellFormed j
      → IsWellFormed (record_with_presentation c k v p now a j).0
  unfolding record_with_presentation
  record-IsWellFormed c k v p now a j h w =
      guarded-IsWellFormed j _ a j.finished refl h w refl refl refl

  snapshot_summary-IsSummary :
      (c : Encoder N) (o : ProcessOutcome N) (now : ℕ) (j : RunJournal N) (es : List (TraceEvent N))
      → j.events ≡ some es
      → j.next_seq ≡ suc (length es)
      → validate_outcome_consistency o ≡ ok tt
      → IsSummary
          (record j { finished = true })
          (some (diagnostic_summary c (snapshot_summary now o j)))
  unfolding diagnostic_summary snapshot_summary
  snapshot_summary-IsSummary c o now j es durable count fine = (
    refl,
    refl,
    refl,
    (diagnostic_summary_faithful c (snapshot_summary now o j)).1 ∙ fine,
    rw durable (omega (arith, count)),
  )

  close-IsWellFormed :
      (c : Encoder N) (o : ProcessOutcome N) (now : ℕ) (sync : Result JournalError (Unit {0}))
      (rename : Option JournalError) (es : Option (List (TraceEvent N))) (j : RunJournal N)
      → validate_outcome_consistency o ≡ ok tt
      → j.published ≡ none
      → j.events ≡ es
      → IsStream j.run_id j.next_seq es
      → IsWellFormed (close c (snapshot_summary now o j) sync rename es j).0
  close-IsWellFormed c o now sync rename none j fine unpublished same w =
      rw (unpublished, same) (tt, tt)
  close-IsWellFormed c o now (err e) rename (some es) j fine unpublished same w =
      rw (unpublished, same) (w, tt)
  close-IsWellFormed c o now (ok u) (some e) (some es) j fine unpublished same w =
      rw (unpublished, same) (w, tt)
  close-IsWellFormed c o now (ok u) none (some es) j fine unpublished same w = (
    subst (IsStream j.run_id j.next_seq) (sym same) w,
    snapshot_summary-IsSummary c o now j es same w.1 fine,
  )

  admit-eq-ok :
      (o : ProcessOutcome N) (j : RunJournal N) (u : Unit {0})
      → admit o j ≡ ok u
      → (j.finished ≡ false) × (validate_outcome_consistency o ≡ ok tt)
  admit-eq-ok o j u = admitted j.finished (validate_outcome_consistency o)
    where
      admitted :
          (b : Bool) (r : Result Inconsistency (Unit {0}))
          → (fail_if b already_finished >> map_err invalid_outcome r) ≡ ok u
          → (b ≡ false) × (r ≡ ok tt)
      admitted true r h = cc
      admitted false (err e) h = cc
      admitted false (ok v) h = (refl, refl)

  finish_with-IsWellFormed :
      (c : Encoder N) (o : ProcessOutcome N) (now : ℕ) (sync : Result JournalError (Unit {0}))
      (rename : Option JournalError) (j : RunJournal N) (r : Result JournalError (Unit {0}))
      → admit o j ≡ r
      → IsWellFormed j
      → IsWellFormed (finish_with c o now sync rename j r).0
  finish_with-IsWellFormed c o now sync rename j (err e) h w = w
  finish_with-IsWellFormed c o now sync rename j (ok u) h w =
      let admitted = admit-eq-ok o j u h in
      close-IsWellFormed c o now sync rename j.events j admitted.1 (open_journal j w admitted.0)
        refl w.0

  call-IsWellFormed :
      (c : Encoder N) (x : Call N) (j : RunJournal N)
      → clean x ≡ true
      → IsWellFormed j
      → IsWellFormed (run_call c x j)
  unfolding run_call record_transition finish finish_degraded
  call-IsWellFormed c (log k v p now a) j h w = record-IsWellFormed c k v p now a j h w
  call-IsWellFormed c (transition b t g s p now a) j h w = record-IsWellFormed c _ _ _ now a j h w
  call-IsWellFormed c (close_run o now sync rename) j h w =
      finish_with-IsWellFormed c o now sync rename j (admit o j) refl w
  call-IsWellFormed c (abandon o now rename) j h w =
      finish_with-IsWellFormed c o now (ok tt) rename j (admit o j) refl w

  calls-IsWellFormed :
      (c : Encoder N) (xs : List (Call N)) (j : RunJournal N)
      → all clean xs ≡ true
      → IsWellFormed j
      → IsWellFormed (run_calls c xs j)
  unfolding run_calls
  calls-IsWellFormed c [] j h w = w
  calls-IsWellFormed c (x ∷ xs) j h w =
      calls-IsWellFormed c xs (run_call c x j) (ground arith)
        (call-IsWellFormed c x j (ground arith) w)

  -- Whatever calls are made of a new journal, in any order and with any failures of the file system
  -- that leave no line of a refused event behind: the events of its stream carry its identifier and
  -- the numbers 1, 2, 3, …, and the next number follows. If a summary was published, the journal is
  -- finished, and the summary carries its identifier, an outcome that passes the check of
  -- consistency, and the number of the events.
  pub journal-IsWellFormed :
      (c : Encoder N) (id : Text) (now : ℕ) (xs : List (Call N))
      → all clean xs ≡ true
      → IsWellFormed (run_calls c xs (create id now))
  unfolding create
  journal-IsWellFormed c id now xs h = calls-IsWellFormed c xs (create id now) h ((tt, refl), tt)

  log_refused :
      (j : RunJournal N) (b : Bool) (q : Answer N ℕ)
      → b ≡ true
      → (if b then (j, err already_finished) else q) ≡ (j, err already_finished)
  log_refused j true q h = refl
  log_refused j false q h = cc

  finish_refused :
      (c : Encoder N) (o : ProcessOutcome N) (now : ℕ) (sync : Result JournalError (Unit {0}))
      (rename : Option JournalError) (j : RunJournal N) (b : Bool)
      (r : Result JournalError (Unit {0}))
      → b ≡ true
      → finish_with c o now sync rename j (fail_if b already_finished >> r)
        ≡ (j, err already_finished)
  finish_refused c o now sync rename j true r h = refl
  finish_refused c o now sync rename j false r h = cc

  -- A finished journal refuses every call.
  pub finished_unchanged :
      (c : Encoder N) (x : Call N) (j : RunJournal N)
      → j.finished ≡ true
      → (run_call c x j ≡ j) × Refuses c x j
  unfolding run_call Refuses record_transition record_with_presentation finish finish_degraded
  finished_unchanged c (log k v p now a) j h =
      let r = log_refused j j.finished _ h in (ap (λ q. q.0) r, ap (λ q. q.1) r)
  finished_unchanged c (transition b t g s p now a) j h =
      let r = log_refused j j.finished _ h in (ap (λ q. q.0) r, ap (λ q. q.1) r)
  finished_unchanged c (close_run o now sync rename) j h =
      let r = finish_refused c o now sync rename j j.finished _ h in
      (ap (λ q. q.0) r, ap (λ q. q.1) r)
  finished_unchanged c (abandon o now rename) j h =
      let r = finish_refused c o now (ok tt) rename j j.finished _ h in
      (ap (λ q. q.0) r, ap (λ q. q.1) r)

  calls_unchanged :
      (c : Encoder N) (ys : List (Call N)) (j : RunJournal N)
      → j.finished ≡ true
      → run_calls c ys j ≡ j
  unfolding run_calls
  calls_unchanged c [] j h = refl
  calls_unchanged c (y ∷ ys) j h =
      let same = (finished_unchanged c y j h).0 in
      ap (run_calls c ys) same ∙ calls_unchanged c ys j h

  -- A published summary is final: once the calls made of a new journal, with any failures of the
  -- file system that leave no line of a refused event behind, have published one, no further calls,
  -- whatever they are and however they fail, change the events, the numbers or the summary, and each
  -- is answered with `AlreadyFinished`.
  pub published_final :
      (c : Encoder N) (id : Text) (now : ℕ) (xs ys : List (Call N)) (y : Call N) (s : RunSummary N)
      → all clean xs ≡ true
      → (run_calls c xs (create id now)).published ≡ some s
      → (run_calls c ys (run_calls c xs (create id now)) ≡ run_calls c xs (create id now))
        × Refuses c y (run_calls c ys (run_calls c xs (create id now)))
  published_final c id now xs ys y s h p =
      let j = run_calls c xs (create id now) in
      let w = journal-IsWellFormed c id now xs h in
      let closed = (subst (IsSummary j) p w.1).0 in
      let same = calls_unchanged c ys j closed in
      (same, rw same (finished_unchanged c y j closed).1)
