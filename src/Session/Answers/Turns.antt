-- ===== src/Session/Answers/Turns.antt =====
-- What submissions to a session, one after another, do to its document.
use agenstro.Common.{
  ℕ, max, ◌≡◌, refl, sym, ap, subst, ◌∙◌, Bool, true, false, ◌&&◌, not, none, Result, ok, err,
  ◌>>=◌, ◌>>◌, >>=-eq-ok, fail_if-eq-ok, fail_if, ok_or, ok_or-eq-ok, leb, length, arith,
  if◌then◌else◌, ◌⊎◌, inl, inr, some, List, [], ◌∷◌, ◌++◌,
}
use agenstro.Common.Text.{Text, text_eq, text_eq→eq}
use agenstro.Session.{
  planning, is_awaiting, SessionBrief, AnsweredAxis, SessionView, SessionError, io, is_session_id,
  require_decimal,
}
use agenstro.Session.Validation.{validate_session}
use agenstro.Session.Transcript.{TranscriptCodec, append_transcript}
use agenstro.Session.Answers.{
  Submission, Store, Surroundings, check_submission, with_answer, project_answer, find_option,
  is_answered, answered_axis, Prepared, projects, prepare, settled, publish, recorded_answer,
  submit, answer, Replacement, not_replaced, unsynced, replaced, replace_session, retain_others,
}
use agenstro.Session.Answers.Recording.{
  others, offers, IsSame, retain_others-others, retain_others-again, find_option-offers,
  append_transcript-IsSame,
}

-- A document whose question was answered.
abbrev pub IsSettled : {N : Type 0} → Text → SessionView N → Type 0
IsSettled id s = (s.state ≡ planning) × (s.pending ≡ none) × (validate_session s id ≡ ok tt)

-- The document has the answer to the question that the old one asked, after the answers on the other
-- axes: the option that was submitted, with a label under which the question offers it.
abbrev pub IsAnsweredBy :
    {N : Type 0} → Submission → SessionView N → SessionView N → AnsweredAxis N → Type 0
IsAnsweredBy {N} x old s a =
    (s.answered ≡ others x.axis old.answered ++ (a ∷ []))
    × (a.axis ≡ x.axis)
    × (a.option ≡ x.option)
    × ((b : SessionBrief N) × (old.pending ≡ some b)
        × (b.question.axis ≡ x.axis)
        × (offers x.option a.label b.question.options ≡ true))

abbrev pub IsAnswered : {N : Type 0} → Submission → SessionView N → SessionView N → Type 0
IsAnswered {N} x old s = (a : AnsweredAxis N) × IsAnsweredBy x old s a

projected-with_answer :
    {N : Type 0} (to_text : ℕ → Text) (s : SessionView N) (a : AnsweredAxis N) (previous : ℕ)
    (s' : SessionView N)
    → project_answer to_text s a previous ≡ ok s'
    → s'.answered ≡ retain_others a.axis s.answered ++ (a ∷ [])
unfolding project_answer
projected-with_answer to_text s a previous s' h =
    let (at, e, h1) = >>=-eq-ok (require_decimal a.answered_at_unix_ms _) _ h in
    let done : with_answer to_text s a (max previous at) ≡ s' = cc h1 in
    sym (ap (λ z. z.answered) done)

-- The answer of the transcript takes the place of the one that was prepared.
answered_again :
    {N : Type 0} (axis : Text) (l answered : List (AnsweredAxis N)) (a b : AnsweredAxis N)
    → answered ≡ others axis l ++ (b ∷ [])
    → a.axis ≡ axis
    → b.axis ≡ axis
    → retain_others a.axis answered ++ (a ∷ []) ≡ others axis l ++ (a ∷ [])
answered_again axis l answered a b h ha hb =
    ap (λ z. z ++ (a ∷ []))
      (ap (λ k. retain_others k answered) ha
        ∙ ap (retain_others axis) h
        ∙ ap (λ q. retain_others axis (q ++ (b ∷ []))) (sym (retain_others-others axis l))
        ∙ retain_others-again axis l b hb
        ∙ retain_others-others axis l)

validated-IsSettled :
    {N : Type 0} (to_text : ℕ → Text) (id : Text) (s : SessionView N) (a : AnsweredAxis N)
    (previous : ℕ) (s' : SessionView N)
    → project_answer to_text s a previous ≡ ok s'
    → validate_session s' id ≡ ok tt
    → IsSettled id s'
unfolding project_answer
validated-IsSettled to_text id s a previous s' h v =
    let (at, e, h1) = >>=-eq-ok (require_decimal a.answered_at_unix_ms _) _ h in
    let done : with_answer to_text s a (max previous at) ≡ s' = cc h1 in
    (subst (λ z. z.state ≡ planning) done refl, subst (λ z. z.pending ≡ none) done refl, v)

module _ {N V : Type 0} (c : TranscriptCodec N V) (w : Surroundings N) (id : Text)
    (x : Submission) where
  -- What holds of the document and of what is prepared from it.
  abbrev pub IsCurrent : SessionView N → Type 0
  IsCurrent s = (s.turn ≡ x.turn) × (is_awaiting s.state ≡ true)

  abbrev pub IsPrepared : SessionView N → Prepared N → Type 0
  IsPrepared old p = IsSettled id p.projected × IsAnsweredBy x old p.projected p.answered

  projects-IsPrepared :
      (s : SessionView N) (pending : SessionBrief N) (label at : Text) (previous : ℕ)
      (p : Prepared N)
      → s.pending ≡ some pending
      → pending.question.axis ≡ x.axis
      → offers x.option label pending.question.options ≡ true
      → projects c w id x s pending (answered_axis x label at) previous ≡ ok p
      → IsPrepared s p
  projects-IsPrepared s pending label at previous p asked axis offered h =
      let a : AnsweredAxis N = answered_axis x label at in
      let (projected, e, h1) = >>=-eq-ok (project_answer w.to_text s a previous) _ h in
      let (u, v, h2) = >>=-eq-ok (validate_session projected id) _ h1 in
      let made : Prepared N = record {
        pending = pending;
        answered = a;
        previous = previous;
        projected = projected;
      } in
      let done : made ≡ p = cc h2 in
      subst (IsPrepared s) done (
        validated-IsSettled w.to_text id s a previous projected e v,
        (
          projected-with_answer w.to_text s a previous projected e
              ∙ ap (λ z. z ++ (a ∷ [])) (retain_others-others x.axis s.answered),
          refl,
          refl,
          (pending, asked, axis, offered),
        ),
      )

  prepare-IsPrepared :
      (s : SessionView N) (p : Prepared N)
      → prepare c w id x s ≡ ok p
      → IsCurrent s × IsPrepared s p
  unfolding prepare
  prepare-IsPrepared s p h =
      let (u1, turn, h1) = >>=-eq-ok (fail_if (not (text_eq s.turn x.turn)) _) _ h in
      let (u2, waits, h2) = >>=-eq-ok (fail_if (not (is_awaiting s.state)) _) _ h1 in
      let (pending, e3, h3) = >>=-eq-ok (ok_or s.pending _) _ h2 in
      let (u4, axis, h4) =
        >>=-eq-ok (fail_if (not (text_eq pending.question.axis x.axis)) _) _ h3 in
      let (selected, e5, h5) =
        >>=-eq-ok (ok_or (find_option x.option pending.question.options) _) _ h4 in
      let (u6, room, h6) =
        >>=-eq-ok (fail_if (not (is_answered x.axis s.answered) && leb 256 (length s.answered)) _) _
          h5 in
      let (previous, e7, h7) = >>=-eq-ok (require_decimal s.updated_unix_ms _) _ h6 in
      let (now, e8, h8) = >>=-eq-ok w.unix_ms _ h7 in
      (
        (
          text_eq→eq s.turn x.turn (ground (arith, fail_if-eq-ok _ _ u1 turn)),
          ground (arith, fail_if-eq-ok _ _ u2 waits),
        ),
        projects-IsPrepared s pending selected.label (w.to_text (max now previous)) previous p
            (ok_or-eq-ok s.pending _ pending e3)
            (text_eq→eq pending.question.axis x.axis (ground (arith, fail_if-eq-ok _ _ u4 axis)))
            (find_option-offers x.option pending.question.options selected
              (ok_or-eq-ok (find_option x.option pending.question.options) _ selected e5))
            h8,
      )

  -- The stored document of a successful submission.
  abbrev pub IsStored : SessionView N → SessionView N → Type 0
  IsStored old s = IsSettled id s × IsAnswered x old s × IsCurrent old

  settled-IsStored :
      (old : SessionView N) (p : Prepared N) (a : AnsweredAxis N) (s : SessionView N)
      → IsPrepared old p
      → IsCurrent old
      → IsSame a p.answered
      → settled c w id x p a ≡ ok s
      → IsStored old s
  settled-IsStored old p a s (valid, (holds, axis, option, (b, asked, on, offered))) current
        (same_axis, same_option, same_label) e =
      by_answer (w.same_answer a p.answered) e
    where
      again : Result SessionError (SessionView N)
      again =
          project_answer w.to_text p.projected a p.previous >>= λ z. (validate_session z id >> ok z)

      by_answer : (b : Bool) → (if b then ok p.projected else again) ≡ ok s → IsStored old s
      by_answer true e =
          let same : p.projected ≡ s = cc e in
          subst (IsStored old) same
            (valid, (p.answered, (holds, axis, option, (b, asked, on, offered))), current)
      by_answer false e =
          let (z, e1, h1) = >>=-eq-ok (project_answer w.to_text p.projected a p.previous) _ e in
          let (u, v, h2) = >>=-eq-ok (validate_session z id) _ h1 in
          let same : z ≡ s = cc h2 in
          subst (IsStored old) same (
            validated-IsSettled w.to_text id p.projected a p.previous z e1 v,
            (
              a,
              (
                projected-with_answer w.to_text p.projected a p.previous z e1
                    ∙ answered_again x.axis old.answered p.projected.answered a p.answered holds
                        (same_axis ∙ axis) axis,
                same_axis ∙ axis,
                same_option ∙ option,
                (b, asked, on, ap (λ l. offers x.option l b.question.options) same_label ∙ offered),
              ),
            ),
            current,
          )

  -- What a submission does: the document is left alone, or replaced by one with the answer; the latter
  -- also when the directory cannot be synced afterwards, which is reported as an error.
  abbrev pub Outcome : Store N → Store N × Result SessionError (SessionView N) → Type 0
  Outcome store (store', err e) =
      (store'.session ≡ store.session) ⊎ ((e ≡ io) × IsStored store.session store'.session)
  Outcome store (store', ok s) = (store'.session ≡ s) × IsStored store.session s

  replace_session-Outcome :
      (how : Replacement) (store : Store N) (transcript : Text) (s : SessionView N)
      → IsStored store.session s
      → Outcome store (replace_session c w id x how store transcript s)
  replace_session-Outcome (not_replaced e) store transcript s h = inl refl
  replace_session-Outcome unsynced store transcript s h = inr (refl, h)
  replace_session-Outcome replaced store transcript s h = (refl, h)

  publish-Outcome :
      (store : Store N) (transcript : Text) (q : Result SessionError (SessionView N))
      → ((s : SessionView N) → q ≡ ok s → IsStored store.session s)
      → Outcome store (publish c w id x store transcript q)
  publish-Outcome store transcript (err e) f = inl refl
  publish-Outcome store transcript (ok s) f =
      replace_session-Outcome w.replacement store transcript s (f s refl)

  recorded-Outcome :
      (store : Store N) (p : Prepared N) (q : Text × Result SessionError (AnsweredAxis N))
      → IsPrepared store.session p
      → IsCurrent store.session
      → ((a : AnsweredAxis N) → q.1 ≡ ok a → IsSame a p.answered)
      → Outcome store (recorded_answer c w id x store p q)
  recorded-Outcome store p (transcript, err e) h k f = inl refl
  recorded-Outcome store p (transcript, ok a) h k f =
      publish-Outcome store transcript (settled c w id x p a)
        (λ s e. settled-IsStored store.session p a s h k (f a refl) e)

  submit-Outcome :
      (store : Store N) (q : Result SessionError (Prepared N))
      → ((p : Prepared N) → q ≡ ok p → IsCurrent store.session × IsPrepared store.session p)
      → Outcome store (submit c w id x store q)
  submit-Outcome store (err e) f = inl refl
  submit-Outcome store (ok p) f =
      recorded-Outcome store p
        (append_transcript c w.fault p.pending p.answered x.note store.transcript) (f p refl).1
        (f p refl).0
        (λ a e. append_transcript-IsSame c w.fault p.pending p.answered a x.note store.transcript e)

  answer-Outcome : (store : Store N) → Outcome store (answer c w id x store)
  unfolding answer
  answer-Outcome store = submit-Outcome store _ (λ p e.
      let (u1, e1, h1) = >>=-eq-ok (check_submission x) _ e in
      let (u2, e2, h2) = >>=-eq-ok (fail_if (not (is_session_id id)) _) _ h1 in
      let (u3, e3, h3) = >>=-eq-ok (validate_session store.session id) _ h2 in
      prepare-IsPrepared store.session p h3)

module _ {N V : Type 0} (c : TranscriptCodec N V) (w w' : Surroundings N) (id : Text)
    (x x' : Submission) where
  after_settled :
      (store : Store N) (s : SessionView N) (q : Store N × Result SessionError (SessionView N))
      → store.session ≡ s
      → s.state ≡ planning
      → Outcome c w' id x' store q
      → q.0.session ≡ s
  after_settled store s (store', err e) same state (inl h) = h ∙ same
  after_settled store s (store', err e) same state (inr (u, (valid, done, (turn, waits)))) =
      cc (sym waits ∙ ap (λ z. is_awaiting z.state) same ∙ ap is_awaiting state)
  after_settled store s (store', ok s') same state (kept, (valid, done, (turn, waits))) =
      cc (sym waits ∙ ap (λ z. is_awaiting z.state) same ∙ ap is_awaiting state)

  -- The document after one more submission.
  abbrev pub later : Store N → SessionView N
  later store = (answer c w' id x' store).0.session

  -- What a submission does, and what a later one does after it.
  abbrev pub FinalOutcome : Store N → Store N × Result SessionError (SessionView N) → Type 0
  FinalOutcome store (store', err e) =
      (store'.session ≡ store.session)
      ⊎ ((e ≡ io)
          × IsStored c w id x store.session store'.session
          × (later store' ≡ store'.session))
  FinalOutcome store (store', ok s) =
      (store'.session ≡ s) × IsStored c w id x store.session s × (later store' ≡ s)

  FinalOutcome-Outcome :
      (store : Store N) (q : Store N × Result SessionError (SessionView N))
      → Outcome c w id x store q
      → FinalOutcome store q
  FinalOutcome-Outcome store (store', err e) (inl h) = inl h
  FinalOutcome-Outcome store (store', err e) (inr (u, stored)) = inr (
    u,
    stored,
    after_settled store' store'.session (answer c w' id x' store') refl stored.0.0
        (answer-Outcome c w' id x' store'),
  )
  FinalOutcome-Outcome store (store', ok s) (kept, stored) = (
    kept,
    stored,
    after_settled store' s (answer c w' id x' store') kept stored.0.0
        (answer-Outcome c w' id x' store'),
  )

  -- A submission that succeeds answers the pending question of the current turn: it stores a document
  -- that is checked, has no pending question, is back to planning, and whose answers are the old ones
  -- on other axes and then the submitted option, with a label under which the question offers it. One
  -- that fails leaves the document alone, unless the directory could not be synced after the document
  -- was replaced: then the error is `io` and the document is as after a success. FinalOutcome the document
  -- was replaced, reported or not, one further submission, for this or another turn, in whatever
  -- surroundings, leaves it alone.
  pub answer-once : (store : Store N) → FinalOutcome store (answer c w id x store)
  answer-once store =
      FinalOutcome-Outcome store (answer c w id x store) (answer-Outcome c w id x store)
