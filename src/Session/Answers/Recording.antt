-- ===== src/Session/Answers/Recording.antt =====
-- What tactus-runtime/src/session.rs records of an answer: the option that was submitted, in the place
-- of an earlier answer on the same axis.
use agenstro.Common.{
  ℕ, ◌≡◌, refl, sym, ap, ◌∙◌, inl, inr, Bool, true, not, Option, none, some, Result, ok, err, List,
  [], ◌∷◌, ◌++◌, any, ◌&&◌, >>=-eq-ok, fail_if-eq-ok, fail_if, ltb, length, suc, arith, Bool-cases,
  if◌then◌else◌, map_err,
}
use agenstro.Common.Text.{Text, text_eq, text_eq→eq, text_eq_refl}
use agenstro.Session.{
  SessionOption, SessionBrief, AnsweredAxis, SessionError, invalid_argument, require_decimal,
}
use agenstro.Session.Transcript.{
  TranscriptCodec, TranscriptRecord, append_transcript, append_after, append_record, reuse,
  stored_answer, differs, record_of, repair_and_read_last_transcript_line, is_id,
}
use agenstro.Session.Answers.{retain_others, find_option}

module _ {N : Type 0} where
  -- The answers on another axis, in their order.
  abbrev pub others : Text → List (AnsweredAxis N) → List (AnsweredAxis N)
  others axis [] = []
  others axis (a ∷ more) =
      if not (text_eq a.axis axis) then a ∷ others axis more else others axis more

  -- Two answers on the same axis with the same option.
  abbrev pub IsSame : AnsweredAxis N → AnsweredAxis N → Type 0
  IsSame a b = (a.axis ≡ b.axis) × (a.option ≡ b.option) × (a.label ≡ b.label)

  pub retain_others-others :
      (axis : Text) (l : List (AnsweredAxis N)) → retain_others axis l ≡ others axis l
  retain_others-others axis [] = refl
  retain_others-others axis (a ∷ more) = grind (arith, retain_others-others axis more)

  -- A second answer on the axis takes the place of the first.
  pub retain_others-again :
      (axis : Text) (l : List (AnsweredAxis N)) (a : AnsweredAxis N)
      → a.axis ≡ axis
      → retain_others axis (retain_others axis l ++ (a ∷ [])) ≡ retain_others axis l
  retain_others-again axis [] a h = rw (ap (λ z. text_eq z axis) h ∙ text_eq_refl axis) refl
  retain_others-again axis (b ∷ more) a h = elim (Bool-cases (text_eq b.axis axis)) [
    | inl same ↦ simp same (retain_others-again axis more a h)
    | inr other ↦ simp (other) (ap (λ z. b ∷ z) (retain_others-again axis more a h))
  ]

  -- Some option of the list has the identifier and the label.
  abbrev pub offers : Text → Text → List (SessionOption N) → Bool
  offers id label = any (λ o. text_eq o.id id && text_eq o.label label)

  pub find_option-offers :
      (id : Text) (os : List (SessionOption N)) (o : SessionOption N)
      → find_option id os ≡ some o
      → offers id o.label os ≡ true
  find_option-offers id [] o h = cc
  find_option-offers id (p ∷ os) o h = elim (Bool-cases (text_eq p.id id)) [
    | inl found ↦
        let same : some p ≡ some o = sym (rw found refl) ∙ h in grind (arith, text_eq_refl o.label)
    | inr other ↦ grind (arith, find_option-offers id os o)
  ]

module _ {N V : Type 0} (c : TranscriptCodec N V) where
  stored_answer-IsSame :
      (r : TranscriptRecord N) (v : V) (a : AnsweredAxis N)
      → stored_answer c r v ≡ ok a
      → IsSame a r.answer
  stored_answer-IsSame r v a h =
      let (stored, e1, h1) = >>=-eq-ok (map_err _ (c.from_value v)) _ h in
      let (u, e2, h2) = >>=-eq-ok (fail_if (differs c stored r) invalid_argument) _ h1 in
      let (at, e3, h3) = >>=-eq-ok (require_decimal stored.answer.answered_at_unix_ms _) _ h2 in
      let same : stored.answer ≡ a = cc h3 in
      let alike = fail_if-eq-ok _ _ u e2 in
      (
        sym (ap (λ z. z.axis) same) ∙ text_eq→eq stored.answer.axis r.answer.axis (ground arith),
        sym (ap (λ z. z.option) same)
            ∙ text_eq→eq stored.answer.option r.answer.option (ground arith),
        sym (ap (λ z. z.label) same) ∙ text_eq→eq stored.answer.label r.answer.label (ground arith),
      )

  append_record-IsSame :
      (fault : Option ℕ) (r : TranscriptRecord N) (file : Text) (a : AnsweredAxis N)
      → (append_record c fault r file).1 ≡ ok a
      → IsSame a r.answer
  append_record-IsSame none r file a h =
      let same : r.answer ≡ a = cc h in
      (sym (ap (λ z. z.axis) same), sym (ap (λ z. z.option) same), sym (ap (λ z. z.label) same))
  append_record-IsSame (some n) r file a h = cc h

  reuse-IsSame :
      (fault : Option ℕ) (r : TranscriptRecord N) (file : Text) (q : Result Text V)
      (a : AnsweredAxis N)
      → (reuse c fault r file q).1 ≡ ok a
      → IsSame a r.answer
  reuse-IsSame fault r file (err e) a h = cc h
  reuse-IsSame fault r file (ok v) a h = elim (Bool-cases (is_id r.answer_id (c.answer_id v))) [
    | inl there ↦ stored_answer-IsSame r v a (rw there at h)
    | inr new ↦ append_record-IsSame fault r file a (rw new at h)
  ]

  append_after-IsSame :
      (fault : Option ℕ) (r : TranscriptRecord N) (q : Text × Result SessionError (Option Text))
      (a : AnsweredAxis N)
      → (append_after c fault r q).1 ≡ ok a
      → IsSame a r.answer
  append_after-IsSame fault r (file, err e) a h = cc h
  append_after-IsSame fault r (file, ok none) a h = append_record-IsSame fault r file a h
  append_after-IsSame fault r (file, ok (some line)) a h =
      reuse-IsSame fault r file (c.decode_json line) a h

  -- The answer of the transcript is the one that was given, but perhaps for its time.
  pub append_transcript-IsSame :
      (fault : Option ℕ) (brief : SessionBrief N) (answer a : AnsweredAxis N) (note : Option Text)
      (file : Text)
      → (append_transcript c fault brief answer note file).1 ≡ ok a
      → IsSame a answer
  unfolding append_transcript
  append_transcript-IsSame fault brief answer a note file h =
      elim (Bool-cases (ltb 2097152 (suc (length (c.to_vec (record_of c brief answer note)))))) [
        | inl long ↦ cc (rw long at h)
        | inr fits ↦
            append_after-IsSame fault (record_of c brief answer note)
              (repair_and_read_last_transcript_line file) a (rw fits at h)
      ]
