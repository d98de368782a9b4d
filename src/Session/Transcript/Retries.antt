-- ===== src/Session/Transcript/Retries.antt =====
-- An answer whose append was interrupted is in the transcript once after a retry.
use agenstro.Common.{
  ℕ, zero, suc, ◌-◌, ◌≤◌, ◌<◌, ◌≡◌, refl, sym, ap, subst, ◌∙◌, Bool, true, false, Option, none,
  some, Result, ok, err, [], ◌∷◌, ◌++◌, append_assoc, append-nil, length-append, take-append,
  take_all, length-take, ltb, ltb→lt, length, take, arith, if◌then◌else◌,
}
use agenstro.Common.Text.{Text, lit, text_eq_refl, is_empty}
use agenstro.Session.{SessionBrief, AnsweredAxis, SessionError, io, require_decimal, session_api}
use agenstro.Session.Transcript.{
  max_transcript_record_bytes, newline, last_line, repair_and_read_last_transcript_line,
  TranscriptRecord, TranscriptCodec, record_of, same_note, same_flag, is_id, differs, stored_answer,
  append_record, append_after, append_transcript,
}
use agenstro.Session.Transcript.Tails.{
  has_newline, IsComplete, complete-repair, part-repair, ended-lines, appended-last_line,
}

same_note_refl : (note : Option Text) → same_note note note ≡ true
same_note_refl none = refl
same_note_refl (some a) = text_eq_refl a

same_flag_refl : (b : Bool) → same_flag b b ≡ true
same_flag_refl true = refl
same_flag_refl false = refl

module _ {N V : Type 0} (c : TranscriptCodec N V) where
  -- What `serde_json` and the decoder do with the line of a record.
  pub record IsReadable (r : TranscriptRecord N) : Type 0 where
    pub value : V
    pub decoded : c.decode_json (c.to_vec r) ≡ ok value
    pub identified : c.answer_id value ≡ some r.answer_id
    pub typed : c.from_value value ≡ ok r
    pub plain : has_newline (c.to_vec r) ≡ false
    pub full : is_empty (c.to_vec r) ≡ false
    pub small : suc (length (c.to_vec r)) ≤ max_transcript_record_bytes

  abbrev pub FreeAfter : Text → Result SessionError (Option Text) → Type 0
  FreeAfter id (err e) = ⊥
  FreeAfter id (ok none) = Unit {0}
  FreeAfter id (ok (some line)) =
      (value : V) × (c.decode_json line ≡ ok value) × (is_id id (c.answer_id value) ≡ false)

  -- The last line of the file is no answer with this identifier.
  abbrev pub IsFree : Text → Text → Type 0
  IsFree id file = FreeAfter id (last_line file)

  append_free :
      (fault : Option ℕ) (r : TranscriptRecord N) (file : Text)
      (q : Result SessionError (Option Text))
      → FreeAfter r.answer_id q
      → append_after c fault r (file, q) ≡ append_record c fault r file
  append_free fault r file (err e) h = absurd h
  append_free fault r file (ok none) h = refl
  append_free fault r file (ok (some line)) (value, decoded, other) = rw (decoded, other) refl

  module _ (brief : SessionBrief N) (note : Option Text) where
    append-free :
        (fault : Option ℕ) (answer : AnsweredAxis N) (left file : Text)
        → suc (length (c.to_vec (record_of c brief answer note))) ≤ max_transcript_record_bytes
        → repair_and_read_last_transcript_line left ≡ (file, last_line file)
        → IsFree (record_of c brief answer note).answer_id file
        → append_transcript c fault brief answer note left
          ≡ append_record c fault (record_of c brief answer note) file
    unfolding append_transcript
    append-free fault answer left file small e free =
        let fits : ltb max_transcript_record_bytes
              (suc (length (c.to_vec (record_of c brief answer note))))
            ≡ false =
          ground (arith, small) in
        rw (fits, e) (append_free fault (record_of c brief answer note) file (last_line file) free)

    same_answer :
        (answer : AnsweredAxis N) (at : Text)
        → c.same_brief brief brief ≡ true
        → differs c
            (record_of c brief answer note)
            (record_of c brief (record answer { answered_at_unix_ms = at }) note)
          ≡ false
    same_answer answer at same =
        let r = record_of c brief answer note in
        rw
          (
            text_eq_refl session_api,
            text_eq_refl (lit "answer"),
            text_eq_refl r.answer_id,
            text_eq_refl brief.session_id,
            text_eq_refl brief.turn,
            same,
            text_eq_refl answer.axis,
            text_eq_refl answer.option,
            text_eq_refl answer.label,
            same_flag_refl answer.defaulted,
            same_note_refl note,
          )
          refl

    stored_again :
        (answer : AnsweredAxis N) (at : Text) (t : ℕ) (value : V)
        → c.from_value value ≡ ok (record_of c brief answer note)
        → c.same_brief brief brief ≡ true
        → require_decimal answer.answered_at_unix_ms (lit "transcript answer time") ≡ ok t
        → stored_answer c
            (record_of c brief (record answer { answered_at_unix_ms = at }) note)
            value
          ≡ ok answer
    stored_again answer at t value typed same time =
        rw (typed, same_answer answer at same, time) refl

    append-stored :
        (answer : AnsweredAxis N) (at : Text) (t : ℕ) (left : Text)
        → IsReadable (record_of c brief answer note)
        → suc (
            length (c.to_vec (record_of c brief (record answer { answered_at_unix_ms = at }) note)))
          ≤ max_transcript_record_bytes
        → c.same_brief brief brief ≡ true
        → require_decimal answer.answered_at_unix_ms (lit "transcript answer time") ≡ ok t
        → repair_and_read_last_transcript_line left
          ≡ (left, ok (some (c.to_vec (record_of c brief answer note))))
        → append_transcript c none brief (record answer { answered_at_unix_ms = at }) note left
          ≡ (left, ok answer)
    unfolding append_transcript
    append-stored answer at t left h small same time e =
        let fits : ltb max_transcript_record_bytes (
              suc (
                length
                  (c.to_vec (record_of c brief (record answer { answered_at_unix_ms = at }) note))))
            ≡ false =
          ground (arith, small) in
        let id = (record_of c brief answer note).answer_id in
        rw (fits, e, h.decoded, h.identified, text_eq_refl id)
          (ap (λ q. (left, q)) (stored_again answer at t h.value h.typed same time))

    part-transcript :
        (answer : AnsweredAxis N) (file part : Text)
        → IsComplete file
        → has_newline part ≡ false
        → length part ≤ max_transcript_record_bytes
        → suc (length (c.to_vec (record_of c brief answer note))) ≤ max_transcript_record_bytes
        → IsFree (record_of c brief answer note).answer_id file
        → append_transcript c none brief answer note (file ++ part)
          ≡ (file ++ (c.to_vec (record_of c brief answer note) ++ (newline ∷ [])), ok answer)
    part-transcript answer file [] h k l small free =
        append-free none answer (file ++ []) file small
          (subst (λ f. repair_and_read_last_transcript_line f ≡ (file, last_line file))
            (sym (append-nil file)) (complete-repair file h))
          free
    part-transcript answer file (b ∷ s) h k l small free =
        append-free none answer (file ++ (b ∷ s)) file small (part-repair file b s h k l) free

take-newline : (n : ℕ) (s : Text) → has_newline s ≡ false → has_newline (take n s) ≡ false
take-newline zero s h = refl
take-newline (suc n) [] h = refl
take-newline (suc n) (b ∷ s) h =
    let rest : has_newline (take n s) ≡ false = take-newline n s (ground (arith, h)) in
    ground (arith, h, rest)

take-line : (n : ℕ) (s : Text) (b : ℕ) → n ≤ length s → take n (s ++ (b ∷ [])) ≡ take n s
take-line n s b h =
    let none_left : n - length s ≡ 0 = omega arith in
    rw (take-append n s (b ∷ []), none_left) (append-nil (take n s))

module _ {N V : Type 0} (c : TranscriptCodec N V) (brief : SessionBrief N) (note : Option Text)
    (answer : AnsweredAxis N) (at : Text) (t n : ℕ) (file : Text) where
  abbrev pub first : Text
  first = c.to_vec (record_of c brief answer note) ++ (newline ∷ [])

  abbrev pub again : AnsweredAxis N
  again = record answer { answered_at_unix_ms = at }

  abbrev pub second : Text
  second = c.to_vec (record_of c brief again note) ++ (newline ∷ [])

  whole_retry :
      IsComplete file
      → IsReadable c (record_of c brief answer note)
      → suc (length (c.to_vec (record_of c brief again note))) ≤ max_transcript_record_bytes
      → c.same_brief brief brief ≡ true
      → require_decimal answer.answered_at_unix_ms (lit "transcript answer time") ≡ ok t
      → append_transcript c none brief again note (file ++ first) ≡ (file ++ first, ok answer)
  whole_retry h r small same time =
      let line = c.to_vec (record_of c brief answer note) in
      let whole : (file ++ line) ++ (newline ∷ []) ≡ file ++ first =
        append_assoc file line (newline ∷ []) in
      append-stored c brief note answer at t (file ++ first) r small same time (
        subst (λ f. repair_and_read_last_transcript_line f ≡ (f, ok (some line))) whole
          (complete-repair ((file ++ line) ++ (newline ∷ [])) (ended-lines (file ++ line))
            ∙ ap (λ q. ((file ++ line) ++ (newline ∷ []), q))
                (appended-last_line file line h r.plain r.full (omega (arith, r.small)))))

  -- An append to complete lines, whose last is no record of this answer, is interrupted after `n`
  -- bytes, whatever `n` is, and reported as an error; the answer is then submitted again, at another
  -- time. Afterwards the transcript has the old lines and one more: the second record, when the first
  -- was not complete, and otherwise the first one, whose answer is then reported. Both records are
  -- within the limit, and the first one is a line that decodes to itself.
  pub append_transcript-retry :
      IsComplete file
      → IsReadable c (record_of c brief answer note)
      → suc (length (c.to_vec (record_of c brief again note))) ≤ max_transcript_record_bytes
      → c.same_brief brief brief ≡ true
      → require_decimal answer.answered_at_unix_ms (lit "transcript answer time") ≡ ok t
      → IsFree c (record_of c brief answer note).answer_id file
      → ((append_transcript c (some n) brief answer note file).1 ≡ err io)
        × (append_transcript c none brief again note
              (append_transcript c (some n) brief answer note file).0
            ≡ (if ltb n (length first)
                then (file ++ second, ok again)
                else (file ++ first, ok answer)))
  append_transcript-retry h r small same time free =
      let stopped =
        append-free c brief note (some n) answer file file r.small (complete-repair file h) free in
      rw stopped (refl, by_length (ltb n (length first)) refl)
    where
      by_length :
          (b : Bool)
          → ltb n (length first) ≡ b
          → append_transcript c none brief again note (file ++ take n first)
            ≡ (if b then (file ++ second, ok again) else (file ++ first, ok answer))
      by_length true e =
          let line = c.to_vec (record_of c brief answer note) in
          let count = length-append line (newline ∷ []) in
          let below : n < length first = ltb→lt n (length first) e in
          let short : n ≤ length line = omega (arith, below, count) in
          let taken = length-take n line in
          rw (take-line n line newline short) (
            part-transcript c brief note again file (take n line) h (take-newline n line r.plain)
              (omega (arith, r.small, taken, short)) small free)
      by_length false e =
          let all_of : take n first ≡ first = take_all n first (ground (arith, e)) in
          rw all_of (whole_retry h r small same time)
