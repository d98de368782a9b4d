-- ===== src/Session/Validation.antt =====
-- tactus-runtime/src/session.rs: the checks of a session document.
use agenstro.Common.{
  ℕ, suc, Bool, true, false, ◌&&◌, ◌||◌, not, Option, none, some, is_some, Result, ok, ◌>>=◌, ◌>>◌,
  List, [], ◌∷◌, ◌++◌, ltb, leb, ◌==◌, length, all, if◌then◌else◌,
}
use agenstro.Common.Text.{Text, lit, text_eq, is_empty, one_of}
use agenstro.Session.{
  session_api, is_awaiting, SessionFinding, SessionOption, SessionConsequence, SessionBrief,
  AnsweredAxis, SessionView, SessionError, corrupt_if, is_option_id, is_session_id, is_axis_id,
  require_decimal,
}

-- `chars().count()`: the bytes that start a character.
abbrev char_count : Text → ℕ
char_count [] = 0
char_count (b ∷ s) = let rest = char_count s in if leb 128 b && ltb b 192 then rest else suc rest

unfoldable pub validate_text : Text → ℕ → Bool → Text → Result SessionError (Unit {0})
validate_text value maximum nonempty name = do
  corrupt_if (nonempty && is_empty value) (name ++ lit " is empty")
  corrupt_if (ltb maximum (char_count value)) (name ++ lit " is too long")

unfoldable pub validate_optional_text : Option Text → ℕ → Text → Result SessionError (Unit {0})
unfolding validate_text
validate_optional_text none maximum name = ok tt
validate_optional_text (some value) maximum name = validate_text value maximum false name

-- A loop whose body may fail.
abbrev each {ℓ} :
    {A : Type ℓ} → (A → Result SessionError (Unit {0})) → List A → Result SessionError (Unit {0})
each check [] = ok tt
each check (x ∷ xs) = do check x; each check xs

-- The loop over identifiers that fills a set: each has a right form, and none is there twice.
abbrev unique_ids :
    (Text → Bool) → Text → Text → List Text → List Text → Result SessionError (Unit {0})
unique_ids is_id invalid duplicate seen [] = ok tt
unique_ids is_id invalid duplicate seen (x ∷ xs) = do
  corrupt_if (not (is_id x)) invalid
  corrupt_if (one_of seen x) duplicate
  unique_ids is_id invalid duplicate (x ∷ seen) xs

unfoldable pub validate_axis_list : List Text → Text → Result SessionError (List Text)
validate_axis_list values name = do
  corrupt_if (ltb 64 (length values)) (lit "too many " ++ name)
  unique_ids is_axis_id (lit "invalid axis in " ++ name) (lit "duplicate axis in " ++ name) []
      values
  ok values

abbrev same_flag : Bool → Bool → Bool
same_flag true b = b
same_flag false b = not b

abbrev validate_coordinate : Text × Text → Result SessionError (Unit {0})
validate_coordinate (key, value) = do
  validate_text key 64 true (lit "coordinate key")
  validate_text value 64 true (lit "coordinate value")

abbrev validate_default : List Text → Option Text → Result SessionError (Unit {0})
validate_default ids none = ok tt
validate_default ids (some o) =
    corrupt_if (not (one_of ids o)) (lit "default references an unknown option")

module _ {N : Type 0} where
  abbrev validate_finding : SessionFinding N → Result SessionError (Unit {0})
  validate_finding f = do
    validate_text f.summary 400 true (lit "finding summary")
    validate_optional_text f.detail 4096 (lit "finding detail")
    validate_optional_text f.source 160 (lit "finding source")

  abbrev validate_options : List Text → List (SessionOption N) → Result SessionError (Unit {0})
  validate_options seen [] = ok tt
  validate_options seen (o ∷ os) = do
    corrupt_if (not (is_option_id o.id)) (lit "invalid option id")
    corrupt_if (one_of seen o.id) (lit "duplicate option id")
    validate_text o.label 160 true (lit "option label")
    corrupt_if (ltb 12 (length o.coordinates)) (lit "too many option coordinates")
    each validate_coordinate o.coordinates
    validate_optional_text o.rationale 1024 (lit "option rationale")
    validate_options (o.id ∷ seen) os

  abbrev option_ids : List (SessionOption N) → List Text
  option_ids [] = []
  option_ids (o ∷ os) = o.id ∷ option_ids os

  abbrev validate_stake : List Text → SessionConsequence N → Result SessionError (Unit {0})
  validate_stake ids s = do
    corrupt_if (not (one_of ids s.option)) (lit "consequence references an unknown option")
    validate_text s.effect 1024 true (lit "consequence effect")

  unfoldable pub validate_brief : SessionBrief N → Result SessionError (Unit {0})
  unfolding validate_axis_list
  validate_brief b = do
    corrupt_if (not (text_eq b.api session_api)) (lit "unknown brief API")
    corrupt_if (not (is_session_id b.session_id)) (lit "invalid brief session id")
    turn ← require_decimal b.turn (lit "brief turn")
    corrupt_if (ltb 12 (length b.findings)) (lit "too many findings")
    each validate_finding b.findings
    corrupt_if (not (is_axis_id b.question.axis)) (lit "invalid question axis")
    validate_text b.question.prompt 1024 true (lit "question prompt")
    corrupt_if (ltb (length b.question.options) 2 || ltb 6 (length b.question.options))
        (lit "question must have two to six options")
    validate_options [] b.question.options
    depends ← validate_axis_list b.question.depends_on (lit "question dependencies")
    corrupt_if (ltb 6 (length b.stakes)) (lit "too many consequences")
    each (validate_stake (option_ids b.question.options)) b.stakes
    validate_default (option_ids b.question.options) b.default_option
    surface ← validate_axis_list b.remaining_surface (lit "remaining surface")
    floor ← validate_axis_list b.remaining_floor (lit "remaining floor")
    corrupt_if (not (all (one_of surface) floor))
        (lit "remaining floor is not a subset of the surface")

  abbrev validate_pending :
      SessionView N → ℕ → Option (SessionBrief N) → Result SessionError (Unit {0})
  validate_pending s turn none = ok tt
  validate_pending s turn (some brief) = do
    validate_brief brief
    corrupt_if (not (text_eq brief.session_id s.session_id)) (lit "brief session id mismatch")
    own ← require_decimal brief.turn (lit "brief turn")
    corrupt_if (not (own == turn)) (lit "brief turn mismatch")

  abbrev pub validate_answers :
      ℕ → ℕ → List Text → List (AnsweredAxis N) → Result SessionError (Unit {0})
  validate_answers started updated axes [] = ok tt
  validate_answers started updated axes (a ∷ more) = do
    corrupt_if (not (is_axis_id a.axis)) (lit "invalid answered axis")
    corrupt_if (one_of axes a.axis) (lit "duplicate answered axis")
    corrupt_if (not (is_option_id a.option)) (lit "invalid answered option")
    validate_text a.label 160 true (lit "answer label")
    answered_at ← require_decimal a.answered_at_unix_ms (lit "answer time")
    corrupt_if (ltb answered_at started || ltb updated answered_at)
        (lit "answer time is out of range")
    validate_answers started updated (a.axis ∷ axes) more

  abbrev pub answered_axes : List (AnsweredAxis N) → List Text
  answered_axes [] = []
  answered_axes (a ∷ more) = a.axis ∷ answered_axes more

  abbrev validate_room : SessionView N → Option (SessionBrief N) → Result SessionError (Unit {0})
  validate_room s none = ok tt
  validate_room s (some brief) =
      corrupt_if
        (length s.answered == 256 && not (one_of (answered_axes s.answered) brief.question.axis))
        (lit "a full answer projection cannot accept the pending axis")

  unfoldable pub validate_session : SessionView N → Text → Result SessionError (Unit {0})
  unfolding validate_brief
  validate_session s expected_id = do
    corrupt_if (not (text_eq s.api session_api)) (lit "unknown session API")
    corrupt_if (not (is_session_id s.session_id)) (lit "invalid stored session id")
    corrupt_if (not (text_eq s.session_id expected_id))
        (lit "session id does not match its directory")
    validate_text s.label 256 true (lit "session label")
    turn ← require_decimal s.turn (lit "session turn")
    started ← require_decimal s.started_unix_ms (lit "session start time")
    updated ← require_decimal s.updated_unix_ms (lit "session update time")
    corrupt_if (ltb updated started) (lit "session update precedes its start")
    corrupt_if (not (same_flag (is_awaiting s.state) (is_some s.pending)))
        (lit "pending is present exactly while awaiting an answer")
    validate_pending s turn s.pending
    corrupt_if (ltb 256 (length s.answered)) (lit "too many answered axes")
    validate_answers started updated [] s.answered
    validate_room s s.pending
