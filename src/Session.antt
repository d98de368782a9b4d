-- ===== src/Session.antt =====
-- tactus-runtime/src/session.rs: the durable sessions, in which a person answers one question at a
-- time. A `BTreeMap` of extensions is its list of members.
pub mod Validation
pub mod Transcript
pub mod Answers
pub mod Listing
mod Examples
use agenstro.Common.{
  ℕ, suc, ◌+◌, ◌*◌, ◌-◌, Bool, true, false, ◌&&◌, ◌||◌, not, Option, none, some, Result, ok, err,
  ◌>>◌, fail_if, List, [], ◌∷◌, ◌++◌, ltb, leb, ◌==◌, length, all, drop, if◌then◌else◌,
}
use agenstro.Common.Text.{Text, lit, is_empty}
use agenstro.Common.Search.{starts_with}
use agenstro.Json.{Fields}

abbrev pub session_api : Text
session_api = lit "agenstro.session/v1"

pub data SessionState : Type 0 where
  planning awaiting_answer delivered abandoned : SessionState

abbrev pub is_awaiting : SessionState → Bool
is_awaiting awaiting_answer = true
is_awaiting _ = false

pub data Reversibility : Type 0 where
  reversible costly irreversible : Reversibility

pub record SessionFinding (N : Type 0) : Type 0 where
  pub summary : Text
  pub detail : Option Text
  pub source : Option Text
  pub extensions : Fields N

pub record SessionOption (N : Type 0) : Type 0 where
  pub id : Text
  pub label : Text
  pub coordinates : List (Text × Text)
  pub rationale : Option Text
  pub extensions : Fields N

pub record SessionQuestion (N : Type 0) : Type 0 where
  pub axis : Text
  pub prompt : Text
  pub options : List (SessionOption N)
  pub reversibility : Reversibility
  pub depends_on : List Text
  pub extensions : Fields N

pub record SessionConsequence (N : Type 0) : Type 0 where
  pub option : Text
  pub effect : Text
  pub reversibility : Reversibility
  pub extensions : Fields N

pub record SessionBrief (N : Type 0) : Type 0 where
  pub api : Text
  pub session_id : Text
  pub turn : Text
  pub findings : List (SessionFinding N)
  pub question : SessionQuestion N
  pub stakes : List (SessionConsequence N)
  pub default_option : Option Text
  pub remaining_surface : List Text
  pub remaining_floor : List Text
  pub extensions : Fields N

pub record AnsweredAxis (N : Type 0) : Type 0 where
  pub axis : Text
  pub option : Text
  pub label : Text
  pub defaulted : Bool
  pub answered_at_unix_ms : Text
  pub extensions : Fields N

pub record SessionView (N : Type 0) : Type 0 where
  pub api : Text
  pub session_id : Text
  pub label : Text
  pub state : SessionState
  pub turn : Text
  pub pending : Option (SessionBrief N)
  pub answered : List (AnsweredAxis N)
  pub started_unix_ms : Text
  pub updated_unix_ms : Text
  pub extensions : Fields N

-- The errors of a workspace and of the file system carry no data here.
pub data SessionError : Type 0 where
  workspace io invalid_id invalid_argument not_found : SessionError
  corrupt : Text → SessionError
  turn_stale axis_mismatch option_invalid state_invalid : SessionError

abbrev pub corrupt_if : Bool → Text → Result SessionError (Unit {0})
corrupt_if condition message = fail_if condition (corrupt message)

abbrev between : ℕ → ℕ → ℕ → Bool
between a b c = leb a c && leb c b

abbrev is_digit : ℕ → Bool
is_digit b = between 48 57 b

abbrev is_lowercase : ℕ → Bool
is_lowercase b = between 97 122 b

abbrev is_alphanumeric : ℕ → Bool
is_alphanumeric b = is_digit b || (between 65 90 b || is_lowercase b)

abbrev is_ascii : Text → Bool
is_ascii = all (λ b. ltb b 128)

-- `all` with the index of each byte, from the first index on.
abbrev all_from : (ℕ → ℕ → Bool) → ℕ → Text → Bool
all_from p index [] = true
all_from p index (b ∷ s) = p index b && all_from p (suc index) s

unfoldable pub is_option_id : Text → Bool
is_option_id value =
    not (is_empty value || ltb 64 (length value) || not (is_ascii value))
    && all_from
        (λ index b. is_alphanumeric b || (ltb 0 index && ((b == 46) || (b == 95) || (b == 45)))) 0
        value

abbrev session_prefix : Text
session_prefix = lit "session-"

abbrev is_session_tail : Text → Bool
is_session_tail tail = not (is_empty tail) && all (λ b. is_alphanumeric b || b == 45) tail

unfoldable pub is_session_id : Text → Bool
unfolding starts_with
is_session_id value =
    leb (length value) 128
    && (starts_with session_prefix value && is_session_tail (drop (length session_prefix) value))

-- `split('.')`, with the part that was read so far.
abbrev pub split_dots : Text → Text → List Text
split_dots part [] = part ∷ []
split_dots part (b ∷ s) =
    let ended = split_dots [] s in
    let longer = split_dots (part ++ (b ∷ [])) s in if b == 46 then part ∷ ended else longer

abbrev is_axis_part : ℕ → Text → Bool
is_axis_part index part =
    not (is_empty part)
    && all_from
        (λ offset b.
          is_lowercase b
          || (is_digit b && not (index == 0 && offset == 0))
          || (b == 45 && ltb 0 index))
        0 part

abbrev are_axis_parts : ℕ → List Text → Bool
are_axis_parts index [] = true
are_axis_parts index (part ∷ parts) = is_axis_part index part && are_axis_parts (suc index) parts

unfoldable pub is_axis_id : Text → Bool
is_axis_id value =
    not (is_empty value || ltb 128 (length value) || not (is_ascii value))
    && are_axis_parts 0 (split_dots [] value)

abbrev decimal : ℕ → Text → ℕ
decimal n [] = n
decimal n (b ∷ s) = decimal (n * 10 + (b - 48)) s

-- `str::parse` fails on a number over `u64::MAX`.
unfoldable pub require_decimal : Text → Text → Result SessionError ℕ
require_decimal value name =
    if is_empty value
      || (ltb 1 (length value) && starts_with (lit "0") value)
      || not (all is_digit value)
    then err (corrupt (lit "invalid " ++ name))
    else if ltb 18446744073709551615 (decimal 0 value)
    then err (corrupt (name ++ lit " exceeds u64"))
    else ok (decimal 0 value)
