-- ===== src/Adapters/Antigravity.antt =====
-- tactus-runtime/src/adapters.rs: the native event stream of Antigravity, whose events belong to one
-- turn that has one terminal record.
pub mod Turns
use agenstro.Common.{
  ℕ, Bool, true, false, ◌&&◌, ◌||◌, not, Option, none, some, is_some, is_none_or, is_some_and,
  Result, ok, err, ◌>>=◌, ◌>>◌, fail_if, ok_or, map_err, List, [], ◌∷◌, ◌++◌, ltb, length,
  if◌then◌else◌,
}
use agenstro.Common.Text.{Text, lit, text_eq, is_empty, one_of}
use agenstro.Common.Search.{starts_with}
use agenstro.Json.{
  Value, Items, Fields, null, boolean, number, string, array, object, nil, cons, end, field, get,
  as_str, as_bool,
}
use agenstro.Adapters.{
  Provider, codex, claude_code, open_code, antigravity, provider_name, AdapterError,
  dispatched_provider_failure,
}

pub record AntigravityStream : Type 0 where
  pub conversation_id : Option Text
  pub terminal : Bool

abbrev pub new_stream : AntigravityStream
new_stream = record { conversation_id = none; terminal = false }

-- UTF-8 and `str::trim` of the standard library, `decode_json` of protocol.rs, `serde_json::from_str`
-- and `as_u64`.
pub record Decoders (N : Type 0) : Type 0 where
  pub from_utf8 : Text → Result ℕ (Unit {0})
  pub is_blank : Text → Bool
  pub decode_json : Text → Result Text (Value N)
  pub from_str : Text → Result Text (Value N)
  pub as_u64 : N → Option ℕ
  pub from_usize : ℕ → N

abbrev filter_text : (Text → Bool) → Option Text → Option Text
filter_text p none = none
filter_text p (some s) = if p s then some s else none

abbrev pub is_text : Text → Option Text → Bool
is_text s = is_some_and (λ t. text_eq t s)

abbrev pub is_failed_status : Text → Bool
is_failed_status = one_of (lit "ERROR" ∷ lit "INVALID" ∷ [])

abbrev pub is_success_status : Text → Bool
is_success_status status = text_eq status (lit "SUCCESS")

-- The stream afterwards, and what the event says: nothing, or the end of the turn and whether it
-- failed.
abbrev pub Observed : Type 0 → Type 0
Observed N = Result (AdapterError N) (AntigravityStream × Option Bool)

module _ {N : Type 0} where
  -- `Value::get`, and the index of a value, which is null where there is no such member.
  abbrev pub member : Text → Value N → Option (Value N)
  member k (object fs) = get k fs
  member k _ = none

  abbrev pub or_null : Option (Value N) → Value N
  or_null none = null
  or_null (some v) = v

  abbrev pub index : Text → Value N → Value N
  index k v = or_null (member k v)

  abbrev pub text_of : Option (Value N) → Option Text
  text_of none = none
  text_of (some v) = as_str v

  abbrev pub text_member : Text → Value N → Option Text
  text_member k v = text_of (member k v)

  abbrev is_object : Value N → Bool
  is_object (object fs) = true
  is_object _ = false

  abbrev is_null : Value N → Bool
  is_null null = true
  is_null _ = false

  abbrev is_string : Value N → Bool
  is_string (string s) = true
  is_string _ = false

  abbrev pub is_true : Option (Value N) → Bool
  is_true none = false
  is_true (some v) = is_some_and (λ b. b) (as_bool v)

  abbrev is_u64 : Decoders N → Value N → Bool
  is_u64 c (number n) = is_some (c.as_u64 n)
  is_u64 c _ = false

  abbrev pub fault : Text → AdapterError N
  fault reason = dispatched_provider_failure antigravity (lit "native_stream_invalid") reason

  abbrev pub bad_init : AntigravityStream → Value N → Bool
  bad_init s raw = is_some s.conversation_id || not (is_object (index (lit "init") raw))

  abbrev pub init_id : Value N → Option Text
  init_id raw =
      filter_text (λ i. not (is_empty i) && not (ltb 512 (length i)))
        (text_member (lit "conversation_id") raw)

  abbrev pub observe_init : AntigravityStream → Value N → Observed N
  observe_init s raw = do
    fail_if (bad_init s raw) (fault (lit "Antigravity emitted a duplicate or malformed init event"))
    id ← ok_or (init_id raw) (fault (lit "Antigravity init has no bounded conversation ID"))
    ok (record s { conversation_id = some id }, none)

  abbrev pub bad_step : Decoders N → Text → Value N → Bool
  bad_step c id step =
      not (is_text id (text_member (lit "conversation_id") step))
      || not (is_u64 c (index (lit "step_index") step))
      || not
          (is_some_and (one_of (lit "ACTIVE" ∷ lit "DONE" ∷ [])) (text_member (lit "state") step))
      || is_none_or is_empty (text_member (lit "step_type") step)
      || is_some_and (λ t. not (is_string t)) (member (lit "text_delta") step)

  abbrev pub observe_step : Decoders N → AntigravityStream → Value N → Observed N
  observe_step c s raw = do
    id ← ok_or s.conversation_id (fault (lit "Antigravity emitted a step before init"))
    fail_if (bad_step c id (index (lit "step_update") raw))
        (fault (lit "Antigravity emitted a malformed or uncorrelated step"))
    ok (s, none)

  abbrev pub result_id : Value N → Option Text
  result_id result =
      filter_text (λ i. not (ltb 512 (length i))) (text_member (lit "conversation_id") result)

  abbrev pub bad_result : AntigravityStream → Value N → Text → Text → Bool
  bad_result s result status id =
      not (is_string (index (lit "response") result))
      || is_some_and (λ e. not (is_null e) && not (is_string e)) (member (lit "error") result)
      || is_some_and (λ expected. not (text_eq id expected)) s.conversation_id
      || (not (is_some s.conversation_id) && not (is_failed_status status))
      || (is_success_status status
          && is_some_and (λ e. not (is_null e)) (member (lit "error") result))

  abbrev unconfirmed : AdapterError N
  unconfirmed =
      dispatched_provider_failure antigravity (lit "native_terminal_unconfirmed")
        (lit "Antigravity result did not prove a completed or known failed turn")

  -- The flag `terminal` is set in an error too; the caller then leaves the stream.
  abbrev pub observe_result : AntigravityStream → Value N → Observed N
  observe_result s raw = do
    let result = index (lit "result") raw
    status ←
        ok_or (text_member (lit "status") result) (fault (lit "Antigravity result has no status"))
    id ← ok_or (result_id result) (fault (lit "Antigravity result has no bounded conversation ID"))
    fail_if (bad_result s result status id)
        (fault (lit "Antigravity emitted a malformed, contradictory, or uncorrelated result"))
    fail_if (not (is_success_status status) && not (is_failed_status status)) unconfirmed
    ok (record s { terminal = true }, some (not (is_success_status status)))

  abbrev pub observe_kind : Decoders N → AntigravityStream → Value N → Option Text → Observed N
  observe_kind c s raw none =
      err (fault (lit "Antigravity emitted an unrecognized native stream event"))
  observe_kind c s raw (some event) =
      if text_eq event (lit "init")
      then observe_init s raw
      else if text_eq event (lit "step_update")
      then observe_step c s raw
      else if text_eq event (lit "result")
      then observe_result s raw
      else err (fault (lit "Antigravity emitted an unrecognized native stream event"))

  -- `AntigravityStream::observe`.
  unfoldable pub observe_stream : Decoders N → AntigravityStream → Value N → Observed N
  observe_stream c s raw = do
    fail_if s.terminal (fault (lit "Antigravity emitted data after its terminal result"))
    observe_kind c s raw (text_member (lit "event") raw)
