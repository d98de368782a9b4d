-- ===== src/Protocol.antt =====
-- tactus-runtime/src/protocol.rs: the plugin protocol's requests and frames, and the incremental
-- validator of one request's frames. A `u64` counter is a number that is not reduced: it counts
-- frames that were read one by one.
pub mod Conformance
mod Examples
use agenstro.Common.{
  ℕ, ◌+◌, ◌==◌, Bool, true, false, ◌||◌, not, Option, none, some, List, [], ◌∷◌, Result, ok, err,
  ◌>>◌, fail_if, ok_or, is_some, if◌then◌else◌,
}
use agenstro.Common.Text.{Text, lit, is_empty, text_eq}
use agenstro.Json.{Value, Fields}

abbrev pub plugin_api : Text
plugin_api = lit "agenstro.plugin/v1"

-- An `i64` is its bit pattern.
pub data RequestId : Type 0 where
  text : Text → RequestId
  integer : ℕ → RequestId

unfoldable pub request_id_eq : RequestId → RequestId → Bool
request_id_eq (text s) (text t) = text_eq s t
request_id_eq (text s) (integer n) = false
request_id_eq (integer m) (text t) = false
request_id_eq (integer m) (integer n) = m == n

pub record PluginRequest (N : Type 0) : Type 0 where
  pub api : Text
  pub id : RequestId
  pub method : Text
  pub params : Fields N

pub record PluginEvent (N : Type 0) : Type 0 where
  pub kind : Text
  pub payload : Fields N

pub record PluginFailure (N : Type 0) : Type 0 where
  pub code : Text
  pub message : Text
  pub details : Option (Value N)

pub data JsonField (T : Type 0) : Type 0 where
  missing : JsonField T
  present : T → JsonField T

pub data PluginFrame (N : Type 0) : Type 0 where
  event : RequestId → PluginEvent N → PluginFrame N
  result : RequestId → Bool → JsonField (Value N) → JsonField (PluginFailure N) → PluginFrame N

pub data TerminalResult (N : Type 0) : Type 0 where
  success : Value N → TerminalResult N
  failure : PluginFailure N → TerminalResult N

pub data ProtocolFault : Type 0 where
  unsupported_api : Text → ProtocolFault
  empty_method : ProtocolFault
  invalid_utf8 : ℕ → ProtocolFault
  invalid_json : Text → ProtocolFault
  mismatched_id : ProtocolFault
  frame_after_terminal : ProtocolFault
  duplicate_terminal : ProtocolFault
  missing_terminal : ProtocolFault
  invalid_terminal : Text → ProtocolFault

abbrev pub success_shape : Text
success_shape = lit "successful result requires value and forbids error"

abbrev pub failure_shape : Text
failure_shape = lit "failed result requires error and forbids value"

module _ {N : Type 0} where
  abbrev pub frame_id : PluginFrame N → RequestId
  frame_id (event i e) = i
  frame_id (result i o v e) = i

  abbrev pub is_result : PluginFrame N → Bool
  is_result (event i e) = false
  is_result (result i o v e) = true

  unfoldable pub new_request : Text → Text → Fields N → Result ProtocolFault (PluginRequest N)
  new_request i m p = do
    fail_if (is_empty m) empty_method
    ok (record { api = plugin_api; id = text i; method = m; params = p })

  unfoldable pub validate : PluginRequest N → Result ProtocolFault (Unit {0})
  validate r = do
    fail_if (not (text_eq r.api plugin_api)) (unsupported_api r.api)
    fail_if (is_empty r.method) empty_method
    ok tt

pub record FrameSequence (N : Type 0) : Type 0 where
  pub expected_id : RequestId
  pub terminal : Option (TerminalResult N)
  pub frames_seen : ℕ

module _ {N : Type 0} where
  unfoldable pub new : RequestId → FrameSequence N
  new i = record { expected_id = i; terminal = none; frames_seen = 0 }

  -- The match on `(*ok, value, error)`.
  unfoldable pub terminal_of :
      Bool
      → JsonField (Value N)
      → JsonField (PluginFailure N)
      → Result ProtocolFault (TerminalResult N)
  terminal_of true (present v) missing = ok (success v)
  terminal_of false missing (present e) = ok (failure e)
  terminal_of true _ _ = err (invalid_terminal success_shape)
  terminal_of false _ _ = err (invalid_terminal failure_shape)

  abbrev count_frame : FrameSequence N → Option (TerminalResult N) → FrameSequence N
  count_frame s t = record s { terminal = t; frames_seen = s.frames_seen + 1 }

  abbrev close :
      FrameSequence N
      → Result ProtocolFault (TerminalResult N)
      → Result ProtocolFault (Unit {0}) × FrameSequence N
  close s (ok t) = (ok tt, count_frame s (some t))
  close s (err e) = (err e, s)

  abbrev after_terminal : PluginFrame N → ProtocolFault
  after_terminal (event i e) = frame_after_terminal
  after_terminal (result i o v e) = duplicate_terminal

  abbrev remember :
      FrameSequence N → PluginFrame N → Result ProtocolFault (Unit {0}) × FrameSequence N
  remember s (event i e) = (ok tt, count_frame s s.terminal)
  remember s (result i o v e) = close s (terminal_of o v e)

  -- A method that mutates returns its result and the new state.
  unfoldable pub accept :
      FrameSequence N → PluginFrame N → Result ProtocolFault (Unit {0}) × FrameSequence N
  unfolding request_id_eq terminal_of
  accept s f =
      if not (request_id_eq (frame_id f) s.expected_id)
      then (err mismatched_id, s)
      else if is_some s.terminal
      then (err (after_terminal f), s)
      else remember s f

  unfoldable pub finish : FrameSequence N → Result ProtocolFault (TerminalResult N)
  finish s = ok_or s.terminal missing_terminal
