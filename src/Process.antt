-- ===== src/Process.antt =====
-- tactus-runtime/src/process.rs: the facts that supervision of one process reports. An `i32` exit
-- code is its bit pattern.
use agenstro.Common.{ℕ, Bool, true, false, Option}
pub mod Observer
pub mod Supervisor
pub mod Invocation
pub mod Readers
pub mod Command
use agenstro.Common.Text.{Text}
use agenstro.Protocol.{TerminalResult}

pub data InvocationKind : Type 0 where
  succeeded plugin_failed process_failed protocol_failed : InvocationKind
  runtime_failed deadline_exceeded cancelled : InvocationKind

pub data InvocationPhase : Type 0 where
  dispatched first_response partial_output terminal_received : InvocationPhase

pub record InvocationProgress : Type 0 where
  pub phase : InvocationPhase
  pub dispatched_unix_ms : ℕ
  pub first_response_unix_ms : Option ℕ
  pub last_event_unix_ms : Option ℕ
  pub cleanup_completed : Bool

pub record ProcessOutcome (N : Type 0) : Type 0 where
  pub kind : InvocationKind
  pub exit_code : Option ℕ
  pub terminal : Option (TerminalResult N)
  pub frames_seen : ℕ
  pub events_dropped : ℕ
  pub observation_error : Option Text
  pub stderr : Text
  pub stderr_truncated : Bool
  pub error : Option Text
  pub elapsed_ms : ℕ
  pub progress : Option InvocationProgress

abbrev pub kind_is_succeeded : InvocationKind → Bool
kind_is_succeeded succeeded = true
kind_is_succeeded _ = false

-- `ProcessOutcome::is_success`.
unfoldable pub is_success : {N : Type 0} → ProcessOutcome N → Bool
is_success o = kind_is_succeeded o.kind
