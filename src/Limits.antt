-- ===== src/Limits.antt =====
-- tactus-runtime/src/limits.rs: the resource limits of a workspace and their validation. The
-- target is one with a `usize` of 64 bits. An error's constructor stands for its message.
pub mod Bounds
pub mod Options
mod Examples
use agenstro.Common.{
  ℕ, ◌+◌, ◌-◌, ◌*◌, ◌^◌, ◌==◌, ltb, leb, Bool, true, false, ◌||◌, ◌&&◌, not, Option, none, some,
  List, [], ◌∷◌, Result, ok, err, ◌>>=◌, ◌>>◌, fail_if, ok_or, if◌then◌else◌,
}
use agenstro.Common.Text.{Text, lit}
use agenstro.Json.{Value, Fields, number, get}

abbrev pub usize_limit : ℕ
usize_limit = 2 ^ 64

abbrev pub max_timeout_seconds : ℕ
max_timeout_seconds = 7 * 24 * 60 * 60

abbrev pub max_frame_bytes_ceiling : ℕ
max_frame_bytes_ceiling = 32 * 1024 * 1024

abbrev pub max_provider_result_bytes_ceiling : ℕ
max_provider_result_bytes_ceiling = 5 * 1024 * 1024

abbrev pub max_native_stdout_bytes_ceiling : ℕ
max_native_stdout_bytes_ceiling = 4294967296

abbrev pub max_native_queue_bytes : ℕ
max_native_queue_bytes = 256 * 1024 * 1024

pub record RuntimeLimits : Type 0 where
  pub max_concurrent_provider_calls : ℕ
  pub check_timeout_seconds : ℕ
  pub script_timeout_seconds : ℕ
  pub plugin_timeout_seconds : ℕ
  pub provider_timeout_seconds : ℕ
  pub provider_outer_timeout_seconds : ℕ
  pub max_request_bytes : ℕ
  pub max_frame_bytes : ℕ
  pub max_stdout_bytes : ℕ
  pub max_event_frames : ℕ
  pub max_stderr_bytes : ℕ
  pub event_queue_bound : ℕ
  pub native_max_line_bytes : ℕ
  pub native_max_stdout_bytes : ℕ
  pub native_max_result_bytes : ℕ
  pub native_max_stderr_bytes : ℕ
  pub native_output_queue_bound : ℕ

-- `RuntimeLimits::default`.
unfoldable pub default_limits : RuntimeLimits
default_limits = record {
  max_concurrent_provider_calls = 4;
  check_timeout_seconds = 30 * 60;
  script_timeout_seconds = 4 * 60 * 60 + 15 * 60;
  plugin_timeout_seconds = 60 * 60;
  provider_timeout_seconds = 3 * 60 * 60 + 45 * 60;
  provider_outer_timeout_seconds = 4 * 60 * 60;
  max_request_bytes = 1024 * 1024;
  max_frame_bytes = 32 * 1024 * 1024;
  max_stdout_bytes = 64 * 1024 * 1024;
  max_event_frames = 10000;
  max_stderr_bytes = 1024 * 1024;
  event_queue_bound = 4;
  native_max_line_bytes = 8 * 1024 * 1024;
  native_max_stdout_bytes = 1024 * 1024 * 1024;
  native_max_result_bytes = 4 * 1024 * 1024;
  native_max_stderr_bytes = 1024 * 1024;
  native_output_queue_bound = 8;
}

pub data LimitsError : Type 0 where
  out_of_range : Text → ℕ → ℕ → ℕ → LimitsError
  provider_timeout_too_short outer_timeout_too_short script_timeout_too_short : LimitsError
  script_shorter_than_plugin : LimitsError
  plugin_queue_overflows plugin_queue_too_large : LimitsError
  native_queue_overflows native_queue_too_large : LimitsError
  frame_budget_overflows frame_too_small : LimitsError
  option_out_of_range : Text → ℕ → LimitsError
  option_not_integer : Text → LimitsError
  stdout_below_line : LimitsError
  timeout_not_finite timeout_not_number timeout_out_of_range timeout_without_headroom : LimitsError

abbrev checked : ℕ → Option ℕ
checked n = if ltb n usize_limit then some n else none

-- `usize::checked_mul` and `usize::checked_add`, chained by `and_then`.
abbrev pub checked_mul : ℕ → ℕ → Option ℕ
checked_mul a b = checked (a * b)

abbrev pub checked_add : ℕ → ℕ → Option ℕ
checked_add a b = checked (a + b)

abbrev pub and_then : Option ℕ → (ℕ → Option ℕ) → Option ℕ
and_then none f = none
and_then (some a) f = f a

unfoldable pub require_range : Text → ℕ → ℕ → ℕ → Result LimitsError (Unit {0})
require_range name value minimum maximum =
    fail_if (ltb value minimum || ltb maximum value) (out_of_range name minimum maximum value)

-- 6 * result + request + 64 KiB, on `usize`.
abbrev pub frame_budget : ℕ → ℕ → Option ℕ
frame_budget result request =
    and_then (and_then (checked_mul result 6) (λ v. checked_add v request))
      (λ v. checked_add v (64 * 1024))

module _ (l : RuntimeLimits) where
  -- The loop over the five timeouts.
  unfoldable pub validate_timeouts : Result LimitsError (Unit {0})
  unfolding require_range
  validate_timeouts = do
    require_range (lit "check_timeout_seconds") l.check_timeout_seconds 1 max_timeout_seconds
    require_range (lit "script_timeout_seconds") l.script_timeout_seconds 1 max_timeout_seconds
    require_range (lit "plugin_timeout_seconds") l.plugin_timeout_seconds 1 max_timeout_seconds
    require_range (lit "provider_timeout_seconds") l.provider_timeout_seconds 1 max_timeout_seconds
    require_range (lit "provider_outer_timeout_seconds") l.provider_outer_timeout_seconds 1
        max_timeout_seconds

  -- The order of the nested deadlines.
  unfoldable pub validate_deadlines : Result LimitsError (Unit {0})
  validate_deadlines = do
    fail_if (ltb l.provider_timeout_seconds 61) provider_timeout_too_short
    fail_if (ltb l.provider_outer_timeout_seconds (l.provider_timeout_seconds + 60))
        outer_timeout_too_short
    fail_if (ltb l.script_timeout_seconds (l.provider_outer_timeout_seconds + 60))
        script_timeout_too_short
    fail_if (ltb l.script_timeout_seconds l.plugin_timeout_seconds) script_shorter_than_plugin

  unfoldable pub validate_plugin : Result LimitsError (Unit {0})
  unfolding require_range
  validate_plugin = do
    require_range (lit "max_request_bytes") l.max_request_bytes 1 (16 * 1024 * 1024)
    require_range (lit "max_frame_bytes") l.max_frame_bytes 1 max_frame_bytes_ceiling
    require_range (lit "max_stdout_bytes") l.max_stdout_bytes l.max_frame_bytes (512 * 1024 * 1024)
    require_range (lit "max_event_frames") l.max_event_frames 1 1000000
    require_range (lit "max_stderr_bytes") l.max_stderr_bytes 1 (16 * 1024 * 1024)
    require_range (lit "event_queue_bound") l.event_queue_bound 1 128
    bytes ←
        ok_or (and_then (checked_mul l.max_frame_bytes l.event_queue_bound) (λ v. checked_mul v 2))
          plugin_queue_overflows
    fail_if (ltb max_native_queue_bytes bytes) plugin_queue_too_large

  unfoldable pub validate_native : Result LimitsError (Unit {0})
  unfolding require_range
  validate_native = do
    require_range (lit "native_max_line_bytes") l.native_max_line_bytes 1 max_frame_bytes_ceiling
    require_range (lit "native_max_stdout_bytes") l.native_max_stdout_bytes l.native_max_line_bytes
        max_native_stdout_bytes_ceiling
    require_range (lit "native_max_result_bytes") l.native_max_result_bytes 1
        max_provider_result_bytes_ceiling
    require_range (lit "native_max_stderr_bytes") l.native_max_stderr_bytes 1 (16 * 1024 * 1024)
    require_range (lit "native_output_queue_bound") l.native_output_queue_bound 1 128
    bytes ←
        ok_or (checked_mul l.native_max_line_bytes l.native_output_queue_bound)
          native_queue_overflows
    fail_if (ltb max_native_queue_bytes bytes) native_queue_too_large
    required ←
        ok_or (frame_budget l.native_max_result_bytes l.max_request_bytes) frame_budget_overflows
    fail_if (ltb l.max_frame_bytes required) frame_too_small

  unfoldable pub validate : Result LimitsError (Unit {0})
  validate = do
    require_range (lit "max_concurrent_provider_calls") l.max_concurrent_provider_calls 1 32
    validate_timeouts
    validate_deadlines
    validate_plugin
    validate_native
