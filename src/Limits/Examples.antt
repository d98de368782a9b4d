-- ===== src/Limits/Examples.antt =====
-- The theorems of `Limits` at the default limits, and at limits that are refused.
use agenstro.Common.{◌≡◌, ◌↔◌, refl, false, ok, err}
use agenstro.Limits.{
  RuntimeLimits, default_limits, validate, validate_timeouts, validate_deadlines, validate_plugin,
  validate_native, native_queue_too_large,
}
use agenstro.Limits.Bounds.{IsValid, validate_iff_IsValid, is_overflow, overflow_unreachable}

validate_iff_IsValid_example : (validate default_limits ≡ ok tt) ↔ IsValid default_limits
validate_iff_IsValid_example = validate_iff_IsValid default_limits

default_IsValid : IsValid default_limits
unfolding validate default_limits validate_timeouts validate_deadlines validate_plugin
    validate_native
default_IsValid = validate_iff_IsValid_example.0 refl

abbrev crowded : RuntimeLimits
unfolding default_limits
crowded = record default_limits { native_output_queue_bound = 33 }

crowded_refused : validate crowded ≡ err native_queue_too_large
unfolding validate default_limits validate_timeouts validate_deadlines validate_plugin
    validate_native
crowded_refused = refl

overflow_unreachable_example : is_overflow native_queue_too_large ≡ false
overflow_unreachable_example = overflow_unreachable crowded native_queue_too_large crowded_refused
