-- ===== src/Limits/Bounds.antt =====
-- `RuntimeLimits::validate` against the bounds that it is there to enforce.
use agenstro.Common.{
  ℕ, ◌+◌, ◌*◌, ◌≤◌, ◌≡◌, ◌↔◌, Bool, true, false, ok, err, arith, >>=-eq-ok, >>=-eq-err, inl, inr,
}
use agenstro.Common.Text.{Text, lit}
use agenstro.Limits.{
  RuntimeLimits, LimitsError, plugin_queue_overflows, native_queue_overflows,
  frame_budget_overflows, require_range, validate_timeouts, validate_deadlines, validate_plugin,
  validate_native, validate, max_timeout_seconds, max_frame_bytes_ceiling, max_native_queue_bytes,
  max_native_stdout_bytes_ceiling, max_provider_result_bytes_ceiling,
}

abbrev pub Within : ℕ → ℕ → ℕ → Type 0
Within low x high = (low ≤ x) × (x ≤ high)

pub record TimeoutsFit (l : RuntimeLimits) : Type 0 where
  pub check : Within 1 l.check_timeout_seconds max_timeout_seconds
  pub script : Within 1 l.script_timeout_seconds max_timeout_seconds
  pub plugin : Within 1 l.plugin_timeout_seconds max_timeout_seconds
  pub provider : Within 1 l.provider_timeout_seconds max_timeout_seconds
  pub outer : Within 1 l.provider_outer_timeout_seconds max_timeout_seconds

-- Each deadline leaves a minute after the one that it encloses.
pub record DeadlinesNest (l : RuntimeLimits) : Type 0 where
  pub native : 61 ≤ l.provider_timeout_seconds
  pub outer : l.provider_timeout_seconds + 60 ≤ l.provider_outer_timeout_seconds
  pub script : l.provider_outer_timeout_seconds + 60 ≤ l.script_timeout_seconds
  pub plugin : l.plugin_timeout_seconds ≤ l.script_timeout_seconds

pub record PluginFits (l : RuntimeLimits) : Type 0 where
  pub request : Within 1 l.max_request_bytes (16 * 1024 * 1024)
  pub frame : Within 1 l.max_frame_bytes max_frame_bytes_ceiling
  pub stdout : Within l.max_frame_bytes l.max_stdout_bytes (512 * 1024 * 1024)
  pub events : Within 1 l.max_event_frames 1000000
  pub stderr : Within 1 l.max_stderr_bytes (16 * 1024 * 1024)
  pub queue : Within 1 l.event_queue_bound 128
  pub resident : l.max_frame_bytes * l.event_queue_bound * 2 ≤ max_native_queue_bytes

pub record NativeFits (l : RuntimeLimits) : Type 0 where
  pub line : Within 1 l.native_max_line_bytes max_frame_bytes_ceiling
  pub stdout :
      Within l.native_max_line_bytes l.native_max_stdout_bytes max_native_stdout_bytes_ceiling
  pub result : Within 1 l.native_max_result_bytes max_provider_result_bytes_ceiling
  pub stderr : Within 1 l.native_max_stderr_bytes (16 * 1024 * 1024)
  pub queue : Within 1 l.native_output_queue_bound 128
  pub resident : l.native_max_line_bytes * l.native_output_queue_bound ≤ max_native_queue_bytes
  -- a result of control bytes takes six bytes for each, beside the request's identifier
  pub escaped : l.native_max_result_bytes * 6 + l.max_request_bytes + 65536 ≤ l.max_frame_bytes

pub record IsValid (l : RuntimeLimits) : Type 0 where
  pub providers : Within 1 l.max_concurrent_provider_calls 32
  pub timeouts : TimeoutsFit l
  pub deadlines : DeadlinesNest l
  pub plugin : PluginFits l
  pub native : NativeFits l

range_iff :
    (name : Text) (x low high : ℕ) → (require_range name x low high ≡ ok tt) ↔ Within low x high
unfolding require_range
range_iff name x low high = ground arith

module _ (l : RuntimeLimits) where
  timeouts_iff : (validate_timeouts l ≡ ok tt) ↔ TimeoutsFit l
  unfolding validate_timeouts
  timeouts_iff = ground arith

  deadlines_iff : (validate_deadlines l ≡ ok tt) ↔ DeadlinesNest l
  unfolding validate_deadlines
  deadlines_iff = ground arith

  plugin_sound : validate_plugin l ≡ ok tt → PluginFits l
  unfolding validate_plugin
  plugin_sound = ground arith

  plugin_complete : PluginFits l → validate_plugin l ≡ ok tt
  unfolding validate_plugin
  plugin_complete = ground arith

  native_sound : validate_native l ≡ ok tt → NativeFits l
  unfolding validate_native
  native_sound = ground arith

  native_complete : PluginFits l → NativeFits l → validate_native l ≡ ok tt
  unfolding validate_native
  native_complete p n = ground arith

  validate_sound : validate l ≡ ok tt → IsValid l
  unfolding validate
  validate_sound h =
      let (a, p, h1) =
        >>=-eq-ok
          (require_range (lit "max_concurrent_provider_calls") l.max_concurrent_provider_calls 1 32)
          _ h in
      let (b, q, h2) = >>=-eq-ok (validate_timeouts l) _ h1 in
      let (c, r, h3) = >>=-eq-ok (validate_deadlines l) _ h2 in
      let (d, s, h4) = >>=-eq-ok (validate_plugin l) _ h3 in
      record {
        providers =
            (range_iff (lit "max_concurrent_provider_calls") l.max_concurrent_provider_calls 1 32).0
              p;
        timeouts = timeouts_iff.0 q;
        deadlines = deadlines_iff.0 r;
        plugin = plugin_sound s;
        native = native_sound h4;
      }

  validate_complete : IsValid l → validate l ≡ ok tt
  unfolding validate
  validate_complete v = rw (
    (range_iff _ l.max_concurrent_provider_calls 1 32).1 v.providers,
    timeouts_iff.1 v.timeouts,
    deadlines_iff.1 v.deadlines,
    plugin_complete v.plugin,
    native_complete v.plugin v.native,
  )

  pub validate_iff_IsValid : (validate l ≡ ok tt) ↔ IsValid l
  validate_iff_IsValid = (validate_sound, validate_complete)

product_le : (a b x y : ℕ) → a ≤ x → b ≤ y → a * b ≤ x * y
product_le a b x y h k = grind arith

abbrev pub is_overflow : LimitsError → Bool
is_overflow plugin_queue_overflows = true
is_overflow native_queue_overflows = true
is_overflow frame_budget_overflows = true
is_overflow _ = false

module _ (l : RuntimeLimits) (e : LimitsError) where
  timeouts_error : validate_timeouts l ≡ err e → is_overflow e ≡ false
  unfolding validate_timeouts
  timeouts_error h = ground arith

  deadlines_error : validate_deadlines l ≡ err e → is_overflow e ≡ false
  unfolding validate_deadlines
  deadlines_error h = ground arith

  plugin_error : validate_plugin l ≡ err e → is_overflow e ≡ false
  unfolding validate_plugin
  plugin_error h = ground (arith, product_le l.max_frame_bytes l.event_queue_bound 33554432 128)

  native_error : PluginFits l → validate_native l ≡ err e → is_overflow e ≡ false
  unfolding validate_native
  native_error p h =
      ground (arith, product_le l.native_max_line_bytes l.native_output_queue_bound 33554432 128)

  range_error :
      (name : Text) (x low high : ℕ) → require_range name x low high ≡ err e → is_overflow e ≡ false
  unfolding require_range
  range_error name x low high h = ground arith

  -- The guards against overflow of `usize` never fire: the ranges checked before them already keep
  -- each product and sum below 2 ^ 64.
  pub overflow_unreachable : validate l ≡ err e → is_overflow e ≡ false
  unfolding validate
  overflow_unreachable h =
      elim (>>=-eq-err
        (require_range (lit "max_concurrent_provider_calls") l.max_concurrent_provider_calls 1 32) _
        h) [
          | inl x ↦ range_error _ _ _ _ x
          | inr (_, _, h1) ↦ elim (>>=-eq-err (validate_timeouts l) _ h1) [
            | inl x ↦ timeouts_error x
            | inr (_, _, h2) ↦ elim (>>=-eq-err (validate_deadlines l) _ h2) [
              | inl x ↦ deadlines_error x
              | inr (_, _, h3) ↦ elim (>>=-eq-err (validate_plugin l) _ h3) [
                | inl x ↦ plugin_error x
                | inr (_, p, h4) ↦ native_error (plugin_sound l p) h4
              ]
            ]
          ]
        ]
