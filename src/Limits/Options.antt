-- ===== src/Limits/Options.antt =====
-- tactus-runtime/src/limits.rs: the options of a provider that override limits. The numbers of
-- serde_json and the arithmetic of `f64` are parameters; an error's constructor stands for its message.
use agenstro.Common.{
  ℕ, ◌+◌, ◌-◌, ◌*◌, ◌≤◌, ◌≡◌, ◌==◌, ltb, leb, Bool, false, ◌||◌, ◌&&◌, not, Option, none, some,
  Result, ok, err, ◌>>=◌, ◌>>◌, fail_if, ok_or, if◌then◌else◌, arith, >>=-eq-ok, fail_if-eq-ok,
}
use agenstro.Common.Text.{Text, lit}
use agenstro.Json.{Value, Fields, number, get}
use agenstro.Limits.{
  RuntimeLimits, usize_limit, max_timeout_seconds, max_frame_bytes_ceiling, max_native_queue_bytes,
  max_native_stdout_bytes_ceiling, max_provider_result_bytes_ceiling,
}

pub data OptionsError : Type 0 where
  out_of_range not_an_integer : Text → OptionsError
  stdout_below_line queue_overflows queue_too_large frame_overflows frame_below_result :
      OptionsError
  timeout_not_a_number timeout_not_finite timeout_out_of_range no_time_for_cleanup : OptionsError

pub record Numbers (N F : Type 0) : Type 0 where
  pub as_u64 : N → Option ℕ
  pub as_f64 : N → Option F
  pub of_nat : ℕ → F
  pub is_finite : F → Bool
  pub plus : F → F → F
  pub less : F → F → Bool
  pub less_equal : F → F → Bool

-- JSON escaping can take six bytes for each of the result.
abbrev pub frame_needed : RuntimeLimits → ℕ → ℕ
frame_needed l result = result * 6 + l.max_request_bytes + 64 * 1024

not_ltb : (x y : ℕ) → ltb x y ≡ false → y ≤ x
not_ltb x y h = ground arith

module _ {N F : Type 0} (a : Numbers N F) where
  abbrev filtered : ℕ → Option ℕ → Option ℕ
  filtered maximum none = none
  filtered maximum (some value) = if leb 1 value && leb value maximum then some value else none

  abbrev usize_option : Text → ℕ → ℕ → Option (Value N) → Result OptionsError ℕ
  usize_option name default maximum none = ok default
  usize_option name default maximum (some (number n)) =
      ok_or (filtered maximum (a.as_u64 n)) (out_of_range name)
  usize_option name default maximum (some _) = err (not_an_integer name)

  unfoldable pub provider_usize_option : Fields N → Text → ℕ → ℕ → Result OptionsError ℕ
  unfolding get
  provider_usize_option options name default maximum =
      usize_option name default maximum (get name options)

  abbrev native_timeout : RuntimeLimits → Option (Value N) → Result OptionsError F
  native_timeout l none = ok (a.of_nat (l.provider_timeout_seconds - 60))
  native_timeout l (some (number n)) = ok_or (a.as_f64 n) timeout_not_finite
  native_timeout l (some _) = err timeout_not_a_number

  abbrev pub validate_sizes : RuntimeLimits → ℕ → ℕ → ℕ → ℕ → Result OptionsError (Unit {0})
  validate_sizes l line stdout result queue = do
    fail_if (ltb stdout line) stdout_below_line
    fail_if (leb usize_limit (line * queue)) queue_overflows
    fail_if (ltb max_native_queue_bytes (line * queue)) queue_too_large
    fail_if (leb usize_limit (frame_needed l result)) frame_overflows
    fail_if (ltb l.max_frame_bytes (frame_needed l result)) frame_below_result

  abbrev pub validate_timeout : RuntimeLimits → Fields N → ℕ → Result OptionsError (Unit {0})
  validate_timeout l options supervisor_timeout_seconds = do
    timeout ← native_timeout l (get (lit "timeout_seconds") options)
    fail_if
        (not (a.is_finite timeout)
          || (a.less_equal timeout (a.of_nat 0) || a.less (a.of_nat max_timeout_seconds) timeout))
        timeout_out_of_range
    fail_if
        (not (supervisor_timeout_seconds == 0)
          && a.less (a.of_nat supervisor_timeout_seconds) (a.plus timeout (a.of_nat 60)))
        no_time_for_cleanup

  abbrev pub line_option : RuntimeLimits → Fields N → Result OptionsError ℕ
  line_option l options =
      provider_usize_option options (lit "native_max_line_bytes") l.native_max_line_bytes
        max_frame_bytes_ceiling

  abbrev pub result_option : RuntimeLimits → Fields N → Result OptionsError ℕ
  result_option l options =
      provider_usize_option options (lit "native_max_result_bytes") l.native_max_result_bytes
        max_provider_result_bytes_ceiling

  abbrev pub queue_option : RuntimeLimits → Fields N → Result OptionsError ℕ
  queue_option l options =
      provider_usize_option options (lit "native_output_queue_bound") l.native_output_queue_bound
        128

  unfoldable pub validate_provider_options :
      RuntimeLimits → Fields N → ℕ → Result OptionsError (Unit {0})
  unfolding get provider_usize_option
  validate_provider_options l options supervisor_timeout_seconds = do
    line ← line_option l options
    stdout ←
        provider_usize_option options (lit "native_max_stdout_bytes") l.native_max_stdout_bytes
          max_native_stdout_bytes_ceiling
    result ← result_option l options
    stderr ←
        provider_usize_option options (lit "native_max_stderr_bytes") l.native_max_stderr_bytes
          (16 * 1024 * 1024)
    queue ← queue_option l options
    validate_sizes l line stdout result queue
    validate_timeout l options supervisor_timeout_seconds

  -- The limits under which a provider with these options runs leave room for its result's frame and
  -- for its queue of lines.
  pub record OptionsFit (l : RuntimeLimits) (options : Fields N) : Type 0 where
    pub line : ℕ
    pub queue : ℕ
    pub result : ℕ
    pub line_taken : line_option l options ≡ ok line
    pub queue_taken : queue_option l options ≡ ok queue
    pub result_taken : result_option l options ≡ ok result
    pub resident : line * queue ≤ max_native_queue_bytes
    pub escaped : frame_needed l result ≤ l.max_frame_bytes

  validate_sizes-fits :
      (l : RuntimeLimits) (line stdout result queue : ℕ)
      → validate_sizes l line stdout result queue ≡ ok tt
      → (line * queue ≤ max_native_queue_bytes) × (frame_needed l result ≤ l.max_frame_bytes)
  validate_sizes-fits l line stdout result queue h =
      let room = >>=-eq-ok (fail_if (ltb stdout line) stdout_below_line) _ h in
      let product = >>=-eq-ok (fail_if (leb usize_limit (line * queue)) queue_overflows) _ room.2 in
      let resident =
        >>=-eq-ok (fail_if (ltb max_native_queue_bytes (line * queue)) queue_too_large) _
          product.2 in
      let total =
        >>=-eq-ok (fail_if (leb usize_limit (frame_needed l result)) frame_overflows) _
          resident.2 in
      (
        not_ltb _ _ (fail_if-eq-ok (ltb max_native_queue_bytes (line * queue)) _ _ resident.1),
        not_ltb _ _ (fail_if-eq-ok (ltb l.max_frame_bytes (frame_needed l result)) _ _ total.2),
      )

  pub validate_provider_options-OptionsFit :
      (l : RuntimeLimits) (options : Fields N) (supervisor : ℕ)
      → validate_provider_options l options supervisor ≡ ok tt
      → OptionsFit l options
  unfolding validate_provider_options
  validate_provider_options-OptionsFit l options supervisor h =
      let line = >>=-eq-ok (line_option l options) _ h in
      let stdout =
        >>=-eq-ok
          (provider_usize_option options (lit "native_max_stdout_bytes") l.native_max_stdout_bytes
            max_native_stdout_bytes_ceiling)
          _ line.2 in
      let result = >>=-eq-ok (result_option l options) _ stdout.2 in
      let stderr =
        >>=-eq-ok
          (provider_usize_option options (lit "native_max_stderr_bytes") l.native_max_stderr_bytes
            (16 * 1024 * 1024))
          _ result.2 in
      let queue = >>=-eq-ok (queue_option l options) _ stderr.2 in
      let room = >>=-eq-ok (validate_sizes l line.0 stdout.0 result.0 queue.0) _ queue.2 in
      let fits = validate_sizes-fits l line.0 stdout.0 result.0 queue.0 room.1 in
      record {
        line = line.0;
        queue = queue.0;
        result = result.0;
        line_taken = line.1;
        queue_taken = queue.1;
        result_taken = result.1;
        resident = fits.0;
        escaped = fits.1;
      }
