-- ===== src/Adapters/Results.antt =====
-- tactus-runtime/src/adapters.rs: the accumulator of a provider's result, which keeps no more text
-- than the result may have.
pub mod Candidates
use agenstro.Common.{
  ℕ, suc, ◌+◌, min, Bool, true, false, ◌&&◌, ◌||◌, not, Option, none, some, is_some, Result, ok,
  err, map_err, List, [], ◌∷◌, ◌++◌, ltb, ◌==◌, length, if◌then◌else◌,
}
use agenstro.Common.Text.{Text, lit}
use agenstro.Json.{Value, number, string, object, end, field}
use agenstro.Adapters.{
  Provider, codex, claude_code, open_code, antigravity, provider_name, AdapterError,
}

pub data ProviderResultKind : Type 0 where
  plain fragments final : ProviderResultKind

abbrev pub is_plain : ProviderResultKind → Bool
is_plain plain = true
is_plain _ = false

abbrev pub is_fragments : ProviderResultKind → Bool
is_fragments fragments = true
is_fragments _ = false

abbrev pub is_final : ProviderResultKind → Bool
is_final final = true
is_final _ = false

pub record ProviderResultOverflow : Type 0 where
  pub result_bytes_at_least : ℕ
  pub max_result_bytes : ℕ

-- Its field `antigravity` stands beside it, in `Observing` of Native.
pub record ProviderResultAccumulator : Type 0 where
  pub kind : ProviderResultKind
  pub text : Text
  pub items : ℕ
  pub observed_bytes : ℕ
  pub max_result_bytes : ℕ
  pub overflow : Option ProviderResultOverflow
  pub reported_failure : Bool

abbrev pub usize_max : ℕ
usize_max = 18446744073709551615

unfoldable pub new_result : ℕ → ProviderResultAccumulator
new_result m = record {
  kind = plain;
  text = [];
  items = 0;
  observed_bytes = 0;
  max_result_bytes = m;
  overflow = none;
  reported_failure = false;
}

-- The two additions with `checked_add` give `usize::MAX` when one of them overflows.
unfoldable pub append : Text → Text → ProviderResultAccumulator → ProviderResultAccumulator
append text separator r =
    let separator' = if r.items == 0 then [] else separator in
    let next_size = min (r.observed_bytes + length separator' + length text) usize_max in
    let r' : ProviderResultAccumulator = record r {
      items = min (suc r.items) usize_max;
      observed_bytes = next_size;
    } in
    if ltb r.max_result_bytes next_size
    then record r' {
      text = [];
      overflow =
          some
            (record { result_bytes_at_least = next_size; max_result_bytes = r.max_result_bytes });
    }
    else record r' { text = r.text ++ (separator' ++ text) }

unfoldable pub reset : ProviderResultKind → ProviderResultAccumulator → ProviderResultAccumulator
reset k r = record r { kind = k; text = []; items = 0; observed_bytes = 0; overflow = none }

-- The loop of `observe_fragments`.
unfoldable pub append_fragments : List Text → ProviderResultAccumulator → ProviderResultAccumulator
append_fragments [] r = r
append_fragments (t ∷ ts) r =
    let r' = append t [] r in
    let rest = append_fragments ts r' in if is_some r'.overflow then r' else rest

abbrev pub start_fragments : ProviderResultAccumulator → ProviderResultAccumulator
start_fragments r = if is_plain r.kind then reset fragments r else r

unfoldable pub observe_fragments : List Text → ProviderResultAccumulator → ProviderResultAccumulator
observe_fragments [] r = r
observe_fragments (t ∷ ts) r =
    let r' = start_fragments r in
    if not (is_fragments r'.kind) || is_some r'.overflow then r' else append_fragments (t ∷ ts) r'

unfoldable pub observe_final : Text → ProviderResultAccumulator → ProviderResultAccumulator
observe_final text r = append text [] (reset final r)

unfoldable pub observe_reported_failure : ProviderResultAccumulator → ProviderResultAccumulator
observe_reported_failure r = record r { reported_failure = true }

abbrev pub finish_with : Option ProviderResultOverflow → Text → Result ProviderResultOverflow Text
finish_with none text = ok text
finish_with (some o) text = err o

-- `ProviderResultAccumulator::finish`.
unfoldable pub finish : ProviderResultAccumulator → Result ProviderResultOverflow Text
finish r = finish_with r.overflow r.text

abbrev pub authoritative_kind : Provider → ProviderResultKind → Bool
authoritative_kind open_code k = not (is_plain k)
authoritative_kind _ k = is_final k

unfoldable pub has_authoritative_result : Provider → ProviderResultAccumulator → Bool
has_authoritative_result p r = ltb 0 r.items && authoritative_kind p r.kind

module _ {N : Type 0} (from_usize : ℕ → N) where
  unfoldable pub finish_provider_result :
      Provider → ProviderResultAccumulator → Result (AdapterError N) Text
  finish_provider_result p r =
      map_err
        (λ o. record {
          code = lit "outcome_unknown";
          message =
              provider_name p ++ lit " completed but its result exceeded the host transport budget";
          details = some (
              object (
                field (lit "provider") (string (provider_name p)) (
                  field (lit "cause") (string (lit "provider_result_limit")) (
                    field (lit "result_bytes_at_least")
                      (number (from_usize o.result_bytes_at_least))
                      (field (lit "max_result_bytes") (number (from_usize o.max_result_bytes))
                        end)))));
        })
        (finish r)

  abbrev pub recognized :
      Bool → Result (AdapterError N) Text → Result (AdapterError N) (Text × Bool × Bool)
  recognized b (err e) = err e
  recognized b (ok text) = ok (text, b, false)

  unfoldable pub finalize_provider_result :
      Provider → ProviderResultAccumulator → Result (AdapterError N) (Text × Bool × Bool)
  finalize_provider_result p r =
      if r.reported_failure
      then ok ([], true, true)
      else recognized (has_authoritative_result p r) (finish_provider_result p r)
