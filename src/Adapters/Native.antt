-- ===== src/Adapters/Native.antt =====
-- tactus-runtime/src/adapters.rs: the native output of a provider, line by line. The counters of
-- `ProviderEventDiagnostics` and the opt-in viewer are left out.
use agenstro.Common.{
  ℕ, Bool, true, false, ◌&&◌, ◌||◌, Option, none, some, is_some_and, Result, ok, ◌>>=◌, ◌>>◌,
  map_err, List, [], ◌∷◌, ◌++◌, length, if◌then◌else◌,
}
use agenstro.Common.Text.{Text, lit}
use agenstro.Common.Search.{starts_with}
use agenstro.Json.{Value, Items, number, string, array, object, nil, cons, end, field}
use agenstro.Adapters.{
  Provider, codex, claude_code, open_code, antigravity, provider_name, AdapterError,
  dispatched_provider_failure,
}
use agenstro.Adapters.Results.{
  ProviderResultAccumulator, observe_fragments, observe_final, observe_reported_failure,
}
use agenstro.Adapters.Antigravity.{
  AntigravityStream, Decoders, member, index, text_member, is_text, is_true, observe_stream,
}

abbrev prepend : Option Text → List Text → List Text
prepend none ts = ts
prepend (some t) ts = t ∷ ts

abbrev or_else : Option Text → Option Text → Option Text
or_else (some t) other = some t
or_else none other = other

abbrev to_list : Option Text → List Text
to_list none = []
to_list (some t) = t ∷ []

-- The stream of Antigravity and the result, as a line leaves them.
abbrev pub Observing : Type 0
Observing = AntigravityStream × ProviderResultAccumulator

-- The caller has checked that there is a response.
abbrev text_or_nothing : Option Text → Text
text_or_nothing none = []
text_or_nothing (some t) = t

abbrev observe_texts : List Text × Option Text → Observing → Observing
observe_texts (ts, none) (s, r) = (s, observe_fragments ts r)
observe_texts (ts, some t) (s, r) = (s, observe_final t (observe_fragments ts r))

abbrev note_error : Bool → Observing → Observing
note_error b (s, r) = if b then (s, observe_reported_failure r) else (s, r)

module _ {N : Type 0} where
  -- The members of a value that must be an object.
  abbrev texts_of : Items N → List Text
  texts_of nil = []
  texts_of (cons part more) =
      let rest = texts_of more in
      let first = prepend (text_member (lit "text") part) rest in
      if is_text (lit "text") (text_member (lit "type") part) then first else rest

  abbrev array_texts : Value N → List Text
  array_texts (array xs) = texts_of xs
  array_texts _ = []

  unfoldable pub provider_event_text : Provider → Value N → List Text × Option Text
  provider_event_text codex raw =
      let item = index (lit "item") raw in
      let message : List Text × Option Text = ([], text_member (lit "text") item) in
      if is_text (lit "item.completed") (text_member (lit "type") raw)
        && is_text (lit "agent_message") (text_member (lit "type") item)
      then message
      else ([], none)
  provider_event_text claude_code raw =
      let result : List Text × Option Text = ([], text_member (lit "result") raw) in
      let spoken : List Text × Option Text =
        (array_texts (index (lit "content") (index (lit "message") raw)), none) in
      if is_text (lit "result") (text_member (lit "type") raw)
      then result
      else if is_text (lit "assistant") (text_member (lit "type") raw)
      then spoken
      else ([], none)
  provider_event_text open_code raw =
      let said : List Text × Option Text = (
        to_list (
            or_else (text_member (lit "text") (index (lit "part") raw))
              (text_member (lit "text") raw)),
        none,
      ) in
      if is_text (lit "text") (text_member (lit "type") raw) then said else ([], none)
  provider_event_text antigravity raw = ([], none)

  abbrev is_reported_error : Provider → Value N → Bool
  is_reported_error claude_code raw =
      is_text (lit "result") (text_member (lit "type") raw)
      && (is_true (member (lit "is_error") raw)
          || is_some_and (starts_with (lit "error_")) (text_member (lit "subtype") raw))
  is_reported_error _ raw = false

  abbrev invalid_utf8 : Decoders N → Provider → ℕ → AdapterError N
  invalid_utf8 c p valid_up_to = record {
    code = lit "outcome_unknown";
    message =
        provider_name p
        ++ lit " may have completed externally before emitting invalid UTF-8 output";
    details = some (
        object (
          field (lit "provider") (string (provider_name p)) (
            field (lit "cause") (string (lit "native_output_invalid_utf8"))
              (field (lit "valid_up_to") (number (c.from_usize valid_up_to)) end))));
  }

  abbrev malformed : Decoders N → Provider → Text → Text → AdapterError N
  malformed c p line reason = record {
    code = lit "outcome_unknown";
    message =
        provider_name p
        ++ lit " may have completed externally before emitting malformed JSON output";
    details = some (
        object (
          field (lit "provider") (string (provider_name p)) (
            field (lit "cause") (string (lit "native_output_malformed_json")) (
              field (lit "line_bytes") (number (c.from_usize (length line)))
                (field (lit "reason") (string reason) end)))));
  }

  abbrev pub observe_turn :
      Value N → AntigravityStream × Option Bool → ProviderResultAccumulator → Observing
  observe_turn raw (s, none) r = (s, r)
  observe_turn raw (s, some true) r = (s, observe_reported_failure r)
  observe_turn raw (s, some false) r = (
    s,
    observe_final (text_or_nothing (text_member (lit "response") (index (lit "result") raw))) r,
  )

  abbrev pub observe_antigravity : Decoders N → Text → Observing → Result (AdapterError N) Observing
  observe_antigravity c line (s, r) = do
    raw ←
        map_err
          (λ e.
            dispatched_provider_failure antigravity (lit "native_output_malformed_json")
              (lit "Antigravity emitted malformed or duplicate-key JSON"))
          (c.decode_json line)
    turn ← observe_stream c s raw
    ok (observe_turn raw turn r)

  abbrev pub observe_json : Provider → Value N → Observing → Observing
  observe_json p raw o =
      observe_texts (provider_event_text p raw) (note_error (is_reported_error p raw) o)

  abbrev observe_other :
      Decoders N → Provider → Text → Observing → Result (AdapterError N) Observing
  observe_other c p line o = do
    raw ← map_err (malformed c p line) (c.from_str line)
    ok (observe_json p raw o)

  abbrev observe_line : Decoders N → Provider → Text → Observing → Result (AdapterError N) Observing
  observe_line c antigravity line o = observe_antigravity c line o
  observe_line c p line o = observe_other c p line o

  unfoldable pub observe_provider_output :
      Decoders N → Provider → Text → Observing → Result (AdapterError N) Observing
  unfolding observe_stream provider_event_text
  observe_provider_output c p line o = do
    map_err (invalid_utf8 c p) (c.from_utf8 line)
    if c.is_blank line then ok o else observe_line c p line o
