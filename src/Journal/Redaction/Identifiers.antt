-- ===== src/Journal/Redaction/Identifiers.antt =====
-- tactus-runtime/src/journal.rs: which keys are withheld, and which identifiers may be written.
use agenstro.Common.{
  ℕ, ◌+◌, ◌-◌, Bool, false, ◌&&◌, ◌||◌, Option, none, some, is_some_and, List, [], ◌∷◌, map, leb,
  ◌==◌, length, drop, all, if◌then◌else◌,
}
use agenstro.Common.Text.{Text, lit, text_eq, one_of}

abbrev pub to_ascii_lowercase : Text → Text
to_ascii_lowercase = map (λ b. if leb 65 b && leb b 90 then b + 32 else b)

-- `key.to_ascii_lowercase().replace('-', "_")`.
unfoldable pub normalize_key : Text → Text
normalize_key k = map (λ b. if b == 45 then 95 else b) (to_ascii_lowercase k)

unfoldable pub eq_ignore_ascii_case : Text → Text → Bool
eq_ignore_ascii_case s t = text_eq (to_ascii_lowercase s) (to_ascii_lowercase t)

unfoldable pub strip_prefix : Text → Text → Option Text
strip_prefix [] s = some s
strip_prefix (a ∷ p) [] = none
strip_prefix (a ∷ p) (b ∷ s) = if a == b then strip_prefix p s else none

unfoldable pub ends_with : Text → Text → Bool
ends_with s e = leb (length e) (length s) && text_eq (drop (length s - length e) s) e

abbrev pub is_ascii_hexdigit : ℕ → Bool
is_ascii_hexdigit b = (leb 48 b && leb b 57) || (leb 65 b && leb b 70) || (leb 97 b && leb b 102)

abbrev pub sensitive_names : List Text
sensitive_names =
    lit "prompt"
    ∷ lit "goal"
    ∷ lit "text"
    ∷ lit "content"
    ∷ lit "raw"
    ∷ lit "payload"
    ∷ lit "stderr"
    ∷ lit "native_stderr"
    ∷ lit "message"
    ∷ lit "diagnostic"
    ∷ lit "exception"
    ∷ lit "instructions"
    ∷ lit "authorization"
    ∷ lit "password"
    ∷ lit "secret"
    ∷ lit "api_key"
    ∷ lit "access_token"
    ∷ lit "refresh_token"
    ∷ lit "credential"
    ∷ lit "credentials"
    ∷ lit "cookie"
    ∷ lit "environment"
    ∷ lit "extra_env"
    ∷ lit "options"
    ∷ lit "workspace"
    ∷ lit "cwd"
    ∷ lit "path"
    ∷ lit "run_path"
    ∷ []

unfoldable pub sensitive_key : Text → Bool
sensitive_key key =
    let k = normalize_key key in
    one_of sensitive_names k
    || ends_with k (lit "_secret")
    || ends_with k (lit "_password")
    || ends_with k (lit "_credential")

unfoldable pub durable_identifier_key : Text → Bool
durable_identifier_key key =
    one_of (lit "code" ∷ lit "event_type" ∷ lit "id" ∷ lit "method" ∷ lit "type" ∷ [])
      (normalize_key key)

abbrev pub diagnostic_codes : List Text
diagnostic_codes =
    lit "outcome_unknown"
    ∷ lit "plugin.outcome_unknown"
    ∷ lit "plugin.deadline_exceeded"
    ∷ lit "plugin.transport_failed"
    ∷ lit "plugin.protocol_failed"
    ∷ lit "plugin.process_exit_failed"
    ∷ lit "workflow.validation_failed"
    ∷ lit "script_batch_failed"
    ∷ lit "script_preparation_failed"
    ∷ lit "script_supervisor_start_failed"
    ∷ lit "provider_invocation_failed"
    ∷ lit "provider_reported_failure"
    ∷ lit "observer_cleanup_failed"
    ∷ lit "generation_produced_no_script"
    ∷ lit "workspace_inspection_failed"
    ∷ lit "script_batch.requested"
    ∷ lit "script_batch.build_succeeded"
    ∷ lit "script.completed"
    ∷ lit "script.outcome_unknown"
    ∷ lit "script.failed"
    ∷ lit "script_batch.completed"
    ∷ lit "script_batch.outcome_unknown"
    ∷ lit "script_batch.failed"
    ∷ lit "workflow.generation_requested"
    ∷ lit "workflow.generation_completed"
    ∷ lit "workflow.requested"
    ∷ lit "workflow.request.accepted"
    ∷ lit "workflow.control.cancelled"
    ∷ lit "workflow.result.error"
    ∷ lit "workflow.result.exception"
    ∷ lit "workflow.result.success"
    ∷ lit "plugin.request.accepted"
    ∷ lit "plugin.result.failure"
    ∷ lit "plugin.result.success"
    ∷ lit "plugin.result.unknown"
    ∷ lit "plugin.invocation_requested"
    ∷ lit "plugin.dispatch_requested"
    ∷ lit "plugin.deadline_elapsed"
    ∷ lit "plugin.cancellation_requested"
    ∷ lit "plugin.supervision_completed"
    ∷ lit "test.requested"
    ∷ []

abbrev pub invalid_identifier : Text
invalid_identifier = lit "invalid_identifier."

unfoldable pub public_diagnostic_code : Text → Bool
public_diagnostic_code s =
    one_of diagnostic_codes s
    || is_some_and (λ d. length d == 16 && all is_ascii_hexdigit d)
        (strip_prefix invalid_identifier s)

abbrev pub public_methods : List Text
public_methods =
    lit "invoke"
    ∷ lit "smoke"
    ∷ lit "observe.begin"
    ∷ lit "observe.end"
    ∷ lit "snapshot"
    ∷ lit "diff"
    ∷ lit "commit"
    ∷ lit "rollback"
    ∷ lit "run"
    ∷ []

abbrev pub public_types : List Text
public_types =
    lit "event"
    ∷ lit "result"
    ∷ lit "state_transition"
    ∷ lit "message"
    ∷ lit "plugin_event"
    ∷ lit "provider.progress"
    ∷ lit "provider.tool.started"
    ∷ lit "provider.tool.completed"
    ∷ lit "workflow.progress"
    ∷ lit "effect.progress"
    ∷ lit "effect.warning"
    ∷ []

unfoldable pub public_durable_identifier : Text → Text → Bool
public_durable_identifier key s =
    let k = normalize_key key in
    if text_eq k (lit "code")
    then public_diagnostic_code s
    else if text_eq k (lit "method")
    then one_of public_methods s
    else if text_eq k (lit "type")
    then one_of public_types s
    else false
