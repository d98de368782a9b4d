-- ===== src/Adapters.antt =====
-- tactus-runtime/src/adapters.rs: the adapters of the model providers, which read the native output of
-- a provider's program and turn it into one result.
pub mod Results
pub mod Antigravity
pub mod Native
pub mod Snapshots
pub mod Lines
pub mod Observations
mod Examples
use agenstro.Common.{ℕ, Bool, true, false, Option, none, some}
use agenstro.Common.Text.{Text, lit}
use agenstro.Json.{Value, string, object, end, field}

pub data Provider : Type 0 where
  codex claude_code open_code antigravity : Provider

-- `Provider::name`.
abbrev pub provider_name : Provider → Text
provider_name codex = lit "codex"
provider_name claude_code = lit "claude-code"
provider_name open_code = lit "opencode"
provider_name antigravity = lit "antigravity"

pub record AdapterError (N : Type 0) : Type 0 where
  pub code : Text
  pub message : Text
  pub details : Option (Value N)

unfoldable pub dispatched_provider_failure : {N : Type 0} → Provider → Text → Text → AdapterError N
dispatched_provider_failure p cause message = record {
  code = lit "outcome_unknown";
  message = message;
  details = some (
      object (
        field (lit "provider") (string (provider_name p))
          (field (lit "cause") (string cause) end)));
}
