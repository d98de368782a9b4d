-- ===== src/Daemon.antt =====
-- tactus-runtime/src/daemon.rs: the task daemon. It watches a running entry through a provider, and
-- after a known failure it may apply one small repair and allow a rerun. A path is its text.
pub mod Repair
pub mod Watching
mod Examples
use agenstro.Common.{
  ℕ, Bool, true, false, ◌&&◌, ◌||◌, not, Option, none, some, is_some, Result, ok, err, ◌>>=◌, ◌>>◌,
  fail_if, ok_or, map_err, List, [], ◌∷◌, ◌++◌, ltb, ◌==◌, length, if◌then◌else◌,
}
use agenstro.Common.Text.{Text, lit, is_empty}
use agenstro.Json.{Value, Fields, string, object, get, contains_key, as_str}

pub record DaemonArguments : Type 0 where
  pub daemon_provider : Option Text
  pub daemon_interval_seconds : Option ℕ
  pub daemon_max_retries : Option ℕ
  pub daemon_retry_script : List Text

pub record DaemonConfig : Type 0 where
  pub provider : Option Text
  pub interval_seconds : ℕ
  pub timeout_seconds : ℕ
  pub max_retries : ℕ
  pub retry_scripts : List Text

abbrev pub default_config : DaemonConfig
default_config = record {
  provider = none;
  interval_seconds = 60;
  timeout_seconds = 120;
  max_retries = 1;
  retry_scripts = [];
}

pub data ConfigError : Type 0 where
  wrong_interval wrong_timeout wrong_retries : ConfigError

unfoldable pub validate_config : DaemonConfig → Result ConfigError (Unit {0})
validate_config c = do
  fail_if (c.interval_seconds == 0 || ltb 86400 c.interval_seconds) wrong_interval
  fail_if (ltb c.timeout_seconds 61 || ltb 3600 c.timeout_seconds) wrong_timeout
  fail_if (ltb 10 c.max_retries) wrong_retries
  ok tt

abbrev given {ℓ} : {A : Type ℓ} → Option A → A → A
given none old = old
given (some new) old = new

abbrev given_text : Option Text → Option Text → Option Text
given_text none old = old
given_text (some new) old = some new

unfoldable pub with_arguments : DaemonConfig → DaemonArguments → DaemonConfig
with_arguments c a = record c {
  provider = given_text a.daemon_provider c.provider;
  interval_seconds = given a.daemon_interval_seconds c.interval_seconds;
  max_retries = given a.daemon_max_retries c.max_retries;
  retry_scripts = c.retry_scripts ++ a.daemon_retry_script;
}

-- The names of the lines that were written stand for the log's file; their data is left out.
pub record EventLog : Type 0 where
  pub lines : List Text
  pub degraded : Bool
  pub escalated : Bool

-- The Boolean says whether the line could be written and flushed.
unfoldable pub record_event : Text → Bool → EventLog → EventLog × Bool
record_event name wrote l = (
  record l {
    lines = if wrote then l.lines ++ (name ∷ []) else l.lines;
    degraded = l.degraded || not wrote;
  },
  not (l.degraded || not wrote),
)

-- `EventLog::escalate`.
unfoldable pub note_escalation : Bool → EventLog → EventLog
unfolding record_event
note_escalation wrote l =
    (record_event (lit "daemon.escalated") wrote (record l { escalated = true })).0

pub data Decision : Type 0 where
  continue : Text → Decision
  escalate : Text → Decision
  repair : Text → Text → Text → Decision

abbrev summary_of : Decision → Text
summary_of (Decision.continue s) = s
summary_of (Decision.escalate s) = s
summary_of (Decision.repair s old new) = s

abbrev pub invalid_decision : Text → Text
invalid_decision e = lit "invalid daemon decision: " ++ e

-- `decode_json` of protocol.rs, and what serde derives for `Decision`.
pub record Decoder (N : Type 0) : Type 0 where
  pub decode_json : Text → Result Text (Value N)
  pub from_value : Value N → Result Text Decision

module _ {N : Type 0} where
  abbrev text_member : Fields N → Option Text
  text_member fs = elim (get (lit "text") fs) [ none ↦ none | some v ↦ as_str v ]

  -- A provider may wrap its decision in a text, or in the `text` of an object.
  unfoldable pub unwrap_decision : Decoder N → Value N → Result Text (Value N)
  unwrap_decision c (string s) = map_err invalid_decision (c.decode_json s)
  unwrap_decision c (object fs) =
      let inner = do
        s ← ok_or (text_member fs) (lit "provider response has no JSON decision or text")
        map_err invalid_decision (c.decode_json s)
      in if contains_key (lit "action") fs then ok (object fs) else inner
  unwrap_decision c v = ok v

  unfoldable pub parse_decision : Decoder N → Value N → Result Text Decision
  unfolding unwrap_decision
  parse_decision c v = do
    inner ← unwrap_decision c v
    d ← map_err invalid_decision (c.from_value inner)
    fail_if (is_empty (summary_of d) || ltb 4096 (length (summary_of d)))
        (lit "daemon summary must contain between 1 and 4096 UTF-8 bytes")
    ok d
