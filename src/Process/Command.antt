-- ===== src/Process/Command.antt =====
-- tactus-runtime/src/process.rs: the outcome of a command that is no plugin, such as GHC or Cabal. An
-- `i32` exit code is its bit pattern.
use agenstro.Common.{
  ℕ, ◌-◌, ◌^◌, Bool, true, false, ◌&&◌, Option, is_some_and, ltb, ◌==◌, if◌then◌else◌,
}
use agenstro.Common.Text.{Text}

pub data CommandKind : Type 0 where
  exited deadline_exceeded cancelled runtime_failed : CommandKind

pub record CommandOutcome : Type 0 where
  pub kind : CommandKind
  pub exit_code : Option ℕ
  pub error : Option Text
  pub elapsed_ms : ℕ

abbrev pub is_exited : CommandKind → Bool
is_exited exited = true
is_exited _ = false

-- `CommandOutcome::is_success`.
unfoldable pub is_success : CommandOutcome → Bool
is_success o = is_exited o.kind && is_some_and (λ c. c == 0) o.exit_code

-- The sign of an `i32`, and `Ord::max`.
abbrev pub is_negative : ℕ → Bool
is_negative c = ltb (2 ^ 31 - 1) c

abbrev pub max_i32 : ℕ → ℕ → ℕ
max_i32 a b =
    if is_negative a
    then (if is_negative b then (if ltb a b then b else a) else b)
    else if is_negative b
    then a
    else if ltb a b
    then b
    else a
