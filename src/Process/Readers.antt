-- ===== src/Process/Readers.antt =====
-- tactus-runtime/src/process.rs: the workers that drain the child's stdout and stderr. What the
-- operating system returns for the reads is a list of chunks, the last of which is the end of the
-- stream or an error.
pub mod Capture
mod Examples
use agenstro.Common.{
  ℕ, ◌+◌, ◌-◌, ◌==◌, ltb, leb, min, Bool, true, false, ◌||◌, not, Option, none, some, List, [], ◌∷◌,
  ◌++◌, length, take, drop, Result, ok, err, if◌then◌else◌,
}
use agenstro.Common.Text.{Text, lit}
use agenstro.Protocol.{PluginFrame, ProtocolFault, invalid_json}
use agenstro.Process.Invocation.{CapturedStderr}
use agenstro.Process.Supervisor.{ReaderMessage, frame, fault, runtime, end}

-- The reads of a stream: chunks, then its end or an error.
pub data Reads : Type 0 where
  eof : Reads
  failed : Text → Reads
  chunk : Text → Reads → Reads

-- One round of `capture_stderr_reader`.
abbrev pub retain : ℕ → CapturedStderr → Text → CapturedStderr
retain limit c bytes =
    let retained = min (limit - length c.bytes) (length bytes) in
    record {
      bytes = c.bytes ++ take retained bytes;
      truncated = c.truncated || ltb retained (length bytes);
    }

unfoldable pub capture_stderr_loop : ℕ → CapturedStderr → Reads → Result Text CapturedStderr
capture_stderr_loop limit c eof = ok c
capture_stderr_loop limit c (failed e) = err (lit "cannot read plugin stderr: " ++ e)
capture_stderr_loop limit c (chunk bytes rest) =
    capture_stderr_loop limit (retain limit c bytes) rest

unfoldable pub capture_stderr_reader : ℕ → Reads → Result Text CapturedStderr
unfolding capture_stderr_loop
capture_stderr_reader limit = capture_stderr_loop limit (record { bytes = []; truncated = false })

-- One round of `capture_command_stderr` on the shared tail.
unfoldable pub retain_tail : ℕ → Text × Bool → Text → Text × Bool
retain_tail limit (tail, truncated) bytes =
    if leb limit (length bytes)
    then (
      drop (length bytes - limit) bytes,
      truncated || not (length tail == 0) || ltb limit (length bytes),
    )
    else let excess = length tail + length bytes - limit in
      (drop excess tail ++ bytes, truncated || ltb 0 excess)

-- The result, and the shared tail as it was left: `Ok` says whether bytes were dropped from it.
unfoldable pub capture_command_stderr : ℕ → Text × Bool → Reads → Result Text Bool × Text
capture_command_stderr limit (tail, truncated) eof = (ok truncated, tail)
capture_command_stderr limit (tail, truncated) (failed e) = (err e, tail)
capture_command_stderr limit (tail, truncated) (chunk bytes rest) =
    capture_command_stderr limit (retain_tail limit (tail, truncated) bytes) rest
