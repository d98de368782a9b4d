-- ===== src/Process/Readers/Examples.antt =====
-- The theorem of `Process.Readers.Capture` at a stream of two chunks.
use agenstro.Common.{◌≡◌, ok, [], false, true}
use agenstro.Common.Text.{lit}
use agenstro.Process.Readers.{Reads, eof, chunk, capture_stderr_reader, capture_command_stderr}
use agenstro.Process.Readers.Capture.{captures_exact}

abbrev noise : Reads
noise = chunk (lit "panic") (chunk (lit "ked") eof)

captures_exact_example :
    (capture_stderr_reader 6 noise ≡ ok (record { bytes = lit "panick"; truncated = true }))
    × (capture_command_stderr 6 ([], false) noise ≡ (ok true, lit "nicked"))
captures_exact_example = captures_exact 6 noise tt
