-- ===== src/Adapters/Lines.antt =====
-- tactus-runtime/src/adapters.rs: the reader of a provider's standard output, which sends its lines to
-- the supervisor. The receiver is there until the end; what each read gives is an argument.
pub mod Chunks
use agenstro.Common.{
  ℕ, ◌+◌, ◌-◌, min, Bool, true, false, ◌&&◌, not, Option, none, some, List, [], ◌∷◌, ◌++◌, ltb, leb,
  ◌==◌, length, take, if◌then◌else◌,
}
use agenstro.Common.Text.{Text, is_empty}

-- The texts of the messages on limits are left out.
pub data OutputMessage : Type 0 where
  line_read : Text → OutputMessage
  read_error line_limit total_limit end : OutputMessage

-- A read that gives no bytes is the end.
pub data Read : Type 0 where
  chunk : Text → Read
  failed : Read

abbrev pub ends_with_cr : Text → Bool
ends_with_cr [] = false
ends_with_cr (b ∷ []) = b == 13
ends_with_cr (b ∷ c ∷ s) = ends_with_cr (c ∷ s)

-- A carriage return before the newline is dropped.
abbrev pub without_cr : Text → Text
without_cr line = if ends_with_cr line then take (length line - 1) line else line

abbrev pub Scanned : Type 0
Scanned = List OutputMessage × Option Text

abbrev send : OutputMessage → Scanned → Scanned
send m (ms, left) = (m ∷ ms, left)

-- The loop over the bytes of a chunk: its messages, and the line that is left, or nothing when the
-- reader returns.
unfoldable pub scan_bytes : ℕ → Text → Text → Scanned
scan_bytes max_line line [] = ([], some line)
scan_bytes max_line line (b ∷ s) =
    let sent = send (line_read (without_cr line)) (scan_bytes max_line [] s) in
    let longer = scan_bytes max_line (line ++ (b ∷ [])) s in
    let over : Scanned = (line_limit ∷ [], none) in
    if b == 10 then sent else if leb max_line (length line) then over else longer

abbrev pub last_messages : Text → List OutputMessage
last_messages line = if is_empty line then end ∷ [] else line_read line ∷ end ∷ []

abbrev pub continue_with : Scanned → (Text → List OutputMessage) → List OutputMessage
continue_with (ms, none) next = ms
continue_with (ms, some line) next = ms ++ next line

-- The whole reader, after `total` bytes and with this line begun.
unfoldable pub read_lf_lines : ℕ → ℕ → ℕ → Text → List Read → List OutputMessage
unfolding scan_bytes
read_lf_lines max_line max_total total line [] = last_messages line
read_lf_lines max_line max_total total line (failed ∷ reads) = read_error ∷ []
read_lf_lines max_line max_total total line (chunk [] ∷ reads) = last_messages line
read_lf_lines max_line max_total total line (chunk (b ∷ s) ∷ reads) =
    let total' = min (total + length (b ∷ s)) 18446744073709551615 in
    if ltb max_total total'
    then total_limit ∷ []
    else continue_with (scan_bytes max_line line (b ∷ s))
        (λ left. read_lf_lines max_line max_total total' left reads)
