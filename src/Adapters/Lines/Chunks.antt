-- ===== src/Adapters/Lines/Chunks.antt =====
-- The lines do not depend on how the output is cut into reads.
use agenstro.Common.{ℕ, none, some, List, [], ◌∷◌, ◌++◌}
use agenstro.Common.Text.{Text}
use agenstro.Adapters.Lines.{Read, chunk, Scanned, scan_bytes}

-- The reads of an output that is given in these pieces.
abbrev pub reads_of : List (ℕ × Text) → List Read
reads_of [] = []
reads_of ((b, s) ∷ more) = chunk (b ∷ s) ∷ reads_of more

abbrev pub whole : List (ℕ × Text) → Text
whole [] = []
whole ((b, s) ∷ more) = (b ∷ s) ++ whole more

abbrev resumed : ℕ → Text → Scanned → Scanned
resumed m s (ms, none) = (ms, none)
resumed m s (ms, some line) = (ms ++ (scan_bytes m line s).0, (scan_bytes m line s).1)
