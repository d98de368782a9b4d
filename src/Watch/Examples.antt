-- ===== src/Watch/Examples.antt =====
-- The theorems on the live buffer at one run's three packets, one of them late.
use agenstro.Common.{◌⊎◌, true, ℕ, ◌≡◌, ◌≤◌, false, none, some, List, [], ◌∷◌, arith, length}
use agenstro.Common.Text.{lit}
use agenstro.Watch.{Packet, LiveBuffer, new_buffer, push_all, page, max_page_events}
use agenstro.Watch.Buffer.{IsWellFormed, push_all-IsWellFormed}
use agenstro.Watch.Pages.{between, reaches, page-between}

abbrev packet : ℕ → Packet
packet n = record {
  token = lit "t";
  run_id = lit "run-1";
  parent_run_id = none;
  provider = lit "p";
  source_seq = n;
  kind = lit "text.delta";
  text = lit "hello";
  truncated = false;
}

abbrev packets : List (Packet × ℕ)
packets = (packet 1, 10) ∷ (packet 3, 11) ∷ (packet 2, 12) ∷ []

push_all-IsWellFormed_example : IsWellFormed (push_all packets new_buffer)
push_all-IsWellFormed_example = push_all-IsWellFormed packets (omega arith)

abbrev buffer : LiveBuffer
buffer = push_all packets new_buffer

page-between_example :
    ((page 1 (some (lit "run-1")) buffer).events
      ≡ between 1
          (page 1 (some (lit "run-1")) buffer).next_after
          (some (lit "run-1"))
          buffer.events)
    × (1 ≤ (page 1 (some (lit "run-1")) buffer).next_after)
    × (length (page 1 (some (lit "run-1")) buffer).events ≤ max_page_events)
    × ((length (page 1 (some (lit "run-1")) buffer).events ≡ max_page_events)
        ⊎ (reaches (page 1 (some (lit "run-1")) buffer).next_after buffer.events ≡ true))
page-between_example =
    page-between buffer 1 (some (lit "run-1")) (push_all-IsWellFormed packets (omega arith))
