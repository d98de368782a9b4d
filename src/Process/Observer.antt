-- ===== src/Process/Observer.antt =====
-- tactus-runtime/src/process.rs: the observational callback of `ProcessSupervisor::invoke`. The
-- supervisor sends frames through a bounded channel; the callback's thread receives a frame and
-- then counts it off. The two threads interleave: the moves of the callback's thread are a list.
pub mod Capacity
use agenstro.Common.{
  ℕ, ◌+◌, ◌-◌, ◌++◌, ◌≡◌, Bool, true, false, List, [], ◌∷◌, Option, none, some, leb, length,
  if◌then◌else◌, ◌&&◌, not, ltb,
}
use agenstro.Common.Text.{Text, lit}
use agenstro.Common.Utf8.{cut_at}
use agenstro.Protocol.{PluginFrame}

-- `channel` holds the frames that wait; `queued` is the counter `queued_callbacks`; `holding` says
-- that the callback's thread has received a frame and not yet counted it off; `alive`, that its
-- receiver is there.
pub record Observer (N : Type 0) : Type 0 where
  pub channel : List (PluginFrame N)
  pub queued : ℕ
  pub holding : Bool
  pub alive : Bool

-- One step of the callback's thread: `recv`, `fetch_sub`, or the end of a callback that panicked.
pub data Move : Type 0 where
  take settle stop : Move

pub data Sent : Type 0 where
  sent full disconnected : Sent

module _ {N : Type 0} where
  abbrev pub idle : Observer N
  idle = record { channel = []; queued = 0; holding = false; alive = true }

  abbrev take_one : Observer N → List (PluginFrame N) → Observer N
  take_one o [] = o
  take_one o (f ∷ fs) = record o { channel = fs; holding = true }

  unfoldable pub move : Observer N → Move → Observer N
  move o take = if o.alive && not o.holding then take_one o o.channel else o
  move o settle = if o.holding then record o { queued = o.queued - 1; holding = false } else o
  move o stop = if not o.holding then record o { channel = []; alive = false } else o

  unfoldable pub moves : Observer N → List Move → Observer N
  unfolding move
  moves o [] = o
  moves o (m ∷ ms) = moves (move o m) ms

  -- `fetch_add(1)`, moves of the other thread, then `try_send` with its `fetch_sub(1)` on failure.
  abbrev reserve : Observer N → Observer N
  reserve o = record o { queued = o.queued + 1 }

  abbrev release : Observer N → Observer N
  release o = record o { queued = o.queued - 1 }

  unfoldable pub try_send : ℕ → Observer N → PluginFrame N → Sent × Observer N
  try_send bound o f =
      if not o.alive
      then (disconnected, release o)
      else if leb bound (length o.channel)
      then (full, release o)
      else (sent, record o { channel = o.channel ++ f ∷ [] })

  unfoldable pub offer : ℕ → Observer N → List Move → PluginFrame N → Sent × Observer N
  unfolding moves try_send
  offer bound o ms f = try_send bound (moves (reserve o) ms) f

abbrev max_observation_error_bytes : ℕ
max_observation_error_bytes = 4096

abbrev combined : Option Text → Text → Text
combined none message = message
combined (some existing) message = existing ++ lit "; " ++ message

-- The slot's text never passes 4096 bytes: the suffix "…" has three.
unfoldable pub append_observation_error : Option Text → Text → Option Text
append_observation_error slot message =
    let text = combined slot message in
    if leb (length text) max_observation_error_bytes
    then some text
    else some (cut_at text (max_observation_error_bytes - 3))
