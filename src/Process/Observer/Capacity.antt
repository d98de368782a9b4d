-- ===== src/Process/Observer/Capacity.antt =====
-- The room in the observer's channel, whatever the interleaving of the two threads.
use agenstro.Common.Text.{Text, lit}
use agenstro.Common.Utf8.{length-cut_at}
use agenstro.Protocol.{PluginFrame}
use agenstro.Common.{
  ℕ, ◌+◌, ◌≤◌, ◌<◌, ◌-◌, ◌≡◌, ◌≢◌, List, [], ◌∷◌, ◌++◌, Option, none, some, arith, length,
  length-append, true, false, Bool,
}
use agenstro.Process.Observer.{
  Observer, Move, take, settle, stop, full, move, moves, try_send, offer, append_observation_error,
}

abbrev pub held : Bool → ℕ
held true = 1
held false = 0

module _ {N : Type 0} where
  -- The counter covers the frames that wait, the one being counted off, and `k` more.
  pub record IsCovered (k : ℕ) (o : Observer N) : Type 0 where
    pub covered : length o.channel + held o.holding + k ≤ o.queued

  move-IsCovered : (k : ℕ) (o : Observer N) (m : Move) → IsCovered k o → IsCovered k (move o m)
  unfolding move
  move-IsCovered k o take h = ground arith
  move-IsCovered k o settle h = ground arith
  move-IsCovered k o stop h = ground arith

  queued-move-le : (o : Observer N) (m : Move) → (move o m).queued ≤ o.queued
  unfolding move
  queued-move-le o take = ground arith
  queued-move-le o settle = ground arith
  queued-move-le o stop = ground arith

  pub moves-IsCovered :
      (k : ℕ) (o : Observer N) (ms : List Move) → IsCovered k o → IsCovered k (moves o ms)
  unfolding moves
  moves-IsCovered k o [] h = h
  moves-IsCovered k o (m ∷ ms) h = moves-IsCovered k (move o m) ms (move-IsCovered k o m h)

  pub queued-moves-le : (o : Observer N) (ms : List Move) → (moves o ms).queued ≤ o.queued
  unfolding moves
  queued-moves-le o [] = omega arith
  queued-moves-le o (m ∷ ms) = omega (arith, queued-move-le o m, queued-moves-le (move o m) ms)

  try_send-IsCovered :
      (bound : ℕ) (o : Observer N) (f : PluginFrame N)
      → IsCovered 1 o
      → IsCovered 0 (try_send bound o f).1
  unfolding try_send
  try_send-IsCovered bound o f h = ground (arith, length-append o.channel (f ∷ []))

  queued-try_send-le :
      (bound : ℕ) (o : Observer N) (f : PluginFrame N) → (try_send bound o f).1.queued ≤ o.queued
  unfolding try_send
  queued-try_send-le bound o f = ground arith

  try_send-not_full :
      (bound : ℕ) (o : Observer N) (f : PluginFrame N)
      → length o.channel < bound
      → (try_send bound o f).0 ≢ full
  unfolding try_send
  try_send-not_full bound o f h = ground arith

  reserved : Observer N → Observer N
  reserved o = record o { queued = o.queued + 1 }

  reserved-IsCovered : (o : Observer N) → IsCovered 0 o → IsCovered 1 (reserved o)
  unfolding reserved
  reserved-IsCovered o h = omega arith

  pub offer-IsCovered :
      (bound : ℕ) (o : Observer N) (ms : List Move) (f : PluginFrame N)
      → IsCovered 0 o
      → IsCovered 0 (offer bound o ms f).1
  unfolding offer reserved
  offer-IsCovered bound o ms f h =
      try_send-IsCovered bound _ f (moves-IsCovered 1 _ ms (reserved-IsCovered o h))

  pub queued-offer-le :
      (bound : ℕ) (o : Observer N) (ms : List Move) (f : PluginFrame N)
      → (offer bound o ms f).1.queued ≤ o.queued + 1
  unfolding offer
  queued-offer-le bound o ms f = omega (
    arith,
    queued-try_send-le bound (moves (record o { queued = o.queued + 1 }) ms) f,
    queued-moves-le (record o { queued = o.queued + 1 }) ms,
  )

  -- A frame offered while fewer than `bound` frames are counted finds room.
  pub offer-not_full :
      (bound : ℕ) (o : Observer N) (ms : List Move) (f : PluginFrame N)
      → IsCovered 0 o
      → o.queued < bound
      → (offer bound o ms f).0 ≢ full
  unfolding offer reserved
  offer-not_full bound o ms f h room =
      let c = moves-IsCovered 1 _ ms (reserved-IsCovered o h) in
      try_send-not_full bound _ f
        (omega (arith, c.covered, queued-moves-le (record o { queued = o.queued + 1 }) ms))

-- A diagnostic of the observer stays within its 4096 bytes, whatever was in the slot.
pub append_observation_error-le :
    (slot : Option Text) (message t : Text)
    → append_observation_error slot message ≡ some t
    → length t ≤ 4096
unfolding append_observation_error
append_observation_error-le none message t h = ground (arith, length-cut_at message (4096 - 3))
append_observation_error-le (some e) message t h =
    ground (arith, length-cut_at (e ++ lit "; " ++ message) (4096 - 3))
