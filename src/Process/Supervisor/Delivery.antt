-- ===== src/Process/Supervisor/Delivery.antt =====
-- What the observer of an invocation is told, whatever the readings of its rounds.
use agenstro.Common.{ℕ, ◌-◌, ◌≤◌, ◌≡◌, ◌⊎◌, false, Option, none, some, is_some, ok, err, arith}
use agenstro.Common.Text.{Text}
use agenstro.Protocol.{PluginFrame, event, result, FrameSequence, ProtocolFault, accept, is_result}
use agenstro.Process.Observer.{Observer}
use agenstro.Process.Observer.Capacity.{IsCovered}
use agenstro.Process.Supervisor.{Loop, stopped_message}

module _ {N : Type 0} where
  -- Before the terminal frame the queue keeps a slot free; after it, nothing but a stopped
  -- observer can have been reported.
  pub record KeepsSlot (bound : ℕ) (o : Observer N) (s : FrameSequence N) (e : Option Text)
      : Type 0 where
    pub covered : IsCovered 0 o
    pub slot : is_some s.terminal ≡ false → (o.queued ≤ bound - 1) × (e ≡ none)
    pub reported : (e ≡ none) ⊎ (e ≡ some stopped_message)

  abbrev Inv : ℕ → Loop N → Type 0
  Inv bound l = KeepsSlot bound l.observer l.sequence l.observation_error

  -- An accepted frame was the request's and came before the terminal; it is the terminal exactly if
  -- it is a result.
  pub accept_ok :
      (s : FrameSequence N) (f : PluginFrame N)
      → (accept s f).0 ≡ ok tt
      → (is_some s.terminal ≡ false) × (is_some (accept s f).1.terminal ≡ is_result f)
  unfolding accept
  accept_ok s (event i e) h = ground arith
  accept_ok s (result i o v e) h = ground arith

  -- A refused frame leaves the sequence as it was.
  pub accept_err :
      (s : FrameSequence N) (f : PluginFrame N) {e : ProtocolFault}
      → (accept s f).0 ≡ err e
      → (accept s f).1 ≡ s
  unfolding accept
  accept_err s (event i x) h = ground arith
  accept_err s (result i o v x) h = ground arith
