-- ===== src/Process/Supervisor/Stopping.antt =====
-- When a cancelled or overdue invocation ends its loop, and when it does not.
use agenstro.Common.{
  ◌+◌, ◌≤◌, ◌≡◌, refl, Bool, true, false, none, some, is_some, Result, ok, err, ◌∙◌, List, [], ◌∷◌,
  arith, ◌||◌, ◌&&◌, ◌++◌, ◌⊎◌, inl, inr, Bool-cases, sym, subst, if◌then◌else◌,
}
use agenstro.Common.Text.{Text, lit}
use agenstro.Process.{runtime_failed}
use agenstro.Protocol.{
  RequestId, PluginEvent, PluginFrame, ProtocolFault, FrameSequence, event, result, accept,
  is_result,
}
use agenstro.Protocol.Conformance.{request_id_eq_refl}
use agenstro.Process.Supervisor.{
  Tick, message, ReaderMessage, Loop, Supervision, govern, handle, deliver, poll, terminate, round,
  running, supervise, receive_frame, rest_of_round, accepted, observe, Receive, reaped,
  is_cancelled, ExitStatus,
}

module _ {N : Type 0} where
  -- A round in which the reader hands over one more event of the request.
  pub record Floods (i : RequestId) (t : Tick N) : Type 0 where
    pub payload : PluginEvent N
    pub arrives : t.received ≡ message (ReaderMessage.frame (event i payload))

  abbrev pub AllFlood : RequestId → List (Tick N) → Type 0
  AllFlood i [] = Unit
  AllFlood i (t ∷ ts) = Floods i t × AllFlood i ts

  -- What the loop keeps of a termination and its wait: the exit status, or that it failed.
  abbrev pub IsReaped : Result Text ExitStatus → Loop N → Type 0
  IsReaped (ok s) l = l.status ≡ some s
  IsReaped (err e) l =
      (l.forced ≡ some runtime_failed) × (l.failure ≡ some (lit "cannot reap failed plugin: " ++ e))

  reaped-IsReaped : (q : Result Text ExitStatus) (l : Loop N) → IsReaped q (reaped q l)
  reaped-IsReaped (ok s) l = refl
  reaped-IsReaped (err e) l = (refl, refl)

  abbrev termination : Tick N → Loop N → Result Text ExitStatus
  termination t l = if is_cancelled l.forced && t.immediate then t.hard_kill else t.kill

  termination-kind :
      (t : Tick N) (l : Loop N)
      → (termination t l ≡ t.kill) ⊎ ((termination t l ≡ t.hard_kill) × (t.immediate ≡ true))
  termination-kind t l = elim (Bool-cases (is_cancelled l.forced && t.immediate)) [
    | inl now ↦ (rw now (inr (refl, ground (arith, now))))
    | inr graceful ↦ rw graceful (inl refl)
  ]

  rest_reaps :
      (t : Tick N) (l : Loop N)
      → is_some l.forced ≡ true
      → l.termination_attempted ≡ false
      → (rest_of_round t (l, false)).0 ≡ reaped (termination t l) l
  unfolding poll terminate
  rest_reaps t l f a = ground arith

module _ {N : Type 0} (c : Supervision) where
  -- In a round that is told to stop, the whole group is terminated and the loop is over, unless the
  -- round dropped an event.
  rest_stops :
      (t : Tick N) (l : Loop N)
      → is_some l.forced ≡ true
      → l.termination_attempted ≡ false
      → let (l', broke) = rest_of_round t (l, false) in
        (broke ≡ true)
        × (l'.termination_attempted ≡ true)
        × (l'.child_done ≡ true)
        × (is_some l'.forced ≡ true)
  unfolding poll terminate
  rest_stops t l f a = ground arith

  pub deliver_keeps :
      (t : Tick N) (f : PluginFrame N) (l : Loop N)
      → let l' = (deliver c t f l).0 in
        (l'.forced ≡ l.forced)
        × (l'.termination_attempted ≡ l.termination_attempted)
        × (l'.child_done ≡ l.child_done)
        × (l'.stdout_done ≡ l.stdout_done)
  unfolding deliver
  deliver_keeps t (event i e) l = ground arith
  deliver_keeps t (result i o v e) l = ground arith

  handle_keeps :
      (t : Tick N) (r : Receive N) (l : Loop N)
      → is_some l.forced ≡ true
      → (is_some (handle c t r l).0.forced ≡ true)
        × ((handle c t r l).0.termination_attempted ≡ l.termination_attempted)
  unfolding handle
  handle_keeps t (Receive.frame f) l h = frame_keeps (accept l.sequence f) refl
    where
      frame_keeps :
          (r : Result ProtocolFault (Unit {0}) × FrameSequence N)
          → accept l.sequence f ≡ r
          → (is_some (accepted c t f l r).0.forced ≡ true)
            × ((accepted c t f l r).0.termination_attempted ≡ l.termination_attempted)
      frame_keeps (ok u, s) p =
          ground
            (arith, deliver_keeps t f (observe t.now (is_result f) (record l { sequence = s })))
      frame_keeps (err e, s) p = ground arith
  handle_keeps t (Receive.fault e) l h = ground arith
  handle_keeps t (Receive.runtime e) l h = ground arith
  handle_keeps t Receive.end l h = ground arith
  handle_keeps t Receive.disconnected l h = ground arith
  handle_keeps t Receive.pending l h = ground arith

  govern_stops :
      (t : Tick N) (l : Loop N)
      → (t.cancel || t.deadline) ≡ true
      → (is_some (govern t l).forced ≡ true)
        × ((govern t l).termination_attempted ≡ l.termination_attempted)
  unfolding govern
  govern_stops t l h = ground arith

  round_stops :
      (t : Tick N) (l : Loop N) (x : Loop N × Bool)
      → x.1 ≡ false
      → is_some x.0.forced ≡ true
      → x.0.termination_attempted ≡ false
      → let (l', broke) = rest_of_round t x in
        (broke ≡ true)
        × (l'.termination_attempted ≡ true)
        × (l'.child_done ≡ true)
        × (is_some l'.forced ≡ true)
  round_stops t l (y, true) b f a = cc
  round_stops t l (y, false) b f a = rest_stops t y f a

  round_reaps :
      (t : Tick N) (x : Loop N × Bool)
      → x.1 ≡ false
      → is_some x.0.forced ≡ true
      → x.0.termination_attempted ≡ false
      → IsReaped (termination t x.0) (rest_of_round t x).0
  round_reaps t (y, true) b f a = cc
  round_reaps t (y, false) b f a =
      subst (IsReaped (termination t y)) (sym (rest_reaps t y f a))
        (reaped-IsReaped (termination t y) y)

  -- A running supervision ends in the first round that finds it cancelled or past its deadline, in
  -- which no event is dropped. By then the termination of the process group was attempted, gently, or
  -- at once if that was asked for, and the outcome's kind is forced. The loop takes the child for done whatever came of
  -- the attempt: the exit status that the wait gave is kept, and where the kill or the wait failed,
  -- so that the child may live on, the kind is `RuntimeFailed` with that reason.
  pub stop_ends :
      (t : Tick N) (ts : List (Tick N)) (l : Loop N)
      → running l ≡ true
      → l.termination_attempted ≡ false
      → (t.cancel || t.deadline) ≡ true
      → (handle c t (receive_frame t.received) (govern t l)).1 ≡ false
      → (l' : Loop N) × (q : Result Text ExitStatus) × (supervise c (t ∷ ts) l ≡ some l')
        × (l'.termination_attempted ≡ true)
        × (l'.child_done ≡ true)
        × (is_some l'.forced ≡ true)
        × ((q ≡ t.kill) ⊎ ((q ≡ t.hard_kill) × (t.immediate ≡ true)))
        × IsReaped q l'
  unfolding supervise round
  stop_ends t ts l r a s d =
      let g = govern_stops t l s in
      let k = handle_keeps t (receive_frame t.received) (govern t l) g.0 in
      let x =
        round_stops t l (handle c t (receive_frame t.received) (govern t l)) d k.0
          (k.1 ∙ g.1 ∙ a) in
      let handled = (handle c t (receive_frame t.received) (govern t l)).0 in
      let q = termination t handled in
      let kept =
        round_reaps t (handle c t (receive_frame t.received) (govern t l)) d k.0 (k.1 ∙ g.1 ∙ a) in
      ((round c t l).0, q, rw (r, x.0) refl, x.1, x.2, x.3, termination-kind t handled, kept)

  -- What a flooded supervision looks like between two rounds.
  pub record IsFlooded (i : RequestId) (l : Loop N) : Type 0 where
    pub same_id : l.sequence.expected_id ≡ i
    pub no_terminal : l.sequence.terminal ≡ none
    pub spent : c.max_frames ≤ l.events_delivered
    pub alive : l.child_done ≡ false

  flood_accept :
      (s : FrameSequence N) (i : RequestId) (e : PluginEvent N)
      → s.expected_id ≡ i
      → s.terminal ≡ none
      → accept s (event i e) ≡ (ok tt, record s { frames_seen = s.frames_seen + 1 })
  unfolding accept
  flood_accept s i e same n = rw (same, request_id_eq_refl i, n) (ground arith)

  flood_deliver :
      (t : Tick N) (i : RequestId) (e : PluginEvent N) (l : Loop N)
      → IsFlooded i l
      → IsFlooded i (deliver c t (event i e) l).0 × ((deliver c t (event i e) l).1 ≡ true)
  unfolding deliver
  flood_deliver t i e l h = ground arith

  govern-IsFlooded :
      (i : RequestId) (t : Tick N) (l : Loop N) → IsFlooded i l → IsFlooded i (govern t l)
  unfolding govern
  govern-IsFlooded i t l h = ground arith

  flood_handle :
      (t : Tick N) (i : RequestId) (e : PluginEvent N) (l : Loop N)
      → IsFlooded i l
      → let x = handle c t (Receive.frame (event i e)) l in IsFlooded i x.0 × (x.1 ≡ true)
  unfolding handle
  flood_handle t i e l h = rw (flood_accept l.sequence i e h.same_id h.no_terminal) (
      flood_deliver t i e _ (record {
        same_id = h.same_id;
        no_terminal = h.no_terminal;
        spent = h.spent;
        alive = h.alive;
      }))

  rest_dropped :
      (i : RequestId) (t : Tick N) (x : Loop N × Bool)
      → IsFlooded i x.0
      → x.1 ≡ true
      → IsFlooded i (rest_of_round t x).0 × ((rest_of_round t x).1 ≡ false)
  rest_dropped i t (l, true) h b = (h, refl)
  rest_dropped i t (l, false) h b = cc

  IsFlooded-round :
      (i : RequestId) (t : Tick N) (l : Loop N)
      → Floods i t
      → IsFlooded i l
      → IsFlooded i (round c t l).0 × ((round c t l).1 ≡ false)
  unfolding round
  IsFlooded-round i t l f h =
      let x = flood_handle t i f.payload (govern t l) (govern-IsFlooded i t l h) in
      simp f.arrives (rest_dropped i t _ x.0 x.1)

  -- Once the event budget is spent, a plugin that keeps sending events is not stopped: through any
  -- number of rounds that each bring one more event, even if every one of them finds the token
  -- cancelled and the deadline past, the loop goes on and the process is not terminated.
  pub flood_not_stopped :
      (i : RequestId) (ts : List (Tick N)) (l : Loop N)
      → IsFlooded i l
      → AllFlood i ts
      → supervise c ts l ≡ none
  unfolding supervise
  flood_not_stopped i [] l h a = rw h.alive refl
  flood_not_stopped i (t ∷ ts) l h a =
      let n = IsFlooded-round i t l a.0 h in
      let rest = flood_not_stopped i ts (round c t l).0 n.0 a.1 in
      ground (arith, h.alive, n.1, rest)
