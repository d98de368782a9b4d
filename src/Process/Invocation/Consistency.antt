-- ===== src/Process/Invocation/Consistency.antt =====
-- What every invocation reports, against `outcome.rs`.
use agenstro.Common.{
  ◌≡◌, refl, Bool, true, false, Option, none, some, Result, ok, err, >>=-eq-ok, sym, subst, List,
  [], ◌∷◌, arith,
}
use agenstro.Process.Supervisor.Stopping.{deliver_keeps}
use agenstro.Protocol.{FrameSequence, PluginFrame, ProtocolFault, accept, is_result, PluginRequest}
use agenstro.Process.{
  InvocationKind, protocol_failed, runtime_failed, deadline_exceeded, cancelled, ProcessOutcome,
}
use agenstro.Process.Supervisor.{
  Tick, Loop, Supervision, govern, handle, poll, terminate, round, supervise, start, Receive,
  receive_frame, accepted, observe, rest_of_round,
}
use agenstro.Process.Invocation.{
  concluded, prepare, invoke, Launch, ProcessSpec, Texts, rendering, Ending, Rendering, settle,
  conclude,
}
use agenstro.Outcome.{validate_outcome_consistency}

-- The kinds that the supervisor forces.
abbrev pub IsForced : Option InvocationKind → Type 0
IsForced none = Unit
IsForced (some protocol_failed) = Unit
IsForced (some runtime_failed) = Unit
IsForced (some deadline_exceeded) = Unit
IsForced (some cancelled) = Unit
IsForced (some _) = ⊥

module _ {N : Type 0} where
  govern-IsForced : (t : Tick N) (l : Loop N) → IsForced l.forced → IsForced (govern t l).forced
  unfolding govern
  govern-IsForced t l h = ground arith

  poll-IsForced : (t : Tick N) (l : Loop N) → IsForced l.forced → IsForced (poll t l).forced
  unfolding poll
  poll-IsForced t l h = ground arith

  terminate-IsForced :
      (t : Tick N) (l : Loop N) → IsForced l.forced → IsForced (terminate t l).forced
  unfolding terminate
  terminate-IsForced t l h = ground arith

  rest-IsForced :
      (t : Tick N) (x : Loop N × Bool) → IsForced x.0.forced → IsForced (rest_of_round t x).0.forced
  rest-IsForced t (l, true) h = h
  rest-IsForced t (l, false) h = terminate-IsForced t (poll t l) (poll-IsForced t l h)

module _ {N : Type 0} (c : Supervision) where
  accepted-IsForced :
      (t : Tick N) (f : PluginFrame N) (l : Loop N)
      (r : Result ProtocolFault (Unit {0}) × FrameSequence N)
      → IsForced l.forced
      → IsForced (accepted c t f l r).0.forced
  accepted-IsForced t f l (err e, s) h = tt
  accepted-IsForced t f l (ok u, s) h =
      subst IsForced
        (sym (deliver_keeps c t f (observe t.now (is_result f) (record l { sequence = s }))).0) h

  handle-IsForced :
      (t : Tick N) (r : Receive N) (l : Loop N)
      → IsForced l.forced
      → IsForced (handle c t r l).0.forced
  unfolding handle
  handle-IsForced t (Receive.frame f) l h = accepted-IsForced t f l (accept l.sequence f) h
  handle-IsForced t (Receive.fault e) l h = tt
  handle-IsForced t (Receive.runtime e) l h = tt
  handle-IsForced t Receive.end l h = h
  handle-IsForced t Receive.disconnected l h = h
  handle-IsForced t Receive.pending l h = h

  round-IsForced : (t : Tick N) (l : Loop N) → IsForced l.forced → IsForced (round c t l).0.forced
  unfolding round
  round-IsForced t l h =
      rest-IsForced t (handle c t (receive_frame t.received) (govern t l))
        (handle-IsForced t (receive_frame t.received) (govern t l) (govern-IsForced t l h))

  supervise-IsForced :
      (ts : List (Tick N)) (l l' : Loop N)
      → IsForced l.forced
      → supervise c ts l ≡ some l'
      → IsForced l'.forced
  unfolding supervise
  supervise-IsForced [] l l' h e = ground arith
  supervise-IsForced (t ∷ ts) l l' h e =
      ground (
        arith,
        round-IsForced t l h,
        supervise-IsForced ts (round c t l).0 l' (round-IsForced t l h),
      )

module _ {N : Type 0} (r : Rendering) where
  settle-IsForced : (e : Ending) (l : Loop N) → IsForced l.forced → IsForced (settle e l).0.forced
  unfolding settle
  settle-IsForced e l h = ground arith

  conclude_consistent :
      (e : Ending) (l : Loop N)
      → IsForced l.forced
      → validate_outcome_consistency (conclude r e l) ≡ ok tt
  unfolding conclude validate_outcome_consistency settle
  conclude_consistent e l h = ground arith

module _ {N : Type 0} (texts : Texts) where
  concluded-some :
      (s : ProcessSpec) (x : Launch N) (l? : Option (Loop N)) (o : ProcessOutcome N)
      → concluded texts s x l? ≡ some o
      → (l : Loop N) × (l? ≡ some l) × (o ≡ conclude (rendering texts s) x.ending l)
  concluded-some s x none o h = cc
  concluded-some s x (some l) o h = (l, refl, ground arith)

  -- An invocation that reports an outcome comes from a supervision that ended.
  pub invoke-supervise :
      (s : ProcessSpec) (q : PluginRequest N) (x : Launch N) (o : ProcessOutcome N)
      → invoke texts s q x ≡ ok (some o)
      → (l : Loop N) × (supervise (rendering texts s).supervision x.rounds (start q.id x.started)
          ≡ some l)
        × (o ≡ conclude (rendering texts s) x.ending l)
  unfolding invoke
  invoke-supervise s q x o h =
      let b = >>=-eq-ok (prepare texts s q x) _ h in
      concluded-some s x (supervise (rendering texts s).supervision x.rounds (start q.id x.started))
        o (ground arith)

  -- Every outcome that an invocation reports passes the consistency check that journals make
  -- before they publish it and after they read it: whatever the child, its pipes, the clock and the
  -- threads did, the kind agrees with the exit code and the terminal result.
  pub invoke_consistent :
      (s : ProcessSpec) (q : PluginRequest N) (x : Launch N) (o : ProcessOutcome N)
      → invoke texts s q x ≡ ok (some o)
      → validate_outcome_consistency o ≡ ok tt
  invoke_consistent s q x o h =
      let (l, e, p) = invoke-supervise s q x o h in
      rw p (
        conclude_consistent (rendering texts s) x.ending l (
          supervise-IsForced (rendering texts s).supervision x.rounds (start q.id x.started) l
            (unfold start in tt) e))
