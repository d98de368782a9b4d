-- ===== src/Process/Supervisor/Progress.antt =====
-- The progress record against the frames that were accepted, whatever the readings of the rounds.
use agenstro.Common.{
  ℕ, ◌+◌, ◌≡◌, inl, inr, refl, Bool, true, false, some, is_some, Result, ok, err, ap, sym, subst,
  subst₂, ◌∙◌, List, [], ◌∷◌, arith, ltb, if◌then◌else◌, Bool-cases,
}
use agenstro.Protocol.{
  RequestId, PluginFrame, ProtocolFault, FrameSequence, event, result, accept, is_result,
}
use agenstro.Process.{
  InvocationPhase, dispatched, partial_output, terminal_received, InvocationProgress,
}
use agenstro.Process.Supervisor.{
  Tick, Receive, accepted, rest_of_round, observe, Loop, Supervision, govern, handle, deliver, poll,
  terminate, round, supervise, first_seen, phase_after, start, receive_frame,
}
use agenstro.Process.Supervisor.Delivery.{accept_ok, accept_err}

abbrev pub phase_of : Bool → ℕ → InvocationPhase
phase_of true n = terminal_received
phase_of false n = if ltb 0 n then partial_output else dispatched

-- The record after one more frame, as `observe` writes it.
abbrev observed : ℕ → Bool → InvocationProgress → InvocationProgress
observed now terminal p = record p {
  first_response_unix_ms = first_seen p.first_response_unix_ms now;
  last_event_unix_ms = some now;
  phase = phase_after terminal;
}

module _ {N : Type 0} where
  -- The phase is that of the last accepted frame, and the times are there from the first frame on.
  pub record Tracks (p : InvocationProgress) (s : FrameSequence N) : Type 0 where
    pub phase : p.phase ≡ phase_of (is_some s.terminal) s.frames_seen
    pub first : is_some p.first_response_unix_ms ≡ ltb 0 s.frames_seen
    pub last : is_some p.last_event_unix_ms ≡ ltb 0 s.frames_seen
    pub counted : is_some s.terminal ≡ true → ltb 0 s.frames_seen ≡ true
    pub cleanup : p.cleanup_completed ≡ false

  abbrev Inv : Loop N → Type 0
  Inv l = Tracks l.progress l.sequence

  govern-Inv : (t : Tick N) (l : Loop N) → Inv l → Inv (govern t l)
  unfolding govern
  govern-Inv t l h = ground arith

  poll-Inv : (t : Tick N) (l : Loop N) → Inv l → Inv (poll t l)
  unfolding poll
  poll-Inv t l h = ground arith

  terminate-Inv : (t : Tick N) (l : Loop N) → Inv l → Inv (terminate t l)
  unfolding terminate
  terminate-Inv t l h = ground arith

  rest-Inv : (t : Tick N) (x : Loop N × Bool) → Inv x.0 → Inv (rest_of_round t x).0
  rest-Inv t (l, true) h = h
  rest-Inv t (l, false) h = terminate-Inv t (poll t l) (poll-Inv t l h)

  observed_final :
      (now : ℕ) (p : InvocationProgress) (s s' : FrameSequence N)
      → Tracks p s
      → is_some s'.terminal ≡ true
      → s'.frames_seen ≡ s.frames_seen + 1
      → Tracks (observed now true p) s'
  observed_final now p s s' h e n = ground arith

  observed_event :
      (now : ℕ) (p : InvocationProgress) (s s' : FrameSequence N)
      → Tracks p s
      → is_some s'.terminal ≡ false
      → s'.frames_seen ≡ s.frames_seen + 1
      → Tracks (observed now false p) s'
  observed_event now p s s' h e n = ground arith

  accept_counts :
      (s : FrameSequence N) (f : PluginFrame N)
      → (accept s f).0 ≡ ok tt
      → (accept s f).1.frames_seen ≡ s.frames_seen + 1
  unfolding accept
  accept_counts s (event i e) h = ground arith
  accept_counts s (result i o v e) h = ground arith

module _ {N : Type 0} (c : Supervision) where
  deliver_same :
      (t : Tick N) (f : PluginFrame N) (l : Loop N)
      → ((deliver c t f l).0.progress ≡ l.progress) × ((deliver c t f l).0.sequence ≡ l.sequence)
  unfolding deliver
  deliver_same t (event i e) l = ground arith
  deliver_same t (result i o v e) l = ground arith

  observed-Tracks :
      (now : ℕ) (f : PluginFrame N) (p : InvocationProgress) (s s' : FrameSequence N)
      → Tracks p s
      → is_some s'.terminal ≡ is_result f
      → s'.frames_seen ≡ s.frames_seen + 1
      → Tracks (observed now (is_result f) p) s'
  observed-Tracks now f p s s' h e n = elim (Bool-cases (is_result f)) [
    | inl final ↦ rw final (observed_final now p s s' h (e ∙ final) n)
    | inr more ↦ rw more (observed_event now p s s' h (e ∙ more) n)
  ]

  accepted-Inv :
      (t : Tick N) (f : PluginFrame N) (l : Loop N)
      (r : Result ProtocolFault (Unit {0}) × FrameSequence N)
      → Inv l
      → accept l.sequence f ≡ r
      → Inv (accepted c t f l r).0
  accepted-Inv t f l (err e, s) h p =
      let same : l.sequence ≡ s =
        sym (accept_err l.sequence f (ap (λ x. x.0) p)) ∙ ap (λ x. x.1) p in
      subst (λ z. Tracks l.progress z) same h
  accepted-Inv t f l (ok u, s) h p =
      let fine = ap (λ x. x.0) p in
      let next = ap (λ x. x.1) p in
      let l' = observe t.now (is_result f) (record l { sequence = s }) in
      let d = deliver_same t f l' in
      subst₂ Tracks (sym d.0) (sym d.1) (
        observed-Tracks t.now f l.progress l.sequence s h
          (ap (λ (z : FrameSequence N). is_some z.terminal) (sym next)
            ∙ (accept_ok l.sequence f fine).1)
          (ap (λ (z : FrameSequence N). z.frames_seen) (sym next)
            ∙ accept_counts l.sequence f fine))

  handle-Inv : (t : Tick N) (r : Receive N) (l : Loop N) → Inv l → Inv (handle c t r l).0
  unfolding handle
  handle-Inv t (Receive.frame f) l h = accepted-Inv t f l (accept l.sequence f) h refl
  handle-Inv t (Receive.fault e) l h = ground arith
  handle-Inv t (Receive.runtime e) l h = ground arith
  handle-Inv t Receive.end l h = ground arith
  handle-Inv t Receive.disconnected l h = ground arith
  handle-Inv t Receive.pending l h = ground arith

  pub round-Inv : (t : Tick N) (l : Loop N) → Inv l → Inv (round c t l).0
  unfolding round
  round-Inv t l h =
      rest-Inv t (handle c t (receive_frame t.received) (govern t l))
        (handle-Inv t (receive_frame t.received) (govern t l) (govern-Inv t l h))

  supervise-Inv : (ts : List (Tick N)) (l l' : Loop N) → Inv l → supervise c ts l ≡ some l' → Inv l'
  unfolding supervise
  supervise-Inv [] l l' h e = ground arith
  supervise-Inv (t ∷ ts) l l' h e =
      ground (arith, round-Inv t l h, supervise-Inv ts (round c t l).0 l' (round-Inv t l h))

  start-Inv : (i : RequestId) (now : ℕ) → Inv (start {N = N} i now)
  unfolding start
  start-Inv i now = ground arith

  pub supervise-Tracks :
      (i : RequestId) (now : ℕ) (ts : List (Tick N)) (l : Loop N)
      → supervise c ts (start i now) ≡ some l
      → Tracks l.progress l.sequence
  supervise-Tracks i now ts l e = supervise-Inv ts (start i now) l (start-Inv i now) e
