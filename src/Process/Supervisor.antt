-- ===== src/Process/Supervisor.antt =====
-- tactus-runtime/src/process.rs: the loop of `ProcessSupervisor::invoke`. Each round reads its
-- environment (the cancellation token, the clock, the stdout reader, the child, the callback's
-- thread); a round's readings are a `Tick`, and a run is the list of them.
pub mod Progress
pub mod Delivery
pub mod Stopping
mod Examples
use agenstro.Common.{
  ℕ, ◌+◌, ◌-◌, ◌==◌, ltb, Bool, true, false, not, ◌&&◌, ◌||◌, Option, none, some, List, [], ◌∷◌,
  ◌++◌, Result, ok, err, is_some, is_some_and, if◌then◌else◌,
}
use agenstro.Common.Text.{Text, lit}
use agenstro.Protocol.{
  RequestId, PluginFrame, event, result, TerminalResult, success, failure, ProtocolFault,
  FrameSequence, new, accept, finish, is_result,
}
use agenstro.Process.{
  InvocationKind, succeeded, plugin_failed, process_failed, protocol_failed, runtime_failed,
  deadline_exceeded, cancelled, InvocationPhase, dispatched, first_response, partial_output,
  terminal_received, InvocationProgress, ProcessOutcome,
}
use agenstro.Process.Observer.{
  Observer, idle, Move, Sent, sent, full, moves, offer, append_observation_error,
}

-- What the stdout reader's channel yields within the poll interval.
pub data ReaderMessage (N : Type 0) : Type 0 where
  frame : PluginFrame N → ReaderMessage N
  fault : ProtocolFault → ReaderMessage N
  runtime : Text → ReaderMessage N
  end : ReaderMessage N

pub data RecvTimeout (N : Type 0) : Type 0 where
  message : ReaderMessage N → RecvTimeout N
  timeout : RecvTimeout N
  disconnected : RecvTimeout N

pub data Receive (N : Type 0) : Type 0 where
  frame : PluginFrame N → Receive N
  fault : ProtocolFault → Receive N
  runtime : Text → Receive N
  end : Receive N
  pending : Receive N
  disconnected : Receive N

unfoldable pub receive_frame : {N : Type 0} → RecvTimeout N → Receive N
receive_frame (message (ReaderMessage.frame f)) = Receive.frame f
receive_frame (message (ReaderMessage.fault e)) = Receive.fault e
receive_frame (message (ReaderMessage.runtime e)) = Receive.runtime e
receive_frame (message ReaderMessage.end) = Receive.end
receive_frame timeout = Receive.pending
receive_frame RecvTimeout.disconnected = Receive.disconnected

-- `std::process::ExitStatus`: an exit code when the process was not ended by a signal. Its
-- `success` is the exit code zero.
pub record ExitStatus : Type 0 where
  pub code : Option ℕ

abbrev pub status_success : ExitStatus → Bool
status_success s = is_some_and (λ c. c == 0) s.code

-- The readings of one round: the token (`is_cancelled`, later `requires_immediate_kill`), whether
-- the deadline has elapsed, the reader, the clock, the callback's thread before the queue is read
-- and between the reservation and the send, `try_wait`, and what `hard_kill_and_wait` and
-- `kill_and_wait` would return.
pub record Tick (N : Type 0) : Type 0 where
  pub cancel : Bool
  pub deadline : Bool
  pub received : RecvTimeout N
  pub now : ℕ
  pub before : List Move
  pub between : List Move
  pub wait : Result Text (Option ExitStatus)
  pub immediate : Bool
  pub hard_kill : Result Text ExitStatus
  pub kill : Result Text ExitStatus

pub record Loop (N : Type 0) : Type 0 where
  pub progress : InvocationProgress
  pub sequence : FrameSequence N
  pub status : Option ExitStatus
  pub child_done : Bool
  pub stdout_done : Bool
  pub termination_attempted : Bool
  pub forced : Option InvocationKind
  pub failure : Option Text
  pub events_delivered : ℕ
  pub events_dropped : ℕ
  pub observation_error : Option Text
  pub observer : Observer N

abbrev pub force : {N : Type 0} → Loop N → InvocationKind → Text → Loop N
force l k why = record l { forced = some k; failure = some why }

abbrev pub cancelled_message : Text
cancelled_message = lit "plugin invocation was cancelled"

abbrev pub deadline_message : Text
deadline_message = lit "plugin invocation exceeded its deadline"

abbrev pub full_message : Text
full_message = lit "terminal frame could not enter the observer delivery queue"

abbrev pub stopped_message : Text
stopped_message = lit "terminal frame observer stopped before delivery"

abbrev pub phase_after : Bool → InvocationPhase
phase_after true = terminal_received
phase_after false = partial_output

abbrev pub first_seen : Option ℕ → ℕ → Option ℕ
first_seen none now = some now
first_seen (some t) now = some t

abbrev pub is_cancelled : Option InvocationKind → Bool
is_cancelled (some cancelled) = true
is_cancelled _ = false

module _ {N : Type 0} where
  -- The first test of a round.
  unfoldable pub govern : Tick N → Loop N → Loop N
  govern t l =
      if is_some l.forced
      then l
      else if t.cancel
      then force l cancelled cancelled_message
      else if t.deadline
      then force l deadline_exceeded deadline_message
      else l

  -- The progress of an accepted frame; the phase `FirstResponse` is overwritten at once.
  abbrev pub observe : ℕ → Bool → Loop N → Loop N
  observe now terminal l = record l {
    progress = record l.progress {
      first_response_unix_ms = first_seen l.progress.first_response_unix_ms now;
      last_event_unix_ms = some now;
      phase = phase_after terminal;
    };
  }

  abbrev drop_event : Loop N → Loop N
  drop_event l = record l { events_dropped = l.events_dropped + 1 }

  -- The match on `try_send`.
  abbrev pub sent_frame : Bool → Sent → Loop N → Loop N
  sent_frame true sent l = l
  sent_frame false sent l = record l { events_delivered = l.events_delivered + 1 }
  sent_frame true full l = record l {
    observation_error = append_observation_error l.observation_error full_message;
  }
  sent_frame false full l = drop_event l
  sent_frame true Sent.disconnected l = record l {
    observation_error = append_observation_error l.observation_error stopped_message;
  }
  sent_frame false Sent.disconnected l = drop_event l

  abbrev polled : Result Text (Option ExitStatus) → Loop N → Loop N
  polled (ok none) l = l
  polled (ok (some s)) l = record l { status = some s; child_done = true }
  polled (err e) l = force l runtime_failed (lit "cannot wait for plugin process: " ++ e)

  -- `child.try_wait()`.
  unfoldable pub poll : Tick N → Loop N → Loop N
  poll t l = if not l.child_done && not (is_some l.forced) then polled t.wait l else l

  abbrev pub reaped : Result Text ExitStatus → Loop N → Loop N
  reaped (ok s) l = record l { status = some s; child_done = true; termination_attempted = true }
  reaped (err e) l = record (force l runtime_failed (lit "cannot reap failed plugin: " ++ e)) {
    child_done = true;
    termination_attempted = true;
  }

  -- The group is terminated once.
  unfoldable pub terminate : Tick N → Loop N → Loop N
  terminate t l =
      if is_some l.forced && not l.termination_attempted
      then reaped (if is_cancelled l.forced && t.immediate then t.hard_kill else t.kill) l
      else l

  abbrev pub rest_of_round : Tick N → Loop N × Bool → Loop N × Bool
  rest_of_round t (l, true) = (l, false)
  rest_of_round t (l, false) =
      let l' = terminate t (poll t l) in (l', is_some l'.forced && l'.termination_attempted)

  abbrev pub running : Loop N → Bool
  running l = not l.child_done || not l.stdout_done

-- What a run is set up with: `display` renders a protocol fault (the attribute macro of the
-- `thiserror` crate generates it); `max_frames` and `bound` are limits of the specification.
pub record Supervision : Type 0 where
  pub display : ProtocolFault → Text
  pub max_frames : ℕ
  pub bound : ℕ

module _ {N : Type 0} (c : Supervision) where
  abbrev pub has_room : Loop N → Observer N → Bool
  has_room l o = ltb l.events_delivered c.max_frames && ltb o.queued (c.bound - 1)

  -- The rest of an accepted frame's branch. The Boolean says that the round ends by `continue`.
  unfoldable pub deliver : Tick N → PluginFrame N → Loop N → Loop N × Bool
  deliver t f l =
      let o = moves l.observer t.before in
      if not (is_result f) && not (has_room l o)
      then (drop_event (record l { observer = o }), true)
      else let (s, o') = offer c.bound o t.between f in
        (sent_frame (is_result f) s (record l { observer = o' }), false)

  abbrev pub accepted :
      Tick N
      → PluginFrame N
      → Loop N
      → Result ProtocolFault (Unit {0}) × FrameSequence N
      → Loop N × Bool
  accepted t f l (ok u, s) = deliver t f (observe t.now (is_result f) (record l { sequence = s }))
  accepted t f l (err e, s) =
      (record (force l protocol_failed (c.display e)) { sequence = s; stdout_done = true }, false)

  -- The match on what was received.
  unfoldable pub handle : Tick N → Receive N → Loop N → Loop N × Bool
  unfolding deliver
  handle t (Receive.frame f) l = accepted t f l (accept l.sequence f)
  handle t (Receive.fault e) l =
      (record (force l protocol_failed (c.display e)) { stdout_done = true }, false)
  handle t (Receive.runtime e) l = (record (force l runtime_failed e) { stdout_done = true }, false)
  handle t Receive.end l = (record l { stdout_done = true }, false)
  handle t Receive.disconnected l = (record l { stdout_done = true }, false)
  handle t Receive.pending l = (l, false)

  -- One round. The Boolean says that it ends by `break`.
  unfoldable pub round : Tick N → Loop N → Loop N × Bool
  unfolding govern handle poll terminate receive_frame
  round t l = rest_of_round t (handle t (receive_frame t.received) (govern t l))

  -- The loop, to its end; `none` if the readings run out first.
  unfoldable pub supervise : List (Tick N) → Loop N → Option (Loop N)
  supervise [] l = if running l then none else some l
  supervise (t ∷ ts) l =
      let (l', broke) = round t l in
      let again = supervise ts l' in
      if running l then (if broke then some l' else again) else some l

-- The state before the first round, at the clock's `now`.
unfoldable pub start : {N : Type 0} → RequestId → ℕ → Loop N
unfolding new
start i now = record {
  progress = record {
    phase = dispatched;
    dispatched_unix_ms = now;
    first_response_unix_ms = none;
    last_event_unix_ms = none;
    cleanup_completed = false;
  };
  sequence = new i;
  status = none;
  child_done = false;
  stdout_done = false;
  termination_attempted = false;
  forced = none;
  failure = none;
  events_delivered = 0;
  events_dropped = 0;
  observation_error = none;
  observer = idle;
}
