-- ===== src/Process/Invocation.antt =====
-- tactus-runtime/src/process.rs: `ProcessSupervisor::invoke` around its loop. What the operating
-- system and the worker threads answer is a record of readings, as for the loop.
pub mod Consistency
pub mod Report
mod Examples
use agenstro.Common.{
  ℕ, ◌+◌, ◌==◌, ltb, Bool, true, false, not, ◌||◌, Option, none, some, List, [], ◌∷◌, ◌++◌, length,
  Result, ok, err, ◌>>=◌, ◌>>◌, fail_if, map_err, is_some, if◌then◌else◌,
}
use agenstro.Common.Text.{Text, lit, is_empty}
use agenstro.Protocol.{
  PluginRequest, TerminalResult, success, failure, ProtocolFault, missing_terminal, validate,
  finish,
}
use agenstro.Process.{
  InvocationKind, succeeded, plugin_failed, process_failed, protocol_failed, runtime_failed,
  InvocationProgress, ProcessOutcome,
}
use agenstro.Process.Observer.{append_observation_error}
use agenstro.Process.Supervisor.{
  ExitStatus, status_success, Tick, Loop, Supervision, force, supervise, start,
}

pub record ProcessLimits : Type 0 where
  pub deadline : Option ℕ
  pub max_request_bytes : ℕ
  pub max_frame_bytes : ℕ
  pub max_stdout_bytes : ℕ
  pub max_frames : ℕ
  pub max_stderr_bytes : ℕ
  pub event_queue_bound : ℕ

-- `cwd_is_dir` is what the file system says of the working directory.
pub record ProcessSpec : Type 0 where
  pub command : List Text
  pub cwd_is_dir : Bool
  pub limits : ProcessLimits

pub data Pipe : Type 0 where
  stdin stdout stderr : Pipe

pub data ProcessError : Type 0 where
  no_executable no_working_directory limits_not_positive : ProcessError
  invalid_request : ProtocolFault → ProcessError
  request_too_large : ℕ → ℕ → ProcessError
  encode : Text → ProcessError
  spawn : Text → ProcessError
  missing_pipe : Pipe → ProcessError

abbrev lacks_executable : List Text → Bool
lacks_executable [] = true
lacks_executable (c ∷ cs) = is_empty c

unfoldable pub validate_spec : ProcessSpec → Result ProcessError (Unit {0})
validate_spec s = do
  fail_if (lacks_executable s.command) no_executable
  fail_if (not s.cwd_is_dir) no_working_directory
  fail_if
      (s.limits.max_request_bytes == 0
        || s.limits.max_frame_bytes == 0
        || s.limits.max_stdout_bytes == 0
        || s.limits.max_frames == 0
        || s.limits.event_queue_bound == 0)
      limits_not_positive
  ok tt

pub data WorkerFinish (A : Type 0) : Type 0 where
  completed : A → WorkerFinish A
  panicked stalled : WorkerFinish A

pub record CapturedStderr : Type 0 where
  pub bytes : Text
  pub truncated : Bool

abbrev nothing_captured : CapturedStderr
nothing_captured = record { bytes = []; truncated = false }

unfoldable pub finish_stderr_capture :
    WorkerFinish (Result Text CapturedStderr) → Option Text → CapturedStderr × Option Text
finish_stderr_capture (completed (ok c)) o = (c, o)
finish_stderr_capture (completed (err e)) o = (nothing_captured, append_observation_error o e)
finish_stderr_capture panicked o =
    (nothing_captured, append_observation_error o (lit "stderr diagnostic reader panicked"))
finish_stderr_capture stalled o = (
  nothing_captured,
  append_observation_error o (lit "stderr diagnostic pipe remained open after process completion"),
)

-- One `recv_timeout` on the callback's end, with the test of the drain deadline.
pub data CallbackPoll : Type 0 where
  done : Result Text (Unit {0}) → CallbackPoll
  gone : CallbackPoll
  waiting : Bool → CallbackPoll

-- The drain loop; a list that ends first stands for a last round at the deadline.
unfoldable pub drain_callback : List CallbackPoll → Option Text → Option Text
drain_callback [] o =
    append_observation_error o (lit "plugin frame callback exceeded its delivery deadline")
drain_callback (done (ok u) ∷ ps) o = o
drain_callback (done (err e) ∷ ps) o = append_observation_error o e
drain_callback (gone ∷ ps) o =
    append_observation_error o (lit "plugin frame callback stopped unexpectedly")
drain_callback (waiting true ∷ ps) o =
    append_observation_error o (lit "plugin frame callback exceeded its delivery deadline")
drain_callback (waiting false ∷ ps) o = drain_callback ps o

-- What the end of an invocation reads.
pub record Ending : Type 0 where
  pub cleanup : Result Text (Unit {0})
  pub stdout_worker : WorkerFinish (Unit {0})
  pub stdin_worker : WorkerFinish (Result Text (Unit {0}))
  pub stderr_worker : WorkerFinish (Result Text CapturedStderr)
  pub callback : List CallbackPoll
  pub elapsed_ms : ℕ

abbrev pub code_of : Option ExitStatus → Option ℕ
code_of none = none
code_of (some s) = s.code

abbrev pub succeeded_status : Option ExitStatus → Bool
succeeded_status none = false
succeeded_status (some s) = status_success s

abbrev is_process_failed : InvocationKind → Bool
is_process_failed process_failed = true
is_process_failed _ = false

abbrev kind_or : Option InvocationKind → InvocationKind → InvocationKind
kind_or none k = k
kind_or (some f) k = f

module _ {N : Type 0} where
  -- `cleanup_owned_group`.
  abbrev after_cleanup : Result Text (Unit {0}) → Loop N → Loop N
  after_cleanup (ok u) l = record l { progress = record l.progress { cleanup_completed = true } }
  after_cleanup (err e) l =
      if is_some l.forced
      then l
      else force l runtime_failed (lit "cannot clean the completed plugin process group: " ++ e)

  abbrev unless_forced : Loop N → Text → Loop N
  unless_forced l why = if is_some l.forced then l else force l runtime_failed why

  abbrev after_stdout : WorkerFinish (Unit {0}) → Loop N → Loop N
  after_stdout (completed u) l = l
  after_stdout panicked l = unless_forced l (lit "stdout worker panicked")
  after_stdout stalled l =
      unless_forced l (lit "stdout pipe remained open after process completion")

  abbrev after_stdin : WorkerFinish (Result Text (Unit {0})) → Loop N → Loop N
  after_stdin (completed (ok u)) l = l
  after_stdin (completed (err e)) l = unless_forced l e
  after_stdin panicked l = unless_forced l (lit "stdin worker panicked")
  after_stdin stalled l = unless_forced l (lit "stdin pipe remained open after process completion")

  abbrev after_callback : List CallbackPoll → Loop N → Loop N
  after_callback ps l =
      if is_some l.forced
      then l
      else record l { observation_error = drain_callback ps l.observation_error }

  -- The cleanup, the workers and the callback, in their order.
  unfoldable pub settle : Ending → Loop N → Loop N × CapturedStderr
  settle e l =
      let l1 =
        after_stdin e.stdin_worker (after_stdout e.stdout_worker (after_cleanup e.cleanup l)) in
      let (captured, o) = finish_stderr_capture e.stderr_worker l1.observation_error in
      (after_callback e.callback (record l1 { observation_error = o }), captured)

  -- The match on `(&terminal, status_success)`.
  abbrev pub natural_kind : Option (TerminalResult N) → Bool → InvocationKind
  natural_kind (some (success v)) true = succeeded
  natural_kind (some (failure e)) b = plugin_failed
  natural_kind (some (success v)) false = process_failed
  natural_kind none b = protocol_failed

-- `lossy` is `String::from_utf8_lossy`, and `exit_debug` the `{:?}` of an exit code.
pub record Rendering : Type 0 where
  pub supervision : Supervision
  pub open supervision use *
  pub lossy : Text → Text
  pub exit_debug : Option ℕ → Text

abbrev explain : Rendering → InvocationKind → Option Text → Option ℕ → Option Text
explain r k (some why) code = some why
explain r k none code =
    if is_process_failed k
    then some (lit "plugin returned success but process exited with " ++ r.exit_debug code)
    else none

module _ {N : Type 0} (r : Rendering) where
  abbrev missing : Loop N → Loop N
  missing l = if is_some l.forced then l else force l protocol_failed (r.display missing_terminal)

  -- The match on `sequence.finish()`.
  abbrev require_terminal : Loop N → Loop N
  require_terminal l = if is_some l.sequence.terminal then l else missing l

  abbrev outcome_of : Ending → CapturedStderr → Loop N → ProcessOutcome N
  outcome_of e captured l =
      let kind = kind_or l.forced (natural_kind l.sequence.terminal (succeeded_status l.status)) in
      record {
        kind = kind;
        exit_code = code_of l.status;
        terminal = l.sequence.terminal;
        frames_seen = l.sequence.frames_seen;
        events_dropped = l.events_dropped;
        observation_error = l.observation_error;
        stderr = r.lossy captured.bytes;
        stderr_truncated = captured.truncated;
        error = explain r kind l.failure (code_of l.status);
        elapsed_ms = e.elapsed_ms;
        progress = some l.progress;
      }

  -- From the end of the loop to the outcome.
  unfoldable pub conclude : Ending → Loop N → ProcessOutcome N
  conclude e l = let (l', captured) = settle e l in outcome_of e captured (require_terminal l')

  abbrev pub conclude_loop : Ending → Loop N → Loop N
  conclude_loop e l = require_terminal (settle e l).0

-- What starting a process answers: the encoded request, the spawn, and whether each pipe is there.
pub record Launch (N : Type 0) : Type 0 where
  pub encoded : Result Text Text
  pub spawned : Result Text (Unit {0})
  pub has_stdin : Bool
  pub has_stdout : Bool
  pub has_stderr : Bool
  pub started : ℕ
  pub rounds : List (Tick N)
  pub ending : Ending

-- The renderings that the program takes from its libraries.
pub record Texts : Type 0 where
  pub display : ProtocolFault → Text
  pub lossy : Text → Text
  pub exit_debug : Option ℕ → Text

abbrev pub rendering : Texts → ProcessSpec → Rendering
rendering x s = record {
  supervision = record {
    display = x.display;
    max_frames = s.limits.max_frames;
    bound = s.limits.event_queue_bound;
  };
  lossy = x.lossy;
  exit_debug = x.exit_debug;
}

module _ {N : Type 0} (texts : Texts) where
  -- The checks before a process is there.
  unfoldable pub prepare : ProcessSpec → PluginRequest N → Launch N → Result ProcessError (Unit {0})
  unfolding validate_spec
  prepare s q x = do
    validate_spec s
    map_err invalid_request (validate q)
    input ← map_err encode x.encoded
    fail_if (ltb s.limits.max_request_bytes (length input + 1))
        (request_too_large (length input + 1) s.limits.max_request_bytes)
    map_err spawn x.spawned
    fail_if (not x.has_stdin) (missing_pipe stdin)
    fail_if (not x.has_stdout) (missing_pipe stdout)
    fail_if (not x.has_stderr) (missing_pipe stderr)
    ok tt

  abbrev pub concluded : ProcessSpec → Launch N → Option (Loop N) → Option (ProcessOutcome N)
  concluded s x none = none
  concluded s x (some l) = some (conclude (rendering texts s) x.ending l)

  -- `none` says that the listed rounds end before the loop does.
  unfoldable pub invoke :
      ProcessSpec → PluginRequest N → Launch N → Result ProcessError (Option (ProcessOutcome N))
  unfolding prepare
  invoke s q x = do
    prepare s q x
    ok (concluded s x (supervise (rendering texts s).supervision x.rounds (start q.id x.started)))
