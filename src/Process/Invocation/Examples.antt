-- ===== src/Process/Invocation/Examples.antt =====
-- The theorems of `Process.Invocation` at an invocation that succeeds.
use agenstro.Common.{ℕ, ◌≡◌, refl, true, false, none, some, [], ◌∷◌, ok, Option}
use agenstro.Common.Text.{lit, text_eq}
use agenstro.Json.{null, end}
use agenstro.Protocol.{
  text, missing, present, PluginRequest, plugin_api, result, accept, request_id_eq, terminal_of,
  validate,
}
use agenstro.Process.{ProcessOutcome}
use agenstro.Process.Observer.{moves, offer, try_send}
use agenstro.Process.Supervisor.{
  ReaderMessage, message, RecvTimeout, Tick, Loop, round, supervise, start, handle, deliver, govern,
  poll, terminate, receive_frame,
}
use agenstro.Process.Invocation.{
  Texts, ProcessSpec, Launch, completed, done, invoke, prepare, validate_spec, conclude, rendering,
}
use agenstro.Process.Invocation.Consistency.{invoke_consistent}
use agenstro.Process.Invocation.Report.{IsTruthful, invoke-IsTruthful}
use agenstro.Outcome.{OutcomeContext, from_outcome, validate_outcome_consistency}

abbrev request : PluginRequest ℕ
request = record { api = plugin_api; id = text (lit "r1"); method = lit "run"; params = end }

abbrev spec : ProcessSpec
spec = record {
  command = lit "plugin" ∷ [];
  cwd_is_dir = true;
  limits = record {
    deadline = none;
    max_request_bytes = 100;
    max_frame_bytes = 100;
    max_stdout_bytes = 1000;
    max_frames = 10;
    max_stderr_bytes = 100;
    event_queue_bound = 4;
  };
}

abbrev round_with : RecvTimeout ℕ → Tick ℕ
round_with m = record {
  cancel = false;
  deadline = false;
  received = m;
  now = 7;
  before = [];
  between = [];
  wait = ok (some (record { code = some 0 }));
  immediate = false;
  hard_kill = ok (record { code = none });
  kill = ok (record { code = none });
}

abbrev launch : Launch ℕ
launch = record {
  encoded = ok (lit "{}");
  spawned = ok tt;
  has_stdin = true;
  has_stdout = true;
  has_stderr = true;
  started = 5;
  rounds =
      round_with
        (message (ReaderMessage.frame (result (text (lit "r1")) true (present null) missing)))
      ∷ round_with (message ReaderMessage.end)
      ∷ [];
  ending = record {
    cleanup = ok tt;
    stdout_worker = completed tt;
    stdin_worker = completed (ok tt);
    stderr_worker = completed (ok (record { bytes = []; truncated = false }));
    callback = done (ok tt) ∷ [];
    elapsed_ms = 3;
  };
}

abbrev texts : Texts
texts = record { display = λ f. []; lossy = λ t. t; exit_debug = λ c. [] }

-- The final state of the supervision is whatever it computes.
last : Option (Loop ℕ) → Loop ℕ
last none = start (text (lit "r1")) 5
last (some l) = l

reported : ProcessOutcome ℕ
unfolding last
reported =
    conclude (rendering texts spec) launch.ending (
      last (supervise (rendering texts spec).supervision launch.rounds (start (text (lit "r1")) 5)))

invoked : invoke texts spec request launch ≡ ok (some reported)
unfolding reported invoke prepare validate_spec validate text_eq supervise round govern handle
    deliver poll terminate receive_frame start accept request_id_eq terminal_of offer moves try_send
invoked = refl

invoke_consistent_example : validate_outcome_consistency reported ≡ ok tt
invoke_consistent_example = invoke_consistent texts spec request launch reported invoked

abbrev context : OutcomeContext
context = record {
  workflow = none;
  task = none;
  business_key_sha256 = none;
  occurrence_id = none;
  provider = none;
}

invoke-IsTruthful_example :
    IsTruthful (from_outcome context (lit "ns") (lit "run") reported) reported
invoke-IsTruthful_example =
    invoke-IsTruthful context (lit "ns") (lit "run") texts spec request launch reported invoked
