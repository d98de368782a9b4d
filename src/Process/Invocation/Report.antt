-- ===== src/Process/Invocation/Report.antt =====
-- The diagnostic of `outcome.rs` on the outcomes that invocations report.
use agenstro.Common.{◌≡◌, refl, true, some, is_some, ok, arith, ltb, if◌then◌else◌}
use agenstro.Common.Text.{Text}
use agenstro.Protocol.{PluginRequest}
use agenstro.Process.{ProcessOutcome, InvocationProgress}
use agenstro.Process.Supervisor.{Loop}
use agenstro.Process.Supervisor.Progress.{Tracks, supervise-Tracks, phase_of}
use agenstro.Process.Invocation.{
  Ending, Rendering, Texts, ProcessSpec, Launch, rendering, settle, conclude, conclude_loop, invoke,
}
use agenstro.Process.Invocation.Consistency.{invoke-supervise}
use agenstro.Outcome.{OutcomeContext, OutcomeUnknownDiagnostic, from_outcome}

-- What the diagnostic says of the frames is what was accepted.
pub record IsTruthful {N : Type 0} (d : OutcomeUnknownDiagnostic) (o : ProcessOutcome N)
    : Type 0 where
  pub spawned : d.dispatched ≡ true
  pub first : d.first_response_received ≡ ltb 0 o.frames_seen
  pub terminal : d.terminal_received ≡ is_some o.terminal
  pub partial : d.partial_output_generated ≡ ltb (if is_some o.terminal then 1 else 0) o.frames_seen

module _ {N : Type 0} where
  -- The facts of an outcome that the diagnostic reads.
  record Facts (o : ProcessOutcome N) : Type 0 where
    reached : InvocationProgress
    progress : o.progress ≡ some reached
    phase : reached.phase ≡ phase_of (is_some o.terminal) o.frames_seen
    first : is_some reached.first_response_unix_ms ≡ ltb 0 o.frames_seen
    counted : is_some o.terminal ≡ true → ltb 0 o.frames_seen ≡ true

  settle_keeps :
      (e : Ending) (l : Loop N)
      → ((settle e l).0.sequence ≡ l.sequence)
        × ((settle e l).0.progress.phase ≡ l.progress.phase)
        × ((settle e l).0.progress.first_response_unix_ms ≡ l.progress.first_response_unix_ms)
  unfolding settle
  settle_keeps e l = ground arith

  conclude-Facts :
      (r : Rendering) (e : Ending) (l : Loop N)
      → Tracks l.progress l.sequence
      → Facts (conclude r e l)
  unfolding conclude
  conclude-Facts r e l h = record {
    reached = (conclude_loop r e l).progress;
    progress = refl;
    phase = ground (arith, settle_keeps e l);
    first = ground (arith, settle_keeps e l);
    counted = ground (arith, settle_keeps e l);
  }

module _ {N : Type 0} (context : OutcomeContext) (namespace method : Text) where
  truthful :
      (o : ProcessOutcome N) → Facts o → IsTruthful (from_outcome context namespace method o) o
  unfolding from_outcome
  truthful o f = record {
    spawned = rw f.progress refl;
    first = rw f.progress f.first;
    terminal = rw (f.progress, f.phase) (ground arith);
    partial = rw (f.progress, f.phase) (ground (arith, f.counted));
  }

  -- The diagnostic of an invocation's outcome tells the truth about its frames: a process was
  -- dispatched; a first response was received exactly if a frame was accepted; the terminal was
  -- received exactly if the outcome has a terminal result; and partial output was generated exactly
  -- if a frame other than the terminal was accepted.
  pub invoke-IsTruthful :
      (texts : Texts) (s : ProcessSpec) (q : PluginRequest N) (x : Launch N) (o : ProcessOutcome N)
      → invoke texts s q x ≡ ok (some o)
      → IsTruthful (from_outcome context namespace method o) o
  invoke-IsTruthful texts s q x o h =
      let (l, e, p) = invoke-supervise texts s q x o h in
      rw p (
        truthful (conclude (rendering texts s) x.ending l) (
          conclude-Facts (rendering texts s) x.ending l
            (supervise-Tracks (rendering texts s).supervision q.id x.started x.rounds l e)))
