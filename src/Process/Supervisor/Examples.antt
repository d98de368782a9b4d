-- ===== src/Process/Supervisor/Examples.antt =====
-- The theorems of `Process.Supervisor` at short runs.
use agenstro.Common.{
  ℕ, ◌≡◌, ◌⊎◌, refl, true, false, none, some, [], ◌∷◌, ok, arith, Option, is_some, List, Bool,
  Result,
}
use agenstro.Common.Text.{Text, lit}
use agenstro.Json.{null, end}
use agenstro.Protocol.{RequestId, text, missing, present, PluginFrame, event, result}
use agenstro.Process.Supervisor.{
  ReaderMessage, message, timeout, RecvTimeout, Tick, Loop, Supervision, supervise, start, handle,
  receive_frame, ExitStatus,
}
use agenstro.Process.Supervisor.Stopping.{stop_ends, IsReaped, flood_not_stopped}

abbrev request : RequestId
request = text (lit "r1")

abbrev answer : PluginFrame ℕ
answer = result request true (present null) missing

abbrev progress_event : PluginFrame ℕ
progress_event = event request (record { kind = lit "progress"; payload = end })

-- A round that receives the message, told to stop or not, in which the child has exited with zero.
abbrev pub tick : RecvTimeout ℕ → Bool → Tick ℕ
tick m stop = record {
  cancel = stop;
  deadline = stop;
  received = m;
  now = 7;
  before = [];
  between = [];
  wait = ok (some (record { code = some 0 }));
  immediate = false;
  hard_kill = ok (record { code = none });
  kill = ok (record { code = none });
}

abbrev plain : Supervision
plain = record { display = λ f. []; max_frames = 1; bound = 1 }

abbrev finished : List (Tick ℕ)
finished =
    tick (message (ReaderMessage.frame answer)) false ∷ tick (message ReaderMessage.end) false ∷ []

-- The final state of the run is whatever `supervise` computes.
last : Option (Loop ℕ) → Loop ℕ
last none = start request 0
last (some l) = l

stop_ends_example :
    (l' : Loop ℕ) × (q : Result Text ExitStatus) × (supervise plain
        (tick timeout true ∷ [])
        (start request 0)
      ≡ some l')
    × (l'.termination_attempted ≡ true)
    × (l'.child_done ≡ true)
    × (is_some l'.forced ≡ true)
    × ((q ≡ (tick timeout true).kill)
        ⊎ ((q ≡ (tick timeout true).hard_kill) × ((tick timeout true).immediate ≡ true)))
    × IsReaped q l'
unfolding start handle receive_frame
stop_ends_example = stop_ends plain (tick timeout true) [] (start request 0) refl refl refl refl

abbrev flood : List (Tick ℕ)
flood =
    tick (message (ReaderMessage.frame progress_event)) true
    ∷ tick (message (ReaderMessage.frame progress_event)) true
    ∷ []

abbrev spent : Loop ℕ
unfolding start
spent = record (start request 0) { events_delivered = 1 }

flood_not_stopped_example : supervise plain flood spent ≡ none
unfolding start
flood_not_stopped_example =
    flood_not_stopped plain request flood spent
      (record { same_id = refl; no_terminal = refl; spent = omega arith; alive = refl })
      (record { payload = _; arrives = refl }, (record { payload = _; arrives = refl }, tt))
