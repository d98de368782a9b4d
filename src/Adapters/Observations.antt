-- ===== src/Adapters/Observations.antt =====
-- tactus-runtime/src/adapters.rs: `observe.end`, which several calls may run at once on the files of one
-- observation. A call is a machine whose every step does at most one operation on the shared files; an
-- error is its code. What a file holds is what serde_json makes of its bytes. JSON values, their
-- equality and the building of the result are parameters, and so is the equality of paths.
pub mod Steps
pub mod Agreement
pub mod Ownership
pub mod Recovery
mod Examples
use agenstro.Common.{
  ℕ, Bool, true, false, ◌&&◌, ◌||◌, not, Option, none, some, is_some, is_some_and, is_none_or,
  Result, ok, err, List, [], ◌∷◌, ◌==◌, length, if◌then◌else◌,
}
use agenstro.Common.Text.{Text, lit, text_eq}
use agenstro.Protocol.{plugin_api}
use agenstro.Adapters.Snapshots.{WorkspaceSnapshot, Platform, Delta, snapshot_delta}

abbrev pub path_effect_name : Text
path_effect_name = lit "workspace.paths"

pub data StateKind : Type 0 where
  observation snapshot : StateKind

abbrev pub is_observation : StateKind → Bool
is_observation observation = true
is_observation snapshot = false

pub record EffectState (V : Type 0) : Type 0 where
  pub api : Text
  pub effect : Text
  pub state_kind : StateKind
  pub workspace : Text
  pub invocation : Option V
  pub snapshot : WorkspaceSnapshot

-- `state_kind` has one value.
pub record ObservationCompletion (V : Type 0) : Type 0 where
  pub api : Text
  pub effect : Text
  pub workspace : Text
  pub invocation : V
  pub value : V

abbrev pub File : Type 0 → Type 0
File A = Option (Result Text A)

-- The token's file, the file of a claim, and the completion.
pub record Files (V : Type 0) : Type 0 where
  pub original : File (EffectState V)
  pub claimed : File (EffectState V)
  pub completed : File (ObservationCompletion V)

pub record Effects (V : Type 0) : Type 0 where
  pub platform : Platform
  pub same : V → V → Bool
  pub same_path : Text → Text → Bool
  pub to_value : V → V → Delta → ℕ → ℕ → V

pub record Request (V : Type 0) : Type 0 where
  pub workspace : Text
  pub invocation : V
  pub outcome : V

-- Where a call stands.
pub data Stage (V : Type 0) : Type 0 where
  starting recovering claim_seen waited rechecking restoring loading loading_again : Stage V
  capturing : EffectState V → Stage V
  staging linking : V → Stage V
  reloading : Stage V
  cleaning unclaiming returned : V → Stage V
  failed : Text → Stage V

-- What the surroundings give a step: whether its operation fails, and a capture of the workspace.
pub record Choice : Type 0 where
  pub call : ℕ
  pub fault : Bool
  pub capture : Result Text WorkspaceSnapshot

-- `Path::is_file`: false where the file cannot be inspected.
abbrev pub is_file {ℓ} : {A : Type ℓ} → Bool → Option A → Bool
is_file fault file = not fault && is_some file

module _ (V : Type 0) (e : Effects V) where
  abbrev pub accept_completion :
      Request V → Option (Result Text (ObservationCompletion V)) → Result Text (Option V)
  accept_completion r none = ok none
  accept_completion r (some (err reason)) = err (lit "state_read_failed")
  accept_completion r (some (ok c)) =
      if not (text_eq c.api plugin_api)
        || (not (text_eq c.effect path_effect_name) || not (e.same_path c.workspace r.workspace))
      then err (lit "state_invalid")
      else if not (e.same c.invocation r.invocation)
      then err (lit "state_invalid")
      else ok (some c.value)

  unfoldable pub load_observation_completion : Request V → Bool → Files V → Result Text (Option V)
  load_observation_completion r fault f =
      if fault then err (lit "state_read_failed") else accept_completion r f.completed

  abbrev pub load_state : Bool → File (EffectState V) → Result Text (EffectState V)
  load_state true file = err (lit "state_read_failed")
  load_state false none = err (lit "observation_not_found")
  load_state false (some (err reason)) = err (lit "state_read_failed")
  load_state false (some (ok s)) = ok s

  abbrev pub validate_state : Request V → EffectState V → Bool
  validate_state r s =
      text_eq s.api plugin_api
      && (text_eq s.effect path_effect_name
          && (is_observation s.state_kind
              && (text_eq s.workspace r.workspace && text_eq s.snapshot.workspace r.workspace)))

  abbrev pub is_mine : Request V → EffectState V → Bool
  is_mine r s = is_some_and (λ i. e.same i r.invocation) s.invocation

  -- `commit_observation` makes the completion of a call.
  abbrev pub completion : Request V → V → ObservationCompletion V
  completion r value = record {
    api = plugin_api;
    effect = path_effect_name;
    workspace = r.workspace;
    invocation = r.invocation;
    value = value;
  }

  abbrev pub result_of : Request V → EffectState V → WorkspaceSnapshot → V
  result_of r s after =
      e.to_value r.invocation r.outcome (snapshot_delta e.platform s.snapshot after)
        (length s.snapshot.paths) (length after.paths)

  -- The stage after a look at the completion, and the stage when there is none.
  abbrev pub after_completion : Stage V → Result Text (Option V) → Stage V
  after_completion missing (err code) = failed code
  after_completion missing (ok none) = missing
  after_completion missing (ok (some value)) = cleaning value

  abbrev pub after_state : Request V → Result Text (EffectState V) → Stage V
  after_state r (err code) =
      if text_eq code (lit "observation_not_found") then loading_again else failed code
  after_state r (ok s) =
      if validate_state r s && is_mine r s then capturing s else failed (lit "state_invalid")

  abbrev pub after_capture : Request V → EffectState V → Result Text WorkspaceSnapshot → Stage V
  after_capture r s (err code) = failed code
  after_capture r s (ok after) = staging (result_of r s after)

  -- `fs::hard_link` onto the completion's path: it fails where one is.
  abbrev pub link : Request V → V → Files V → File (ObservationCompletion V) → Files V × Stage V
  link r value f none = (record f { completed = some (ok (completion r value)) }, cleaning value)
  link r value f (some c) = (f, reloading)

  -- `fs::rename` of the claim onto the token's file.
  abbrev pub restore : Files V → File (EffectState V) → Files V × Stage V
  restore f none = (f, failed (lit "state_restore_failed"))
  restore f (some s) = (record f { original = some s; claimed = none }, loading)

  -- One step of a call. A call that returned or failed does nothing more.
  unfoldable pub step : Request V → Choice → Files V → Stage V → Files V × Stage V
  unfolding load_observation_completion
  step r c f starting = (f, after_completion recovering (load_observation_completion r c.fault f))
  step r c f recovering = (f, if is_file c.fault f.original then loading else claim_seen)
  step r c f claim_seen = (f, if is_file c.fault f.claimed then waited else loading)
  step r c f waited = (f, if is_file c.fault f.original then loading else rechecking)
  step r c f rechecking = (f, if is_file c.fault f.claimed then restoring else loading)
  step r c f restoring =
      if c.fault then (f, failed (lit "state_restore_failed")) else restore f f.claimed
  step r c f loading = (f, after_state r (load_state c.fault f.original))
  step r c f loading_again = (
    f,
    after_completion (failed (lit "observation_not_found"))
        (load_observation_completion r c.fault f),
  )
  step r c f (capturing s) = (f, after_capture r s c.capture)
  step r c f (staging v) = (f, if c.fault then failed (lit "state_commit_failed") else linking v)
  step r c f (linking v) =
      if c.fault then (f, failed (lit "state_commit_failed")) else link r v f f.completed
  step r c f reloading = (
    f,
    after_completion (failed (lit "state_commit_failed")) (load_observation_completion r c.fault f),
  )
  step r c f (cleaning v) =
      if c.fault
      then (f, failed (lit "state_delete_failed"))
      else (record f { original = none }, unclaiming v)
  step r c f (unclaiming v) =
      if c.fault
      then (f, failed (lit "state_delete_failed"))
      else (record f { claimed = none }, returned v)
  step r c f (returned v) = (f, returned v)
  step r c f (failed code) = (f, failed code)

  -- The files, and the stage of each call.
  pub record World : Type 0 where
    pub files : Files V
    pub stages : ℕ → Stage V

  abbrev pub turn : (ℕ → Request V) → Choice → World → World
  turn requests c w =
      let moved = step (requests c.call) c w.files (w.stages c.call) in
      record { files = moved.0; stages = λ i. if i == c.call then moved.1 else w.stages i }

  -- An interleaving of the calls' steps.
  unfoldable pub run : (ℕ → Request V) → List Choice → World → World
  unfolding step
  run requests [] w = w
  run requests (c ∷ more) w = run requests more (turn requests c w)
