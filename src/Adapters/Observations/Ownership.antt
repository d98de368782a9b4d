-- ===== src/Adapters/Observations/Ownership.antt =====
-- tactus-runtime/src/adapters.rs: what the files of an observation hold stays its own.
use agenstro.Common.{
  Bool, true, false, ◌&&◌, Option, none, some, Result, ok, err, List, [], ◌∷◌, if◌then◌else◌, arith,
  ◌≡◌, refl, ap, subst,
}
use agenstro.Common.Text.{Text, text_eq_refl}
use agenstro.Protocol.{plugin_api}
use agenstro.Adapters.Observations.{
  ObservationCompletion, EffectState, Files, Effects, Request, Stage, starting, recovering,
  claim_seen, waited, rechecking, restoring, loading, loading_again, capturing, staging, linking,
  reloading, cleaning, unclaiming, returned, failed, Choice, File, accept_completion, link, restore,
  completion, step, World, turn, run, path_effect_name, validate_state, is_mine,
}
use agenstro.Adapters.Observations.Steps.{is_kept, step-IsStep}
use agenstro.Adapters.Observations.Agreement.{AllBacked, turn-AllBacked}

module _ (V : Type 0) (e : Effects V) (r : Request V) where
  abbrev pub is_sound_state : File (EffectState V) → Bool
  is_sound_state none = true
  is_sound_state (some (err reason)) = false
  is_sound_state (some (ok s)) = validate_state V e r s && is_mine V e r s

  abbrev pub is_accepted : Result Text (Option V) → Bool
  is_accepted (err code) = false
  is_accepted (ok v) = true

  -- What the files hold belongs to the request.
  abbrev pub IsOwn : Files V → Type 0
  IsOwn f =
      (is_sound_state f.original ≡ true)
      × (is_sound_state f.claimed ≡ true)
      × (is_accepted (accept_completion V e r f.completed) ≡ true)

  pub accepted-ok :
      (c : ObservationCompletion V)
      → is_accepted (accept_completion V e r (some (ok c))) ≡ true
      → accept_completion V e r (some (ok c)) ≡ ok (some c.value)
  accepted-ok c h = ground arith

  module _ (own : e.same r.invocation r.invocation ≡ true)
      (here : e.same_path r.workspace r.workspace ≡ true) where
    completion-accepted :
        (v : V) → accept_completion V e r (some (ok (completion V e r v))) ≡ ok (some v)
    completion-accepted v =
        rw (text_eq_refl plugin_api, text_eq_refl path_effect_name, here, own) refl

    linked-IsOwn :
        (v : V) (f : Files V) (file : File (ObservationCompletion V))
        → IsOwn f
        → IsOwn (link V e r v f file).0
    linked-IsOwn v f none (a, b, c) = (a, b, ap is_accepted (completion-accepted v))
    linked-IsOwn v f (some x) s = s

    restored-IsOwn :
        (f : Files V) (file : File (EffectState V))
        → f.claimed ≡ file
        → IsOwn f
        → IsOwn (restore V e f file).0
    restored-IsOwn f none h s = s
    restored-IsOwn f (some x) h (a, b, c) =
        (subst (λ (o : File (EffectState V)). is_sound_state o ≡ true) h b, refl, c)

    unless_fault :
        (b : Bool) (p q : Files V × Stage V) → IsOwn p.0 → IsOwn q.0 → IsOwn (if b then p else q).0
    unless_fault true p q s t = s
    unless_fault false p q s t = t

    step-IsOwn : (c : Choice) (f : Files V) (st : Stage V) → IsOwn f → IsOwn (step V e r c f st).0
    unfolding step
    step-IsOwn c f restoring s =
        unless_fault c.fault _ (restore V e f f.claimed) s (restored-IsOwn f f.claimed refl s)
    step-IsOwn c f (linking v) s =
        unless_fault c.fault _ (link V e r v f f.completed) s (linked-IsOwn v f f.completed s)
    step-IsOwn c f (cleaning v) s = unless_fault c.fault _ _ s (refl, s.1, s.2)
    step-IsOwn c f (unclaiming v) s = unless_fault c.fault _ _ s (s.0, refl, s.2)
    step-IsOwn c f starting s = s
    step-IsOwn c f recovering s = s
    step-IsOwn c f claim_seen s = s
    step-IsOwn c f waited s = s
    step-IsOwn c f rechecking s = s
    step-IsOwn c f loading s = s
    step-IsOwn c f loading_again s = s
    step-IsOwn c f (capturing x) s = s
    step-IsOwn c f (staging v) s = s
    step-IsOwn c f reloading s = s
    step-IsOwn c f (returned v) s = s
    step-IsOwn c f (failed code) s = s

    pub run-IsOwn :
        (schedule : List Choice) (w : World V e)
        → IsOwn w.files
        → IsOwn (run V e (λ i. r) schedule w).files
    unfolding run
    run-IsOwn [] w s = s
    run-IsOwn (c ∷ more) w s =
        run-IsOwn more (turn V e (λ i. r) c w) (step-IsOwn c w.files (w.stages c.call) s)

    pub run-kept :
        (schedule : List Choice) (w : World V e)
        → AllBacked V e (λ i. r) w
        → is_kept V e w.files ≡ true
        → is_kept V e (run V e (λ i. r) schedule w).files ≡ true
    unfolding run
    run-kept [] w b k = k
    run-kept (c ∷ more) w b k =
        run-kept more (turn V e (λ i. r) c w) (turn-AllBacked V e (λ i. r) c w b)
          ((step-IsStep V e r c w.files (w.stages c.call) (b c.call)).kept k)
