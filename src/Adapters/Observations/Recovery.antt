-- ===== src/Adapters/Observations/Recovery.antt =====
-- tactus-runtime/src/adapters.rs: a call of `observe.end` after calls that were interrupted anywhere.
use agenstro.Common.{
  ℕ, zero, suc, true, false, ◌||◌, none, some, is_some, ok, err, List, [], ◌∷◌, ◌==◌, ◌≡◌, refl,
  sym, subst, subst₂, ==_iff,
}
use agenstro.Adapters.Snapshots.{WorkspaceSnapshot}
use agenstro.Adapters.Observations.{
  ObservationCompletion, EffectState, Files, Effects, Request, Stage, starting, recovering,
  claim_seen, waited, rechecking, restoring, loading, capturing, cleaning, returned, Choice, File,
  accept_completion, load_observation_completion, completion, step, World, turn, run, result_of,
}
use agenstro.Adapters.Observations.Steps.{is_kept}
use agenstro.Adapters.Observations.Agreement.{starting-AllBacked}
use agenstro.Adapters.Observations.Ownership.{
  IsOwn, is_sound_state, is_accepted, accepted-ok, run-IsOwn, run-kept,
}

module _ (V : Type 0) (e : Effects V) (r : Request V) where
  -- A step of a request on its own, `n` times.
  abbrev pub alone : ℕ → Choice → Files V × Stage V → Files V × Stage V
  alone zero c p = p
  alone (suc n) c p = alone n c (step V e r c p.0 p.1)

  module _ (own : e.same r.invocation r.invocation ≡ true)
      (here : e.same_path r.workspace r.workspace ≡ true) where
    -- The call has returned, and the files of the observation's state are gone.
    pub record HasReturned (p : Files V × Stage V) : Type 0 where
      pub value : V
      pub is_returned : p.1 ≡ returned value
      pub no_original : p.0.original ≡ none
      pub no_claim : p.0.claimed ≡ none

    module _ (call : ℕ) (after : WorkspaceSnapshot) where
      abbrev pub healthy : Choice
      healthy = record { call = call; fault = false; capture = ok after }

      returned-stays :
          (n : ℕ) (f : Files V) (v : V) → alone n healthy (f, returned v) ≡ (f, returned v)
      unfolding step
      returned-stays zero f v = refl
      returned-stays (suc n) f v = returned-stays n f v

      cleaning-returns :
          (n : ℕ) (f : Files V) (v : V) → HasReturned (alone (suc (suc n)) healthy (f, cleaning v))
      unfolding step
      cleaning-returns n f v =
          subst HasReturned
            (sym (returned-stays n (record f { original = none; claimed = none }) v))
            (record { value = v; is_returned = refl; no_original = refl; no_claim = refl })

      capturing-returns :
          (n : ℕ) (f : Files V) (s : EffectState V)
          → f.completed ≡ none
          → HasReturned (alone (suc (suc (suc (suc (suc n))))) healthy (f, capturing s))
      unfolding step
      capturing-returns n f s h = simp h (
          cleaning-returns n
            (record f { completed = some (ok (completion V e r (result_of V e r s after))) })
            (result_of V e r s after))

      loading-returns :
          (n : ℕ) (f : Files V) (file : File (EffectState V))
          → f.original ≡ file
          → is_some file ≡ true
          → is_sound_state V e r file ≡ true
          → f.completed ≡ none
          → HasReturned (alone (suc (suc (suc (suc (suc (suc n)))))) healthy (f, loading))
      unfolding step
      loading-returns n f none h k s c = cc
      loading-returns n f (some (err reason)) h k s c = cc
      loading-returns n f (some (ok x)) h k s c = simp (h, s) (capturing-returns n f x c)

      alone-step :
          (n : ℕ) (f : Files V) (st : Stage V) (q : Files V × Stage V)
          → step V e r healthy f st ≡ q
          → HasReturned (alone n healthy q)
          → HasReturned (alone (suc n) healthy (f, st))
      alone-step n f st q h k =
          subst (λ (p : Files V × Stage V). HasReturned (alone n healthy p)) (sym h) k

      restoring-returns :
          (f : Files V) (file : File (EffectState V))
          → f.claimed ≡ file
          → is_some file ≡ true
          → IsOwn V e r f
          → f.completed ≡ none
          → HasReturned (alone 7 healthy (f, restoring))
      unfolding step
      restoring-returns f none h k s c = cc
      restoring-returns f (some x) h k s c = simp h (
          loading-returns 0 (record f { original = some x; claimed = none }) (some x) refl refl
            (subst (λ (o : File (EffectState V)). is_sound_state V e r o ≡ true) h s.1) c)

      recovering-returns :
          (f : Files V) (file claim : File (EffectState V))
          → f.original ≡ file
          → f.claimed ≡ claim
          → is_some file || is_some claim ≡ true
          → IsOwn V e r f
          → f.completed ≡ none
          → HasReturned (alone 11 healthy (f, recovering))
      unfolding step
      recovering-returns f (some x) claim h k o s c =
          alone-step 10 f recovering (f, loading) (simp h refl)
            (loading-returns 4 f (some x) h refl
              (subst (λ (y : File (EffectState V)). is_sound_state V e r y ≡ true) h s.0) c)
      recovering-returns f none (some x) h k o s c =
          alone-step 10 f recovering (f, claim_seen) (simp h refl)
            (alone-step 9 f claim_seen (f, waited) (simp k refl)
              (alone-step 8 f waited (f, rechecking) (simp h refl)
                (alone-step 7 f rechecking (f, restoring) (simp k refl)
                  (restoring-returns f (some x) k refl s c))))
      recovering-returns f none none h k o s c = cc

      starting-returns :
          (f : Files V) (file : File (ObservationCompletion V))
          → f.completed ≡ file
          → IsOwn V e r f
          → is_kept V e f ≡ true
          → HasReturned (alone 12 healthy (f, starting))
      unfolding step load_observation_completion
      starting-returns f none h s k =
          alone-step 11 f starting (f, recovering) (simp h refl)
            (recovering-returns f f.original f.claimed refl refl
              (subst
                (λ (o : File (ObservationCompletion V)).
                  is_some o || (is_some f.original || is_some f.claimed) ≡ true)
                h k)
              s h)
      starting-returns f (some (err reason)) h s k =
          let b =
            subst
              (λ (o : File (ObservationCompletion V)).
                is_accepted V e r (accept_completion V e r o) ≡ true)
              h s.2 in
          cc
      starting-returns f (some (ok c)) h s k =
          let b =
            subst
              (λ (o : File (ObservationCompletion V)).
                is_accepted V e r (accept_completion V e r o) ≡ true)
              h s.2 in
          let a = accepted-ok V e r c b in
          alone-step 11 f starting (f, cleaning c.value) (simp (h, a) refl)
            (cleaning-returns 9 f c.value)

      -- The call's own turns are those of a machine on its own.
      abbrev pub turns : ℕ → List Choice
      turns zero = []
      turns (suc n) = healthy ∷ turns n

      run-alone :
          (n : ℕ) (w : World V e)
          → ((run V e (λ i. r) (turns n) w).files ≡ (alone n healthy (w.files, w.stages call)).0)
            × ((run V e (λ i. r) (turns n) w).stages call
                ≡ (alone n healthy (w.files, w.stages call)).1)
      unfolding run
      run-alone zero w = (refl, refl)
      run-alone (suc n) w =
          let ih = run-alone n (turn V e (λ i. r) healthy w) in
          let same : (call == call) ≡ true = (==_iff call call).1 refl in
          let there : (turn V e (λ i. r) healthy w).stages call
              ≡ (step V e r healthy w.files (w.stages call)).1 =
            rw same refl in
          subst
            (λ (st : Stage V).
              ((run V e (λ i. r) (turns n) (turn V e (λ i. r) healthy w)).files
                ≡ (alone n healthy ((turn V e (λ i. r) healthy w).files, st)).0)
              × ((run V e (λ i. r) (turns n) (turn V e (λ i. r) healthy w)).stages call
                  ≡ (alone n healthy ((turn V e (λ i. r) healthy w).files, st)).1))
            there ih

      -- After any interleaving of calls of one request, of which any operations failed and any call may
      -- have stopped halfway, a call that has not begun returns a value when it runs on its own, none
      -- of its operations fails and the workspace can be captured: twelve steps are enough, and the
      -- state of the observation is gone then. The calls all begin on files that hold the observation
      -- or its completion, and nothing else touches them; the equality of invocations and of paths is
      -- reflexive.
      pub run-returns :
          (schedule : List Choice) (w : World V e)
          → ((i : ℕ) → w.stages i ≡ starting)
          → IsOwn V e r w.files
          → is_kept V e w.files ≡ true
          → (run V e (λ i. r) schedule w).stages call ≡ starting
          → HasReturned (
            (run V e (λ i. r) (turns 12) (run V e (λ i. r) schedule w)).files,
            (run V e (λ i. r) (turns 12) (run V e (λ i. r) schedule w)).stages call,
          )
      run-returns schedule w starts own_files kept fresh =
          let final = run V e (λ i. r) schedule w in
          let q = run-alone 12 final in
          let s = run-IsOwn V e r own here schedule w own_files in
          let k =
            run-kept V e r own here schedule w (starting-AllBacked V e (λ i. r) w starts) kept in
          let done = starting-returns final.files final.files.completed refl s k in
          let begun =
            subst (λ (st : Stage V). HasReturned (alone 12 healthy (final.files, st))) (sym fresh)
              done in
          subst₂ (λ (f : Files V) (st : Stage V). HasReturned (f, st)) (sym q.0) (sym q.1) begun
