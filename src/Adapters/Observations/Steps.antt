-- ===== src/Adapters/Observations/Steps.antt =====
-- tactus-runtime/src/adapters.rs: what one step of a call of `observe.end` keeps.
use agenstro.Common.{
  Bool, true, false, ◌&&◌, ◌||◌, not, none, some, is_some, Result, ok, err, if◌then◌else◌, arith,
  ◌≡◌, refl, sym, ◌∙◌, ◌⊎◌, inl, inr, Bool-cases,
}
use agenstro.Common.Text.{Text, lit, text_eq}
use agenstro.Protocol.{plugin_api}
use agenstro.Adapters.Snapshots.{WorkspaceSnapshot}
use agenstro.Adapters.Observations.{
  path_effect_name, validate_state, is_mine, ObservationCompletion, EffectState, Files, Effects,
  Request, Stage, starting, recovering, claim_seen, waited, rechecking, restoring, loading,
  loading_again, capturing, staging, linking, reloading, cleaning, unclaiming, returned, failed,
  Choice, File, is_file, accept_completion, load_observation_completion, after_completion,
  load_state, after_state, after_capture, link, restore, completion, step,
}

module _ (V : Type 0) (e : Effects V) where
  -- The completion holds the value, for the invocation of the call.
  pub record IsCommitted (r : Request V) (f : Files V) (v : V) : Type 0 where
    pub committed : ObservationCompletion V
    pub present : f.completed ≡ some (ok committed)
    pub is_value : committed.value ≡ v
    pub is_for :
        (committed.invocation ≡ r.invocation) ⊎ (e.same committed.invocation r.invocation ≡ true)

  abbrev pub Backed : Request V → Files V → Stage V → Type 0
  Backed r f (cleaning v) = IsCommitted r f v
  Backed r f (unclaiming v) = IsCommitted r f v
  Backed r f (returned v) = IsCommitted r f v
  Backed r f _ = Unit

  -- What the observation is kept by: its state, under one of two names, or its completion.
  abbrev pub is_kept : Files V → Bool
  is_kept f = is_some f.completed || (is_some f.original || is_some f.claimed)

  pub record IsStep (r : Request V) (f : Files V) (next : Files V × Stage V) : Type 0 where
    pub lasts :
        (x : Result Text (ObservationCompletion V))
        → f.completed ≡ some x
        → next.0.completed ≡ some x
    pub backed : Backed r next.0 next.1
    pub kept : is_kept f ≡ true → is_kept next.0 ≡ true

  -- A step that leaves the files alone.
  still : (r : Request V) (f : Files V) (st : Stage V) → Backed r f st → IsStep r f (f, st)
  still r f st b = record { lasts = λ x h. h; backed = b; kept = λ h. h }

  abbrev is_foreign : Request V → ObservationCompletion V → Bool
  is_foreign r c =
      not (text_eq c.api plugin_api)
      || (not (text_eq c.effect path_effect_name) || not (e.same_path c.workspace r.workspace))

  found :
      (r : Request V) (f : Files V) (missing : Stage V) (file : File (ObservationCompletion V))
      → f.completed ≡ file
      → Backed r f missing
      → Backed r f (after_completion V e missing (accept_completion V e r file))
  found r f missing none h b = b
  found r f missing (some (err reason)) h b = tt
  found r f missing (some (ok c)) h b = elim (Bool-cases (is_foreign r c)) [
    | inl p ↦ rw p tt
    | inr p ↦ elim (Bool-cases (e.same c.invocation r.invocation)) [
      | inl q ↦ rw (p, q) (record { committed = c; present = h; is_value = refl; is_for = inr q })
      | inr q ↦ rw (p, q) tt
    ]
  ]

  after_look :
      (r : Request V) (f : Files V) (fault : Bool) (missing : Stage V)
      → Backed r f missing
      → IsStep r f (f, after_completion V e missing (load_observation_completion V e r fault f))
  unfolding load_observation_completion
  after_look r f true missing b = still r f _ tt
  after_look r f false missing b = still r f _ (found r f missing f.completed refl b)

  choose :
      (r : Request V) (f : Files V) (b : Bool) (s t : Stage V)
      → Backed r f s
      → Backed r f t
      → IsStep r f (f, if b then s else t)
  choose r f true s t p q = still r f s p
  choose r f false s t p q = still r f t q

  looked_at_state :
      (r : Request V) (f : Files V) (q : Result Text (EffectState V))
      → IsStep r f (f, after_state V e r q)
  looked_at_state r f (err code) =
      choose r f (text_eq code (lit "observation_not_found")) loading_again (failed code) tt tt
  looked_at_state r f (ok s) =
      choose r f (validate_state V e r s && is_mine V e r s) (capturing s)
        (failed (lit "state_invalid")) tt tt

  captured :
      (r : Request V) (f : Files V) (s : EffectState V) (q : Result Text WorkspaceSnapshot)
      → IsStep r f (f, after_capture V e r s q)
  captured r f s (err code) = still r f _ tt
  captured r f s (ok after) = still r f _ tt

  linked :
      (r : Request V) (v : V) (f : Files V) (file : File (ObservationCompletion V))
      → f.completed ≡ file
      → IsStep r f (link V e r v f file)
  linked r v f none h = record {
    lasts = λ x k. cc;
    backed = record {
      committed = completion V e r v;
      present = refl;
      is_value = refl;
      is_for = inl refl;
    };
    kept = λ k. refl;
  }
  linked r v f (some c) h = still r f _ tt

  restored :
      (r : Request V) (f : Files V) (file : File (EffectState V)) → IsStep r f (restore V e f file)
  restored r f none = still r f _ tt
  restored r f (some s) = record { lasts = λ x k. k; backed = tt; kept = λ k. ground arith }

  -- A removal of files, which the completion outlasts.
  removed :
      (r : Request V) (f g : Files V) (st : Stage V) (v : V)
      → f.completed ≡ g.completed
      → IsCommitted r f v
      → (IsCommitted r g v → Backed r g st)
      → IsStep r f (g, st)
  removed r f g st v h c b = record {
    lasts = λ x k. sym h ∙ k;
    backed = b (record {
      committed = c.committed;
      present = sym h ∙ c.present;
      is_value = c.is_value;
      is_for = c.is_for;
    });
    kept = λ k. rw (sym h ∙ c.present) refl;
  }

  pub step-IsStep :
      (r : Request V) (c : Choice) (f : Files V) (st : Stage V)
      → Backed r f st
      → IsStep r f (step V e r c f st)
  unfolding step
  step-IsStep r c f starting b = after_look r f c.fault recovering tt
  step-IsStep r c f recovering b = choose r f (is_file c.fault f.original) loading claim_seen tt tt
  step-IsStep r c f claim_seen b = choose r f (is_file c.fault f.claimed) waited loading tt tt
  step-IsStep r c f waited b = choose r f (is_file c.fault f.original) loading rechecking tt tt
  step-IsStep r c f rechecking b = choose r f (is_file c.fault f.claimed) restoring loading tt tt
  step-IsStep r c f restoring b = elim (Bool-cases c.fault) [
    | inl h ↦ rw h (still r f (failed (lit "state_restore_failed")) tt)
    | inr h ↦ rw h (restored r f f.claimed)
  ]
  step-IsStep r c f loading b = looked_at_state r f (load_state V e c.fault f.original)
  step-IsStep r c f loading_again b =
      after_look r f c.fault (failed (lit "observation_not_found")) tt
  step-IsStep r c f (capturing s) b = captured r f s c.capture
  step-IsStep r c f (staging v) b =
      choose r f c.fault (failed (lit "state_commit_failed")) (linking v) tt tt
  step-IsStep r c f (linking v) b = elim (Bool-cases c.fault) [
    | inl h ↦ rw h (still r f (failed (lit "state_commit_failed")) tt)
    | inr h ↦ rw h (linked r v f f.completed refl)
  ]
  step-IsStep r c f reloading b = after_look r f c.fault (failed (lit "state_commit_failed")) tt
  step-IsStep r c f (cleaning v) b = elim (Bool-cases c.fault) [
    | inl h ↦ rw h (still r f (failed (lit "state_delete_failed")) tt)
    | inr h ↦ rw h (removed r f (record f { original = none }) (unclaiming v) v refl b (λ k. k))
  ]
  step-IsStep r c f (unclaiming v) b = elim (Bool-cases c.fault) [
    | inl h ↦ rw h (still r f (failed (lit "state_delete_failed")) tt)
    | inr h ↦ rw h (removed r f (record f { claimed = none }) (returned v) v refl b (λ k. k))
  ]
  step-IsStep r c f (returned v) b = still r f _ b
  step-IsStep r c f (failed code) b = still r f _ tt
