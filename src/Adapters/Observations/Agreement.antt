-- ===== src/Adapters/Observations/Agreement.antt =====
-- tactus-runtime/src/adapters.rs: calls of `observe.end` that run at once agree on one value.
use agenstro.Common.{
  ℕ, some, Result, ok, List, [], ◌∷◌, ◌==◌, ◌≡◌, sym, subst, inl, inr, Bool-cases, ==_iff,
}
use agenstro.Common.Text.{Text}
use agenstro.Adapters.Observations.{
  ObservationCompletion, Files, Effects, Request, Stage, starting, recovering, claim_seen, waited,
  rechecking, restoring, loading, loading_again, capturing, staging, linking, reloading, cleaning,
  unclaiming, returned, failed, Choice, step, World, turn, run,
}
use agenstro.Adapters.Observations.Steps.{IsCommitted, Backed, step-IsStep}

module _ (V : Type 0) (e : Effects V) where
  IsCommitted-lasts :
      (r : Request V) (f g : Files V) (v : V)
      → ((x : Result Text (ObservationCompletion V)) → f.completed ≡ some x → g.completed ≡ some x)
      → IsCommitted V e r f v
      → IsCommitted V e r g v
  IsCommitted-lasts r f g v h c = record {
    committed = c.committed;
    present = h (ok c.committed) c.present;
    is_value = c.is_value;
    is_for = c.is_for;
  }

  Backed-lasts :
      (r : Request V) (f g : Files V) (st : Stage V)
      → ((x : Result Text (ObservationCompletion V)) → f.completed ≡ some x → g.completed ≡ some x)
      → Backed V e r f st
      → Backed V e r g st
  Backed-lasts r f g (cleaning v) h b = IsCommitted-lasts r f g v h b
  Backed-lasts r f g (unclaiming v) h b = IsCommitted-lasts r f g v h b
  Backed-lasts r f g (returned v) h b = IsCommitted-lasts r f g v h b
  Backed-lasts r f g starting h b = tt
  Backed-lasts r f g recovering h b = tt
  Backed-lasts r f g claim_seen h b = tt
  Backed-lasts r f g waited h b = tt
  Backed-lasts r f g rechecking h b = tt
  Backed-lasts r f g restoring h b = tt
  Backed-lasts r f g loading h b = tt
  Backed-lasts r f g loading_again h b = tt
  Backed-lasts r f g (capturing s) h b = tt
  Backed-lasts r f g (staging v) h b = tt
  Backed-lasts r f g (linking v) h b = tt
  Backed-lasts r f g reloading h b = tt
  Backed-lasts r f g (failed code) h b = tt

  module _ (requests : ℕ → Request V) where
    abbrev pub AllBacked : World V e → Type 0
    AllBacked w = (i : ℕ) → Backed V e (requests i) w.files (w.stages i)

    pub turn-AllBacked :
        (c : Choice) (w : World V e) → AllBacked w → AllBacked (turn V e requests c w)
    turn-AllBacked c w b i =
        let s = step-IsStep V e (requests c.call) c w.files (w.stages c.call) (b c.call) in
        elim (Bool-cases (i == c.call)) [
          | inl h ↦ rw h (
              subst
                (λ (k : ℕ).
                  Backed V e (requests k) (turn V e requests c w).files
                    (step V e (requests c.call) c w.files (w.stages c.call)).1)
                (sym ((==_iff i c.call).0 h)) s.backed)
          | inr h ↦ rw h (
              Backed-lasts (requests i) w.files (turn V e requests c w).files (w.stages i) s.lasts
                (b i))
        ]

    pub run-AllBacked :
        (schedule : List Choice) (w : World V e)
        → AllBacked w
        → AllBacked (run V e requests schedule w)
    unfolding run
    run-AllBacked [] w b = b
    run-AllBacked (c ∷ more) w b = run-AllBacked more (turn V e requests c w) (turn-AllBacked c w b)

    pub starting-AllBacked : (w : World V e) → ((i : ℕ) → w.stages i ≡ starting) → AllBacked w
    starting-AllBacked w h i = rw (h i) tt
