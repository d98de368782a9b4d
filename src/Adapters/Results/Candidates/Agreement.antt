-- ===== src/Adapters/Results/Candidates/Agreement.antt =====
-- The accumulator agrees with the description after every event.
use agenstro.Common.{
  ℕ, ◌<◌, ◌≡◌, refl, sym, ap, subst, ◌∙◌, inl, inr, Bool, true, false, ◌||◌, is_some, List, [], ◌∷◌,
  ◌++◌, length-append, arith, if◌then◌else◌,
}
use agenstro.Common.Text.{Text}
use agenstro.Adapters.Results.{
  ProviderResultKind, plain, fragments, final, is_plain, ProviderResultAccumulator, usize_max,
  append, reset, append_fragments, observe_fragments, observe_final, observe_reported_failure,
}
use agenstro.Adapters.Results.Candidates.{
  Observation, observe_all, concat, Candidate, add_fragments, follow_all, has_failure, fragments_of,
  final_of, failure_of,
}
use agenstro.Adapters.Results.Candidates.Additions.{
  Fits, Keeps, Same, append_lem, append_fragments_lem, append_fragments-items,
}

or_false : (b : Bool) → b ≡ (b || false)
or_false true = refl
or_false false = refl

module _ (m : ℕ) (small : m < usize_max) where
  -- The accumulator holds this candidate, and knows of a failure when the flag says so.
  pub record Agrees (c : Candidate) (failed : Bool) (r : ProviderResultAccumulator) : Type 0 where
    pub kind : r.kind ≡ c.kind
    pub bound : r.max_result_bytes ≡ m
    pub reported : r.reported_failure ≡ failed
    pub keeps : Keeps m small c.text r
    pub unused : is_plain c.kind ≡ true → c.text ≡ []
    pub used : is_plain c.kind ≡ false → 0 < r.items

  extended-Agrees :
      (k : ProviderResultKind) (text : Text) (failed : Bool) (r r' : ProviderResultAccumulator)
      → r.kind ≡ k
      → is_plain k ≡ false
      → r.reported_failure ≡ failed
      → Keeps m small text r' × Same m small r r'
      → 0 < r'.items
      → Agrees (record { kind = k; text = text }) failed r'
  extended-Agrees k text failed r r' e p f (q, (k', w, f')) pos = record {
    kind = k' ∙ e;
    bound = w;
    reported = f' ∙ f;
    keeps = q;
    unused = λ z. cc (z, p);
    used = λ z. pos;
  }

  observe_final-Agrees :
      (t : Text) (c : Candidate) (failed : Bool) (r : ProviderResultAccumulator)
      → Agrees c failed r
      → Agrees (record { kind = final; text = t }) failed (observe_final t r)
  unfolding observe_final reset
  observe_final-Agrees t c failed r h =
      let (q, s, pos) =
        append_lem m small t [] (reset final r) h.bound (refl, refl, refl, omega arith) in
      extended-Agrees final t failed (reset final r) (append t [] (reset final r)) refl refl
        h.reported (q, s) pos

  append_fragments-Agrees :
      (t : Text) (ts : List Text) (text : Text) (failed : Bool) (r : ProviderResultAccumulator)
      → r.kind ≡ fragments
      → r.max_result_bytes ≡ m
      → r.reported_failure ≡ failed
      → Fits m small text r
      → Agrees
          (record { kind = fragments; text = text ++ concat (t ∷ ts) })
          failed
          (append_fragments (t ∷ ts) r)
  append_fragments-Agrees t ts text failed r e w f h =
      extended-Agrees fragments (text ++ concat (t ∷ ts)) failed r (append_fragments (t ∷ ts) r) e
        refl f (append_fragments_lem m small (t ∷ ts) text r w h) (append_fragments-items t ts r)

  choose-Agrees :
      (b : Bool) (c : Candidate) (failed : Bool) (r r' : ProviderResultAccumulator)
      → (b ≡ true → Agrees c failed r)
      → (b ≡ false → Agrees c failed r')
      → Agrees c failed (if b then r else r')
  choose-Agrees true c failed r r' h h' = h refl
  choose-Agrees false c failed r r' h h' = h' refl

  observe_fragments-Agrees :
      (k : ProviderResultKind) (t : Text) (ts : List Text) (c : Candidate) (failed : Bool)
      (r : ProviderResultAccumulator)
      → c.kind ≡ k
      → Agrees c failed r
      → Agrees (add_fragments (t ∷ ts) c) failed (observe_fragments (t ∷ ts) r)
  unfolding observe_fragments reset
  observe_fragments-Agrees plain t ts c failed r e h =
      rw (h.kind ∙ e, e, h.unused (ap is_plain e))
        (append_fragments-Agrees t ts [] failed (reset fragments r) refl h.bound h.reported
          (refl, refl, refl, omega arith))
  observe_fragments-Agrees fragments t ts c failed r e h =
      simp (h.kind ∙ e, e)
        (choose-Agrees (is_some r.overflow) longer_text failed r (append_fragments (t ∷ ts) r)
          (over h.keeps) (under h.keeps))
    where
      longer_text : Candidate
      longer_text = record { kind = fragments; text = c.text ++ concat (t ∷ ts) }

      over : Keeps m small c.text r → is_some r.overflow ≡ true → Agrees longer_text failed r
      over (inl (v, a, b, d)) z = cc (ap is_some v, z)
      over (inr (o, long)) z = record {
        kind = h.kind ∙ e;
        bound = h.bound;
        reported = h.reported;
        keeps = inr (o, omega (arith, long, length-append c.text (concat (t ∷ ts))));
        unused = λ v. cc v;
        used = λ v. h.used (ap is_plain e);
      }

      under :
          Keeps m small c.text r
          → is_some r.overflow ≡ false
          → Agrees longer_text failed (append_fragments (t ∷ ts) r)
      under (inl (v, a, b, d)) z =
          append_fragments-Agrees t ts c.text failed r (h.kind ∙ e) h.bound h.reported (v, a, b, d)
      under (inr (o, long)) z = cc (o, z)
  observe_fragments-Agrees final t ts c failed r e h = simp (h.kind ∙ e, e) h

  or_true : (b : Bool) → (b || true) ≡ true
  or_true true = refl
  or_true false = refl

  pub observe_all-Agrees :
      (os : List Observation) (c : Candidate) (failed : Bool) (r : ProviderResultAccumulator)
      → Agrees c failed r
      → Agrees (follow_all os c) (failed || has_failure os) (observe_all os r)
  unfolding observe_fragments observe_reported_failure
  observe_all-Agrees [] c failed r h = subst (λ z. Agrees c z r) (or_false failed) h
  observe_all-Agrees (fragments_of [] ∷ os) c failed r h = observe_all-Agrees os c failed r h
  observe_all-Agrees (fragments_of (t ∷ ts) ∷ os) c failed r h =
      observe_all-Agrees os (add_fragments (t ∷ ts) c) failed (observe_fragments (t ∷ ts) r)
        (observe_fragments-Agrees c.kind t ts c failed r refl h)
  observe_all-Agrees (final_of t ∷ os) c failed r h =
      observe_all-Agrees os _ failed (observe_final t r) (observe_final-Agrees t c failed r h)
  observe_all-Agrees (failure_of ∷ os) c failed r h =
      subst (λ z. Agrees (follow_all os c) z (observe_all os (observe_reported_failure r)))
        (sym (or_true failed))
        (observe_all-Agrees os c true (observe_reported_failure r) (record {
          kind = h.kind;
          bound = h.bound;
          reported = refl;
          keeps = h.keeps;
          unused = h.unused;
          used = h.used;
        }))
