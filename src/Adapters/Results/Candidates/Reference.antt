-- ===== src/Adapters/Results/Candidates/Reference.antt =====
-- The end of the accumulator is the one of the description.
use agenstro.Common.{
  ℕ, ◌<◌, ◌≡◌, refl, sym, ap, ap₂, ◌∙◌, inl, inr, Bool, true, false, ◌&&◌, Option, none, some, ok,
  err, map_err, List, [], ltb, lt→ltb, length, arith, if◌then◌else◌,
}
use agenstro.Common.Text.{Text, lit}
use agenstro.Adapters.{Provider, codex, claude_code, open_code, antigravity, AdapterError}
use agenstro.Adapters.Results.{
  ProviderResultKind, plain, fragments, final, ProviderResultOverflow, is_plain,
  ProviderResultAccumulator, usize_max, new_result, finish, finish_with, authoritative_kind,
  has_authoritative_result, finish_provider_result, recognized, finalize_provider_result,
}
use agenstro.Adapters.Results.Candidates.{
  Observation, observe_all, candidate, has_failure, reference,
}
use agenstro.Adapters.Results.Candidates.Additions.{Keeps}
use agenstro.Adapters.Results.Candidates.Agreement.{Agrees, observe_all-Agrees}

plain_authority : (p : Provider) → authoritative_kind p plain ≡ false
plain_authority codex = refl
plain_authority claude_code = refl
plain_authority open_code = refl
plain_authority antigravity = refl

and_false : (b : Bool) → (b && false) ≡ false
and_false true = refl
and_false false = refl

finished :
    (r : ProviderResultAccumulator) (q : Option ProviderResultOverflow) (text : Text)
    → r.overflow ≡ q
    → r.text ≡ text
    → finish r ≡ finish_with q text
unfolding finish
finished r q text z t = ap₂ finish_with z t

module _ {N : Type 0} (from_usize : ℕ → N) (p : Provider) where
  recognition :
      (items : ℕ) (k : ProviderResultKind)
      → (is_plain k ≡ false → 0 < items)
      → (ltb 0 items && authoritative_kind p k) ≡ authoritative_kind p k
  recognition items plain h = rw (plain_authority p) (and_false (ltb 0 items))
  recognition items fragments h = rw (lt→ltb 0 items (h refl)) refl
  recognition items final h = rw (lt→ltb 0 items (h refl)) refl

  finalized :
      (m : ℕ) (small : m < usize_max) (os : List Observation) (r : ProviderResultAccumulator)
      → Agrees m small (candidate os) (has_failure os) r
      → map_err (λ (e : AdapterError N). e.code) (finalize_provider_result from_usize p r)
        ≡ reference m p os
  unfolding finalize_provider_result finish_provider_result has_authoritative_result
  finalized m small os r h = simp h.reported (by_failure (has_failure os))
    where
      by_overflow :
          Keeps m small (candidate os).text r
          → (q : Option ProviderResultOverflow) → r.overflow ≡ q
          → map_err
              (λ (e : AdapterError N). e.code)
              (recognized from_usize
                (has_authoritative_result p r)
                (finish_provider_result from_usize p r))
            ≡ (if ltb m (length (candidate os).text)
                then err (lit "outcome_unknown")
                else ok ((candidate os).text, authoritative_kind p (candidate os).kind, false))
      by_overflow (inl (v, t, n, fits)) (some o) z = cc (z, v)
      by_overflow (inr (over, long)) none z = cc (z, over)
      by_overflow (inr (over, long)) (some o) z =
          rw (finished r (some o) r.text z refl, lt→ltb m (length (candidate os).text) long) refl
      by_overflow (inl (v, t, n, fits)) none z =
          let tested : ltb m (length (candidate os).text) ≡ false = ground (arith, fits) in
          let own : (ltb 0 r.items && authoritative_kind p r.kind)
              ≡ authoritative_kind p (candidate os).kind =
            recognition r.items r.kind (λ k. h.used (ap is_plain (sym h.kind) ∙ k))
            ∙ ap (authoritative_kind p) h.kind in
          rw (finished r none (candidate os).text z t, own, tested) refl

      by_failure :
          (b : Bool)
          → map_err
              (λ (e : AdapterError N). e.code)
              (if b
                then ok ([], true, true)
                else recognized from_usize
                    (has_authoritative_result p r)
                    (finish_provider_result from_usize p r))
            ≡ (if b
                then ok ([], true, true)
                else if ltb m (length (candidate os).text)
                then err (lit "outcome_unknown")
                else ok ((candidate os).text, authoritative_kind p (candidate os).kind, false))
      by_failure true = refl
      by_failure false = by_overflow h.keeps r.overflow refl

  -- Whatever a provider writes, the end of an accumulator whose limit is below the largest `usize` is
  -- the one of a description that keeps
  -- everything: a reported failure alone, or the text of the last final event, or else of all
  -- fragments, with the right answer whether it is the provider's own result; a text over the limit
  -- gives the error `outcome_unknown`.
  pub finalize-reference :
      (m : ℕ) (os : List Observation)
      → m < usize_max
      → map_err
          (λ (e : AdapterError N). e.code)
          (finalize_provider_result from_usize p (observe_all os (new_result m)))
        ≡ reference m p os
  unfolding new_result
  finalize-reference m os small = finalized m small os (observe_all os (new_result m)) (
      observe_all-Agrees m small os (record { kind = plain; text = [] }) false (new_result m)
        (record {
          kind = refl;
          bound = refl;
          reported = refl;
          keeps = inl (refl, refl, refl, omega arith);
          unused = λ z. refl;
          used = λ z. cc z;
        }))
