-- ===== src/Adapters/Results/Candidates/Additions.antt =====
-- What the additions of one candidate do to the accumulator.
use agenstro.Common.{
  ℕ, suc, ◌+◌, ◌≤◌, ◌<◌, min, ◌≡◌, refl, ap, subst, ◌∙◌, ◌⊎◌, inl, inr, Bool, true, false, none,
  some, is_some, List, [], ◌∷◌, ◌++◌, append_assoc, append-nil, length-append, ltb, ◌==◌, length,
  arith, Bool-cases, if◌then◌else◌,
}
use agenstro.Common.Text.{Text}
use agenstro.Adapters.Results.{ProviderResultAccumulator, usize_max, append, append_fragments}
use agenstro.Adapters.Results.Candidates.{concat}

abbrev empty_separator : Text
empty_separator = []

no_separator : (b : Bool) → (if b then empty_separator else empty_separator) ≡ empty_separator
no_separator true = refl
no_separator false = refl

choose-items :
    (b : Bool) (r r' : ProviderResultAccumulator)
    → 0 < r.items
    → 0 < r'.items
    → 0 < (if b then r else r').items
choose-items true r r' h h' = h
choose-items false r r' h h' = h'

append-items : (text sep : Text) (r : ProviderResultAccumulator) → 0 < (append text sep r).items
unfolding append
append-items text sep r =
    let sep' = if r.items == 0 then [] else sep in
    elim (Bool-cases
      (ltb r.max_result_bytes (min (r.observed_bytes + length sep' + length text) usize_max))) [
        | inl over ↦ rw over (omega arith)
        | inr under ↦ rw under (omega arith)
      ]

pub append_fragments-items :
    (t : Text) (ts : List Text) (r : ProviderResultAccumulator)
    → 0 < (append_fragments (t ∷ ts) r).items
unfolding append_fragments
append_fragments-items t [] r =
    choose-items (is_some (append t [] r).overflow) (append t [] r) (append t [] r)
      (append-items t [] r) (append-items t [] r)
append_fragments-items t (x ∷ xs) r =
    choose-items (is_some (append t [] r).overflow) (append t [] r)
      (append_fragments (x ∷ xs) (append t [] r)) (append-items t [] r)
      (append_fragments-items x xs (append t [] r))

module _ (m : ℕ) (small : m < usize_max) where
  abbrev pub Fits : Text → ProviderResultAccumulator → Type 0
  Fits t r = (r.overflow ≡ none) × (r.text ≡ t) × (r.observed_bytes ≡ length t) × (length t ≤ m)

  abbrev pub Keeps : Text → ProviderResultAccumulator → Type 0
  Keeps t r = Fits t r ⊎ ((is_some r.overflow ≡ true) × (m < length t))

  -- The fields that the additions of one candidate leave alone.
  abbrev pub Same : ProviderResultAccumulator → ProviderResultAccumulator → Type 0
  Same r r' =
      (r'.kind ≡ r.kind) × (r'.max_result_bytes ≡ m) × (r'.reported_failure ≡ r.reported_failure)

  abbrev Appended : Text → Text → ProviderResultAccumulator → ProviderResultAccumulator → Type 0
  Appended text t r r' = Keeps (t ++ text) r' × Same r r' × (0 < r'.items)

  pub append_lem :
      (text t : Text) (r : ProviderResultAccumulator)
      → r.max_result_bytes ≡ m
      → Fits t r
      → Appended text t r (append text [] r)
  unfolding append
  append_lem text t r w (none_yet, kept, counted, fits) =
      by_size (if r.items == 0 then [] else []) (no_separator (r.items == 0)) _ refl
    where
      next : Text → ℕ
      next sep = min (r.observed_bytes + length sep + length text) usize_max

      grown : Text → ProviderResultAccumulator
      grown sep = record r { items = min (suc r.items) usize_max; observed_bytes = next sep }

      by_size :
          (sep : Text)
          → sep ≡ []
          → (b : Bool) → ltb r.max_result_bytes (next sep) ≡ b
          → Appended text t r (
              if b
              then record (grown sep) {
                text = [];
                overflow = some (record {
                  result_bytes_at_least = next sep;
                  max_result_bytes = r.max_result_bytes;
                });
              }
              else record (grown sep) { text = r.text ++ (sep ++ text) })
      by_size sep z true e = (
        inr (refl, rw (length-append t text) (ground (arith, e, w, counted, ap length z))),
        (refl, w, refl),
        omega arith,
      )
      by_size sep z false e = (
        inl (
          none_yet,
          rw (z, kept) refl,
          rw (length-append t text) (ground (arith, e, w, counted, ap length z)),
          rw (length-append t text) (ground (arith, e, w, counted, ap length z)),
        ),
        (refl, w, refl),
        omega arith,
      )

  longer : (t x : Text) (xs : List Text) → m < length (t ++ x) → m < length (t ++ (x ++ concat xs))
  longer t x xs h =
      omega
        (arith, h, length-append t x, length-append t (x ++ concat xs), length-append x (concat xs))

  pub append_fragments_lem :
      (ts : List Text) (t : Text) (r : ProviderResultAccumulator)
      → r.max_result_bytes ≡ m
      → Fits t r
      → Keeps (t ++ concat ts) (append_fragments ts r) × Same r (append_fragments ts r)
  unfolding append_fragments
  append_fragments_lem [] t r w h = rw (append-nil t) (inl h, (refl, w, refl))
  append_fragments_lem (x ∷ xs) t r w h =
      by_first (append_lem x t r w h) (is_some (append x [] r).overflow) refl
        (λ k. append_fragments_lem xs (t ++ x) (append x [] r) k)
    where
      by_first :
          Appended x t r (append x [] r)
          → (b : Bool) → is_some (append x [] r).overflow ≡ b
          → ((append x [] r).max_result_bytes ≡ m
              → Fits (t ++ x) (append x [] r)
              → Keeps ((t ++ x) ++ concat xs) (append_fragments xs (append x [] r))
                × Same (append x [] r) (append_fragments xs (append x [] r)))
          → Keeps
              (t ++ concat (x ∷ xs))
              (if b then append x [] r else append_fragments xs (append x [] r))
            × Same r (if b then append x [] r else append_fragments xs (append x [] r))
      by_first (inl (none_yet, same, more, fits), s, pos) true e rec = cc (e, none_yet)
      by_first (inr (over, long), s, pos) true e rec = (inr (over, longer t x xs long), s)
      by_first (inl fits, (k, m', f), pos) false e rec =
          let (q, (k', m'', f')) = rec m' fits in
          (
            subst (λ z. Keeps z (append_fragments xs (append x [] r)))
                (append_assoc t x (concat xs)) q,
            (k' ∙ k, m'', f' ∙ f),
          )
      by_first (inr (over, long), s, pos) false e rec = cc (over, e)
