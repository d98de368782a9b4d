-- ===== src/Common/Search.antt =====
-- `str::starts_with`, `matches(..).count()` and `replacen(.., 1)` of a fragment that is not empty.
-- Texts are bytes: in UTF-8 a fragment matches only where a character starts.
use agenstro.Common.Tests.{◌==◌, if◌then◌else◌, Bool-cases}
use agenstro.Common.Lists.{length, drop}
use agenstro.Common.Text.{Text}
use Prim.Native.Nat.{ℕ, zero, suc, ◌-◌}
use mathlib.Core.Path.{◌≡◌, refl, sym, ap}
use mathlib.Core.Logic.{◌≢◌, inl, inr}
use mathlib.Core.Bool.{Bool, true, false, ◌&&◌}
use mathlib.Core.List.{[], ◌∷◌, ◌++◌}
use native.Mathlib.Omega.{arith}

unfoldable pub starts_with : Text → Text → Bool
starts_with [] s = true
starts_with (a ∷ p) [] = false
starts_with (a ∷ p) (b ∷ s) = a == b && starts_with p s

-- The bytes to skip are those of the match before.
unfoldable pub count_matches : Text → ℕ → Text → ℕ
count_matches old skip [] = 0
count_matches old (suc skip) (b ∷ s) = count_matches old skip s
count_matches old zero (b ∷ s) =
    let found = suc (count_matches old (length old - 1) s) in
    let missed = count_matches old zero s in if starts_with old (b ∷ s) then found else missed

unfoldable pub replace_first : Text → Text → Text → Text
replace_first old new [] = []
replace_first old new (b ∷ s) =
    let rest = b ∷ replace_first old new s in
    if starts_with old (b ∷ s) then new ++ drop (length old) (b ∷ s) else rest

starts_with-append : (p s : Text) → starts_with p s ≡ true → p ++ drop (length p) s ≡ s
unfolding starts_with
starts_with-append [] s h = refl
starts_with-append (a ∷ p) [] h = cc
starts_with-append (a ∷ p) (b ∷ s) h = ground (arith, starts_with-append p s)

-- A text with a match is a part before it, the fragment, and a part after it, and the replacement
-- stands between the two.
pub replace_first_lem :
    (old new s : Text)
    → count_matches old 0 s ≢ 0
    → (before : Text) × (after : Text) × (s ≡ before ++ (old ++ after))
      × (replace_first old new s ≡ before ++ (new ++ after))
unfolding count_matches replace_first
replace_first_lem old new [] h = absurd (h refl)
replace_first_lem old new (b ∷ s) h = elim (Bool-cases (starts_with old (b ∷ s))) [
  | inl here ↦
      ([], drop (length old) (b ∷ s), sym (starts_with-append old (b ∷ s) here), rw here refl)
  | inr later ↦
      let (before, after, whole, replaced) = replace_first_lem old new s (rw later at h) in
      (b ∷ before, after, ap (λ t. b ∷ t) whole, rw later (ap (λ t. b ∷ t) replaced))
]
