-- ===== src/Common/Utf8.antt =====
-- `str::is_char_boundary`, and the loops that step back to a boundary before a text is cut.
use agenstro.Common.{
  ℕ, zero, suc, ◌+◌, ◌≤◌, ◌≡◌, refl, Bool, true, false, ◌&&◌, not, [], ◌∷◌, ◌++◌, arith, ltb, leb,
  length, length-append, length-take, take, Bool-cases, inl, inr, if◌then◌else◌,
}
use agenstro.Common.Text.{Text}

-- A byte 0b10xxxxxx continues a character.
abbrev pub is_continuation : ℕ → Bool
is_continuation b = leb 128 b && ltb b 192

-- Whether a character starts at the position, or the text ends there.
unfoldable pub is_char_boundary : Text → ℕ → Bool
is_char_boundary s zero = true
is_char_boundary [] (suc n) = false
is_char_boundary (b ∷ []) (suc zero) = true
is_char_boundary (b ∷ c ∷ s) (suc zero) = not (is_continuation c)
is_char_boundary (b ∷ []) (suc (suc n)) = false
is_char_boundary (b ∷ c ∷ s) (suc (suc n)) = is_char_boundary (c ∷ s) (suc n)

-- `while !s.is_char_boundary(end) { end -= 1; }`: position 0 is a boundary.
unfoldable pub floor_boundary : Text → ℕ → ℕ
unfolding is_char_boundary
floor_boundary s zero = zero
floor_boundary s (suc n) =
    let back = floor_boundary s n in if is_char_boundary s (suc n) then suc n else back

pub floor_boundary-le : (s : Text) (n : ℕ) → floor_boundary s n ≤ n
unfolding floor_boundary
floor_boundary-le s zero = omega arith
floor_boundary-le s (suc n) = elim (Bool-cases (is_char_boundary s (suc n))) [
  | inl yes' ↦ rw yes' (omega arith)
  | inr no' ↦ rw no' (omega (arith, floor_boundary-le s n))
]

-- The position found is a boundary.
pub floor_boundary-boundary : (s : Text) (n : ℕ) → is_char_boundary s (floor_boundary s n) ≡ true
unfolding floor_boundary
floor_boundary-boundary s zero = refl
floor_boundary-boundary s (suc n) = elim (Bool-cases (is_char_boundary s (suc n))) [
  | inl yes' ↦ rw yes' yes'
  | inr no' ↦ rw no' (floor_boundary-boundary s n)
]

-- "…" in UTF-8.
abbrev pub ellipsis : Text
ellipsis = 0xe2 ∷ 0x80 ∷ 0xa6 ∷ []

-- `format!("{}…", &value[..end])` with the boundary at or below `n`.
unfoldable pub cut_at : Text → ℕ → Text
cut_at s n = take (floor_boundary s n) s ++ ellipsis

pub length-cut_at : (s : Text) (n : ℕ) → length (cut_at s n) ≤ n + 3
unfolding cut_at
length-cut_at s n = omega (
  arith,
  length-append (take (floor_boundary s n) s) ellipsis,
  length-take (floor_boundary s n) s,
  floor_boundary-le s n,
)
