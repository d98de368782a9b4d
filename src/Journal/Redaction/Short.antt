-- ===== src/Journal/Redaction/Short.antt =====
-- The identifiers that may be written are short, so that truncation leaves them as they are.
use agenstro.Common.{
  ℕ, ◌+◌, ◌≤◌, ◌≡◌, refl, sym, ap, ◌∙◌, inl, inr, Bool, true, ◌&&◌, some, is_some_and, List, [],
  ◌∷◌, arith, leb, ◌==◌, length, all, Bool-cases, leb→le, Option-cases,
}
use agenstro.Common.Text.{Text, text_eq, text_eq→eq, one_of}
use agenstro.Journal.Redaction.Identifiers.{
  strip_prefix, public_diagnostic_code, public_durable_identifier, diagnostic_codes,
  is_ascii_hexdigit, public_methods, public_types, invalid_identifier,
}

pub one_of-le :
    (ts : List Text) (n : ℕ)
    → all (λ t. leb (length t) n) ts ≡ true
    → (s : Text) → one_of ts s ≡ true
    → length s ≤ n
unfolding one_of
one_of-le [] n bound s h = cc
one_of-le (t ∷ ts) n bound s h = elim (Bool-cases (text_eq s t)) [
  | inl same ↦ rw (text_eq→eq s t same) (ground (arith, leb→le (length t) n))
  | inr other ↦ one_of-le ts n (ground arith) s (ground arith)
]

length-strip_prefix : (p s d : Text) → strip_prefix p s ≡ some d → length s ≡ length p + length d
unfolding strip_prefix
length-strip_prefix [] s d h = ground arith
length-strip_prefix (a ∷ p) [] d h = cc
length-strip_prefix (a ∷ p) (b ∷ s) d h = ground (arith, length-strip_prefix p s d)

invalid_identifier-le :
    (s : Text) (hex : Text → Bool)
    → is_some_and (λ d. length d == 16 && hex d) (strip_prefix invalid_identifier s) ≡ true
    → length s ≤ 35
invalid_identifier-le s hex h = elim (Option-cases (strip_prefix invalid_identifier s)) [
  | inl missing ↦ cc (sym h ∙ ap (is_some_and (λ d. length d == 16 && hex d)) missing)
  | inr (d, found) ↦
      let sized = sym (ap (is_some_and (λ d. length d == 16 && hex d)) found) ∙ h in
      ground (arith, length-strip_prefix invalid_identifier s d found)
]

pub public_diagnostic_code-le : (s : Text) → public_diagnostic_code s ≡ true → length s ≤ 35
unfolding public_diagnostic_code
public_diagnostic_code-le s h = elim (Bool-cases (one_of diagnostic_codes s)) [
  | inl listed ↦ one_of-le diagnostic_codes 35 refl s listed
  | inr other ↦ invalid_identifier-le s (all is_ascii_hexdigit) (ground arith)
]

pub public_durable_identifier-le :
    (k s : Text) → public_durable_identifier k s ≡ true → length s ≤ 4096
unfolding public_durable_identifier
public_durable_identifier-le k s h = ground (
  arith,
  public_diagnostic_code-le s,
  one_of-le public_methods 4096 refl s,
  one_of-le public_types 4096 refl s,
)
