-- ===== src/Journal/Redaction/Safety.antt =====
-- What `redact_diagnostic_value` of tactus-runtime/src/journal.rs leaves of a value. The source looks
-- for a text directly under `error`, or under the key of an identifier: an array or an object there
-- keeps its texts.
use agenstro.Common.{
  ℕ, zero, suc, ◌+◌, ◌≤◌, ◌≡◌, ◌≢◌, refl, inl, inr, true, false, arith, length, Bool-cases,
  if◌then◌else◌,
}
use agenstro.Common.Text.{Text, lit, text_eq, one_of}
use agenstro.Common.Utf8.{length-cut_at}
use agenstro.Json.{
  Value, Items, Fields, null, boolean, number, string, array, object, nil, cons, end, field,
}
use agenstro.Journal.Redaction.Identifiers.{
  sensitive_key, eq_ignore_ascii_case, durable_identifier_key, public_durable_identifier, ends_with,
  normalize_key,
}
use agenstro.Journal.Redaction.Short.{public_durable_identifier-le}
use agenstro.Journal.Redaction.{
  Encoder, truncate_utf8, redacted_value, withholds, redact_diagnostic_value, redact_items,
  redact_fields,
}

length-truncate_utf8 : (s : Text) (n : ℕ) → length (truncate_utf8 s n) ≤ n + 3
unfolding truncate_utf8
length-truncate_utf8 s n = ground (arith, length-cut_at s n)

truncate_utf8_short : (s : Text) (n : ℕ) → length s ≤ n → truncate_utf8 s n ≡ s
unfolding truncate_utf8
truncate_utf8_short s n h = ground arith

module _ {N : Type 0} where
  abbrev pub length_items : Items N → ℕ
  length_items nil = 0
  length_items (cons v vs) = suc (length_items vs)

  abbrev pub IsDigest : Encoder N → Value N → Type 0
  IsDigest c v = (w : Value N) × (v ≡ redacted_value c w)

  -- A text that stands directly under the key may stand there. Nothing is asked of a value that is not
  -- a text: the source puts a digest in the place of a text only, and goes into an array or an object.
  abbrev pub IsListed : Text → Value N → Type 0
  IsListed k (string s) =
      (eq_ignore_ascii_case k (lit "error") ≡ false)
      × (durable_identifier_key k ≡ true → public_durable_identifier k s ≡ true)
  IsListed k _ = Unit {0}

  abbrev mutual
    pub IsRedacted : Encoder N → Value N → Type 0
    IsRedacted c null = Unit
    IsRedacted c (boolean b) = Unit
    IsRedacted c (number n) = Unit
    IsRedacted c (string s) = length s ≤ 4099
    IsRedacted c (array vs) = (length_items vs ≤ 1024) × AreRedacted c vs
    IsRedacted c (object fs) = HasRedacted c fs

    pub AreRedacted : Encoder N → Items N → Type 0
    AreRedacted c nil = Unit
    AreRedacted c (cons v vs) = IsRedacted c v × AreRedacted c vs

    pub HasRedacted : Encoder N → Fields N → Type 0
    HasRedacted c end = Unit
    HasRedacted c (field k v fs) =
        ((sensitive_key k ≡ true → IsDigest c v) × IsListed k v × IsRedacted c v) × HasRedacted c fs

  module _ (c : Encoder N) (sized : (s : Text) → length (c.digest s) ≡ 64) where
    redacted_value-IsRedacted : (v : Value N) → IsRedacted c (redacted_value c v)
    unfolding redacted_value sensitive_key durable_identifier_key eq_ignore_ascii_case one_of
        text_eq ends_with normalize_key
    redacted_value-IsRedacted v = (
      (λ h. cc, tt, tt),
      ((λ h. cc, tt, tt), ((λ h. cc, (refl, λ h. cc), omega (arith, sized (c.to_vec v))), tt)),
    )

    redacted_value-IsListed : (k : Text) (v : Value N) → IsListed k (redacted_value c v)
    unfolding redacted_value
    redacted_value-IsListed k v = tt

    insensitive : (k : Text) (v : Value N) → withholds k v ≡ false → sensitive_key k ≢ true
    unfolding withholds
    insensitive k v h = ground arith

    redact-IsListed :
        (k : Text) (v : Value N) → withholds k v ≡ false → IsListed k (redact_diagnostic_value c v)
    unfolding redact_diagnostic_value withholds
    redact-IsListed k null h = tt
    redact-IsListed k (boolean b) h = tt
    redact-IsListed k (number n) h = tt
    redact-IsListed k (string s) h = (
      ground arith,
      λ id.
          let public = public_of id in
          rw (truncate_utf8_short s 4096 (public_durable_identifier-le k s public)) public,
    )
      where
        public_of : durable_identifier_key k ≡ true → public_durable_identifier k s ≡ true
        public_of id = ground arith
    redact-IsListed k (array vs) h = tt
    redact-IsListed k (object fs) h = tt

    field-IsRedacted :
        (k : Text) (v : Value N)
        → IsRedacted c (redact_diagnostic_value c v)
        → let w = if withholds k v then redacted_value c v else redact_diagnostic_value c v in
          (sensitive_key k ≡ true → IsDigest c w) × IsListed k w × IsRedacted c w
    field-IsRedacted k v deep = elim (Bool-cases (withholds k v)) [
      | inl hidden ↦
          rw hidden (λ h. (v, refl), redacted_value-IsListed k v, redacted_value-IsRedacted v)
      | inr kept ↦ rw kept (λ h. absurd (insensitive k v kept h), redact-IsListed k v kept, deep)
    ]

    length-redact_items : (n : ℕ) (vs : Items N) → length_items (redact_items c n vs) ≤ n
    unfolding redact_items
    length-redact_items zero vs = omega arith
    length-redact_items (suc n) nil = omega arith
    length-redact_items (suc n) (cons v vs) = omega (arith, length-redact_items n vs)

    mutual
      unfolding redact_diagnostic_value

      deep-IsRedacted : (v : Value N) → IsRedacted c (redact_diagnostic_value c v)
      deep-IsRedacted null = tt
      deep-IsRedacted (boolean b) = tt
      deep-IsRedacted (number n) = tt
      deep-IsRedacted (string s) = length-truncate_utf8 s 4096
      deep-IsRedacted (array vs) = (length-redact_items 1024 vs, redact-AreRedacted 1024 vs)
      deep-IsRedacted (object fs) = redact-HasRedacted fs

      redact-AreRedacted : (n : ℕ) (vs : Items N) → AreRedacted c (redact_items c n vs)
      redact-AreRedacted zero vs = tt
      redact-AreRedacted (suc n) nil = tt
      redact-AreRedacted (suc n) (cons v vs) = (deep-IsRedacted v, redact-AreRedacted n vs)

      redact-HasRedacted : (fs : Fields N) → HasRedacted c (redact_fields c fs)
      redact-HasRedacted end = tt
      redact-HasRedacted (field k v fs) =
          (field-IsRedacted k v (deep-IsRedacted v), redact-HasRedacted fs)

    -- However deep the evidence: what is left under a sensitive key is a digest; a text that is left
    -- directly under the key of an identifier is a listed one; no text is left directly under an
    -- `error`; a text has at most 4,099 bytes and an array at most 1,024 items. Of an array or an
    -- object under an `error` or under the key of an identifier, only the same is said again of what
    -- it holds: a text in an array there is bounded, and is not withheld. A digest is taken to be 64
    -- bytes long.
    pub redact-IsRedacted : (v : Value N) → IsRedacted c (redact_diagnostic_value c v)
    redact-IsRedacted v = deep-IsRedacted v
