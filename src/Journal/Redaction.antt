-- ===== src/Journal/Redaction.antt =====
-- tactus-runtime/src/journal.rs: the redaction of evidence before it is written, and the digests
-- that stand for what is withheld.
pub mod Identifiers
pub mod Safety
mod Short
use agenstro.Common.{
  ℕ, zero, suc, Bool, true, false, ◌&&◌, ◌||◌, not, none, some, is_some_and, leb, length,
  if◌then◌else◌, [], ◌++◌,
}
use agenstro.Common.Text.{Text, lit}
use agenstro.Common.Utf8.{cut_at}
use agenstro.Json.{
  Value, Items, Fields, null, boolean, number, string, array, object, nil, cons, end, field, as_str,
}
use Identifiers.{
  sensitive_key, eq_ignore_ascii_case, durable_identifier_key, public_durable_identifier,
}

-- What the module uses of other crates: `serde_json::to_vec(v).unwrap_or_default()`, the digest of
-- `sha2` in lower-case hexadecimal, the JSON number of a `usize`, and the decimal text of one.
pub record Encoder (N : Type 0) : Type 0 where
  pub to_vec : Value N → Text
  pub digest : Text → Text
  pub from_usize : ℕ → N
  pub decimal : ℕ → Text

unfoldable pub truncate_utf8 : Text → ℕ → Text
truncate_utf8 s n = if leb (length s) n then s else cut_at s n

module _ {N : Type 0} where
  abbrev is_string : Value N → Bool
  is_string (string s) = true
  is_string _ = false

  unfoldable pub redacted_value : Encoder N → Value N → Value N
  redacted_value c v = object (
      field (lit "redacted") (boolean true) (
        field (lit "bytes") (number (c.from_usize (length (c.to_vec v))))
          (field (lit "sha256") (string (c.digest (c.to_vec v))) end)))

  -- Whether the member of an object is replaced by its digest.
  unfoldable pub withholds : Text → Value N → Bool
  withholds k v =
      sensitive_key k
      || (eq_ignore_ascii_case k (lit "error") && is_string v)
      || (durable_identifier_key k
          && is_some_and (λ s. not (public_durable_identifier k s)) (as_str v))

  unfoldable mutual
    pub redact_diagnostic_value : Encoder N → Value N → Value N
    redact_diagnostic_value c null = null
    redact_diagnostic_value c (boolean b) = boolean b
    redact_diagnostic_value c (number n) = number n
    redact_diagnostic_value c (string s) = string (truncate_utf8 s 4096)
    redact_diagnostic_value c (array vs) = array (redact_items c 1024 vs)
    redact_diagnostic_value c (object fs) = object (redact_fields c fs)

    -- `.take(n).map(redact_diagnostic_value)`.
    pub redact_items : Encoder N → ℕ → Items N → Items N
    redact_items c zero vs = nil
    redact_items c (suc n) nil = nil
    redact_items c (suc n) (cons v vs) = cons (redact_diagnostic_value c v) (redact_items c n vs)

    pub redact_fields : Encoder N → Fields N → Fields N
    redact_fields c end = end
    redact_fields c (field k v fs) =
        let kept = redact_diagnostic_value c v in
        let rest = redact_fields c fs in
        field k (if withholds k v then redacted_value c v else kept) rest
