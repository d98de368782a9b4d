-- ===== src/Adapters/Examples.antt =====
-- The adapters on concrete inputs.
use agenstro.Common.{
  ℕ, ◌≡◌, refl, true, false, none, some, ok, map_err, List, [], ◌∷◌, ◌&&◌, ◌||◌, not, arith,
}
use agenstro.Common.Text.{Text, lit, text_eq}
use agenstro.Json.{Value, string, object, end, field}
use agenstro.Adapters.{open_code, AdapterError}
use agenstro.Adapters.Results.{new_result, finalize_provider_result}
use agenstro.Adapters.Results.Candidates.{Observation, fragments_of, observe_all, reference}
use agenstro.Adapters.Results.Candidates.Reference.{finalize-reference}
use agenstro.Adapters.Antigravity.{AntigravityStream, Decoders}
use agenstro.Adapters.Snapshots.{
  PathMetadata, file, WorkspaceSnapshot, lookup, Platform, snapshot_delta,
}
use agenstro.Adapters.Snapshots.Differences.{contains, are_distinct}
use agenstro.Adapters.Snapshots.Classes.{
  is_left_out, is_only_second, has_new_content, has_new_kind, is_only_first, delta-lists,
}

abbrev spoken : List Observation
spoken = fragments_of (lit "a" ∷ lit "b" ∷ []) ∷ fragments_of (lit "c" ∷ []) ∷ []

finalize-reference_example :
    map_err
      (λ (e : AdapterError ℕ). e.code)
      (finalize_provider_result (λ n. n) open_code (observe_all spoken (new_result 3)))
    ≡ reference 3 open_code spoken
finalize-reference_example = finalize-reference (λ n. n) open_code 3 spoken (omega arith)

abbrev decoders : Decoders ℕ
decoders = record {
  from_utf8 = λ s. ok tt;
  is_blank = λ s. false;
  decode_json = λ s. ok (string s);
  from_str = λ s. ok (string s);
  as_u64 = λ n. some n;
  from_usize = λ n. n;
}

abbrev conversation : Value ℕ
conversation = string (lit "c")

abbrev init : Value ℕ
init = object (
    field (lit "event") (string (lit "init"))
      (field (lit "init") (object end) (field (lit "conversation_id") conversation end)))

abbrev success : Value ℕ
success = object (
    field (lit "event") (string (lit "result")) (
      field (lit "result")
        (object (
          field (lit "status") (string (lit "SUCCESS")) (
            field (lit "conversation_id") conversation
              (field (lit "response") (string (lit "r")) end))))
        end))

abbrev ended : AntigravityStream
ended = record { conversation_id = some (lit "c"); terminal = true }

abbrev metadata : ℕ → PathMetadata
metadata n = record { kind = file; size = n; sha256 = none }

abbrev snapshot : ℕ → WorkspaceSnapshot
snapshot n = record {
  workspace = lit "/w";
  paths = (lit "a", metadata n) ∷ (lit "b", metadata 1) ∷ [];
  skipped_paths = lit "s" ∷ [];
}

abbrev unix : Platform
unix = record { windows = false; to_lowercase = λ s. s }

distinct : (n : ℕ) → are_distinct (snapshot n).paths ≡ true
unfolding lookup text_eq
distinct n = refl

delta-lists_example :
    let delta = snapshot_delta unix (snapshot 1) (snapshot 2) in
    let old = lookup (lit "a") (snapshot 1).paths in
    let new = lookup (lit "a") (snapshot 2).paths in
    let seen_by_both =
      not (is_left_out unix (snapshot 1) (lit "a") || is_left_out unix (snapshot 2) (lit "a")) in
    (contains (lit "a") delta.added ≡ (seen_by_both && is_only_second old new))
    × (contains (lit "a") delta.modified ≡ (seen_by_both && has_new_content old new))
    × (contains (lit "a") delta.type_changed ≡ (seen_by_both && has_new_kind old new))
    × (contains (lit "a") delta.deleted ≡ (seen_by_both && is_only_first old new))
delta-lists_example = delta-lists unix (snapshot 1) (snapshot 2) (lit "a") (distinct 1) (distinct 2)

-- Two lines in two reads.
abbrev two_reads : List (ℕ × Text)
two_reads = (97, []) ∷ (98, 13 ∷ 10 ∷ 99 ∷ []) ∷ []
