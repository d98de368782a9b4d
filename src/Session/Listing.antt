-- ===== src/Session/Listing.antt =====
-- tactus-runtime/src/session.rs: the listing of the sessions, the newest first. The entries of the
-- directory, in the order in which they are read, and the decoding and encoding of JSON are arguments.
pub mod Selection
pub mod Newest
mod Examples
use agenstro.Common.{
  ℕ, suc, ◌+◌, Bool, true, false, ◌&&◌, ◌||◌, not, Option, none, some, Result, ok, err, ◌>>=◌, ◌>>◌,
  fail_if, map_err, List, [], ◌∷◌, ◌++◌, ltb, leb, ◌==◌, length, take, map, if◌then◌else◌,
}
use agenstro.Common.Text.{Text, lit}
use agenstro.Session.{
  SessionView, SessionError, corrupt, io, invalid_argument, corrupt_if, is_session_id,
  require_decimal,
}
use agenstro.Session.Validation.{validate_session}
use agenstro.Session.Listing.Selection.{push_bounded, sort}

abbrev pub max_list_limit : ℕ
max_list_limit = 200

abbrev pub max_session_entries_scanned : ℕ
max_session_entries_scanned = 2000

abbrev pub max_session_document_bytes : ℕ
max_session_document_bytes = 1048576

abbrev pub max_session_list_bytes : ℕ
max_session_list_bytes = 8388608

-- An entry that cannot be read, one whose name is not UTF-8, and one with its name and what
-- resolving its directory and reading its document give.
pub data Entry : Type 0 where
  unreadable unnamed : Entry
  named : Text → Result SessionError Text → Entry

-- `u64::from_str` after the checks of the text.
abbrev or_zero : Result SessionError ℕ → ℕ
or_zero (err e) = 0
or_zero (ok n) = n

abbrev pub decimal_u64 : Text → ℕ
decimal_u64 value = or_zero (require_decimal value (lit "decimal"))

-- The order of `str`, byte by byte.
abbrev pub text_lt : Text → Text → Bool
text_lt [] [] = false
text_lt [] (b ∷ t) = true
text_lt (a ∷ s) [] = false
text_lt (a ∷ s) (b ∷ t) = let rest = text_lt s t in ltb a b || (a == b && rest)

module _ (N : Type 0) where
  pub record RankedSession : Type 0 where
    pub updated_unix_ms : ℕ
    pub session : SessionView N

  -- `Ord::cmp` gives `Less`: a later update, then the smaller identifier.
  abbrev pub is_before : RankedSession → RankedSession → Bool
  is_before a b =
      ltb b.updated_unix_ms a.updated_unix_ms
      || (b.updated_unix_ms == a.updated_unix_ms
          && text_lt a.session.session_id b.session.session_id)

  abbrev pub ranked : SessionView N → RankedSession
  ranked s = record { updated_unix_ms = decimal_u64 s.updated_unix_ms; session = s }

  module _ (decode : Text → Result Text (SessionView N)) where
    abbrev pub decode_document : Text → Result SessionError (SessionView N)
    decode_document bytes = map_err (λ e. corrupt (lit "invalid session: " ++ e)) (decode bytes)

    unfoldable pub read_session_counted :
        Result SessionError Text → Text → Result SessionError (SessionView N × ℕ)
    unfolding validate_session
    read_session_counted file expected_id = do
      document ← file
      let bytes = take (max_session_document_bytes + 1) document
      corrupt_if (ltb max_session_document_bytes (length bytes))
          (lit "session document exceeds 1 MiB")
      session ← decode_document bytes
      validate_session session expected_id
      ok (session, length bytes)

    abbrev pub charge : ℕ → SessionView N × ℕ → Result SessionError (ℕ × Option RankedSession)
    charge bytes_read (session, document_bytes) = do
      corrupt_if (ltb 18446744073709551615 (bytes_read + document_bytes))
          (lit "session list byte budget overflowed")
      corrupt_if (ltb max_session_list_bytes (bytes_read + document_bytes))
          (lit "session list exceeds the 8 MiB read budget")
      ok (bytes_read + document_bytes, some (ranked session))

    -- One turn of the loop: the bytes read so far, and the session of the entry, if it has one.
    unfoldable pub visit : ℕ → ℕ → Entry → Result SessionError (ℕ × Option RankedSession)
    unfolding is_session_id read_session_counted
    visit index bytes_read entry =
        if leb max_session_entries_scanned index
        then err (corrupt (lit "too many session entries"))
        else elim entry as (λ e. Result SessionError (ℕ × Option RankedSession)) [
          | unreadable ↦ err io
          | unnamed ↦ ok (bytes_read, none)
          | named identifier file ↦
              if not (is_session_id identifier)
              then ok (bytes_read, none)
              else read_session_counted file identifier >>= charge bytes_read
        ]

    abbrev pub push_session : ℕ → List RankedSession → Option RankedSession → List RankedSession
    push_session limit heap none = heap
    push_session limit heap (some s) = push_bounded is_before limit heap s

    unfoldable pub scan :
        ℕ → ℕ → ℕ → List RankedSession → List Entry → Result SessionError (List RankedSession)
    unfolding visit
    scan limit index bytes_read heap [] = ok heap
    scan limit index bytes_read heap (e ∷ more) = visit index bytes_read e >>= λ v.
        scan limit (suc index) v.0 (push_session limit heap v.1) more

    -- The length of the answer's JSON is an argument.
    abbrev pub ensure_list_projection_budget :
        (List (SessionView N) → ℕ) → List (SessionView N) → Result SessionError (Unit {0})
    ensure_list_projection_budget json_length sessions =
        corrupt_if (ltb max_session_list_bytes (json_length sessions))
          (lit "session list projection exceeds 8 MiB")

    abbrev pub sessions_of : List RankedSession → List (SessionView N)
    sessions_of = map (λ r. r.session)

    abbrev pub projected :
        (List (SessionView N) → ℕ)
        → List (SessionView N)
        → Result SessionError (List (SessionView N))
    projected json_length sessions =
        ensure_list_projection_budget json_length sessions >> ok sessions

    abbrev pub list_in :
        (List (SessionView N) → ℕ)
        → ℕ
        → Option (List Entry)
        → Result SessionError (List (SessionView N))
    list_in json_length limit none = ok []
    list_in json_length limit (some entries) = scan limit 0 0 [] entries >>= λ heap.
        projected json_length (sessions_of (sort is_before heap))

    -- The entries are those of the sessions' directory, which may be missing.
    unfoldable pub list :
        (List (SessionView N) → ℕ)
        → ℕ
        → Result SessionError (Option (List Entry))
        → Result SessionError (List (SessionView N))
    unfolding scan sort
    list json_length limit root =
        if not (leb 1 limit && leb limit max_list_limit)
        then err invalid_argument
        else root >>= list_in json_length limit
