-- ===== src/Session/Listing/Examples.antt =====
-- A listing of two sessions, of which one is wanted.
use agenstro.Common.{ℕ, ◌≡◌, refl, none, some, Result, ok, List, [], ◌∷◌, if◌then◌else◌}
use agenstro.Common.Text.{Text, lit, text_eq}
use agenstro.Common.Search.{starts_with}
use agenstro.Json.{end}
use agenstro.Session.{session_api, planning, SessionView, is_session_id, require_decimal}
use agenstro.Session.Validation.{validate_text, validate_session}
use agenstro.Session.Listing.{Entry, unnamed, named, list, scan, visit, read_session_counted}
use agenstro.Session.Listing.Selection.{sort}
use agenstro.Session.Listing.Newest.{newest, list-newest}

abbrev session_at : Text → Text → SessionView ℕ
session_at id time = record {
  api = session_api;
  session_id = id;
  label = lit "label";
  state = planning;
  turn = lit "1";
  pending = none;
  answered = [];
  started_unix_ms = lit "1";
  updated_unix_ms = time;
  extensions = end;
}

abbrev decode : Text → Result Text (SessionView ℕ)
decode document =
    ok (session_at document (if text_eq document (lit "session-1") then lit "5" else lit "9"))

abbrev entries : List Entry
entries =
    named (lit "session-1") (ok (lit "session-1"))
    ∷ (unnamed ∷ (named (lit "session-2") (ok (lit "session-2")) ∷ []))

later_listed :
    list ℕ decode (λ l. 100) 1 (ok (some entries))
    ≡ ok (session_at (lit "session-2") (lit "9") ∷ [])
unfolding list scan visit read_session_counted sort is_session_id require_decimal validate_session
    validate_text text_eq starts_with
later_listed = refl

list-newest_example :
    list ℕ decode (λ l. 100) 1 (ok (some entries))
    ≡ newest ℕ decode (λ l. 100) 1 (ok (some entries))
list-newest_example = list-newest ℕ decode (λ l. 100) 1 (ok (some entries))
