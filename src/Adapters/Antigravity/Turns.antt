-- ===== src/Adapters/Antigravity/Turns.antt =====
-- The events of Antigravity make one turn.
use agenstro.Common.{
  ◌≡◌, Bool, true, false, ◌||◌, not, Option, none, some, is_some, Result, ok, ◌>>=◌, List, [], ◌∷◌,
  any,
}
use agenstro.Common.Text.{Text}
use agenstro.Json.{Value}
use agenstro.Adapters.{AdapterError}
use agenstro.Adapters.Antigravity.{AntigravityStream, Decoders, observe_stream}

-- The events of a stream, with what each of them says.
abbrev pub observe_events :
    {N : Type 0}
    → Decoders N
    → AntigravityStream
    → List (Value N)
    → Result (AdapterError N) (AntigravityStream × List (Option Bool))
observe_events c s [] = ok (s, [])
observe_events c s (raw ∷ raws) = do
  first ← observe_stream c s raw
  rest ← observe_events c first.0 raws
  ok (rest.0, first.1 ∷ rest.1)

abbrev pub ends_turn : Option Bool → Bool
ends_turn none = false
ends_turn (some failed) = true

-- Nothing follows the end of the turn.
abbrev pub is_turn : List (Option Bool) → Bool
is_turn [] = true
is_turn (none ∷ rest) = is_turn rest
is_turn (some failed ∷ []) = true
is_turn (some failed ∷ o ∷ rest) = false

abbrev pub succeeds : Option Bool → Bool
succeeds none = false
succeeds (some failed) = not failed

-- What a step does to the stream: its end is noted, and a success belongs to a conversation.
abbrev Steps : AntigravityStream → AntigravityStream × Option Bool → Type 0
Steps s (s', o) =
    (s.terminal ≡ false)
    × (s'.terminal ≡ ends_turn o)
    × ((succeeds o || is_some s.conversation_id) ≡ true → is_some s'.conversation_id ≡ true)

module _ {N : Type 0} (c : Decoders N) where
  abbrev Turn : AntigravityStream → AntigravityStream → List (Option Bool) → Type 0
  Turn s s' os =
      (is_turn os ≡ true)
      × (s.terminal ≡ true → os ≡ [])
      × (s'.terminal ≡ (s.terminal || any ends_turn os))
      × ((any succeeds os || is_some s.conversation_id) ≡ true → is_some s'.conversation_id ≡ true)
