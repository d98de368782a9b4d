-- ===== src/Protocol/Examples.antt =====
-- The theorems of `Protocol` at a response of two frames.
use agenstro.Common.{ℕ, ◌≡◌, ◌↔◌, refl, true, List, [], ◌∷◌, ok, length}
use agenstro.Common.Text.{lit}
use agenstro.Json.{null, end}
use agenstro.Protocol.{text, missing, present, PluginFrame, event, result, success, new}
use agenstro.Protocol.Conformance.{consume, Conforms, succeeds, streams, consume_iff_Conforms}

abbrev response : List (PluginFrame ℕ)
response =
    event (text (lit "r1")) (record { kind = lit "progress"; payload = end })
    ∷ result (text (lit "r1")) true (present null) missing
    ∷ []

consume_iff_Conforms_example :
    (consume (new (text (lit "r1"))) response ≡ ok (success null, 2))
    ↔ (Conforms (text (lit "r1")) response (success null) × (◌≡◌ {A = ℕ} 2 (length response)))
consume_iff_Conforms_example = consume_iff_Conforms (text (lit "r1")) response (success null) 2

response_accepted : consume (new (text (lit "r1"))) response ≡ ok (success null, 2)
response_accepted = consume_iff_Conforms_example.1 (streams _ (succeeds null), refl)
