-- ===== src/Protocol/Conformance.antt =====
-- What `FrameSequence` of tactus-runtime/src/protocol.rs accepts, against a description of the
-- protocol by an inductive family.
use agenstro.Common.{
  ℕ, ◌+◌, ◌≡◌, refl, true, false, none, some, List, [], ◌∷◌, Result, ok, ◌>>=◌, ◌>>◌, arith, ◌+◌,
  ◌↔◌, ◌∙◌, ap, inl, inr, Bool-cases, length,
}
use agenstro.Common.Text.{text_eq_refl, text_eq→eq}
use agenstro.Json.{Value}
use agenstro.Protocol.{
  RequestId, text, integer, request_id_eq, PluginEvent, PluginFailure, missing, present,
  PluginFrame, event, result, TerminalResult, success, failure, ProtocolFault, FrameSequence, new,
  accept, finish,
}

pub request_id_eq_refl : (i : RequestId) → request_id_eq i i ≡ true
unfolding request_id_eq
request_id_eq_refl (text s) = text_eq_refl s
request_id_eq_refl (integer n) = ground arith

pub request_id_eq→eq : (i j : RequestId) → request_id_eq i j ≡ true → i ≡ j
unfolding request_id_eq
request_id_eq→eq (text s) (text t) h = cc (text_eq→eq s t h)
request_id_eq→eq (text s) (integer n) h = cc
request_id_eq→eq (integer m) (text t) h = cc
request_id_eq→eq (integer m) (integer n) h = ground arith

module _ {N : Type 0} where
  -- The frames of a well-formed response: events of the request, then its one result, in which
  -- `ok` goes with `value` alone and its absence with `error` alone.
  pub data Conforms (i : RequestId) : List (PluginFrame N) → TerminalResult N → Type 0 where
    succeeds : (v : Value N) → Conforms i (result i true (present v) missing ∷ []) (success v)
    fails : (e : PluginFailure N) → Conforms i (result i false missing (present e) ∷ []) (failure e)
    streams :
        (e : PluginEvent N) {fs : List (PluginFrame N)} {t : TerminalResult N}
        → Conforms i fs t
        → Conforms i (event i e ∷ fs) t

module _ {N : Type 0} where
  -- Every frame accepted in turn, then `finish`: the result and the number of frames.
  unfoldable pub consume :
      FrameSequence N → List (PluginFrame N) → Result ProtocolFault (TerminalResult N × ℕ)
  consume s [] = finish s >>= λ t. ok (t, s.frames_seen)
  consume s (f ∷ fs) = let (r, s') = accept s f in r >> consume s' fs

  -- A sequence that has its terminal accepts nothing more.
  after_end :
      (s : FrameSequence N) (t : TerminalResult N) (fs : List (PluginFrame N))
      (r : TerminalResult N × ℕ)
      → s.terminal ≡ some t
      → consume s fs ≡ ok r
      → (fs ≡ []) × (r ≡ (t, s.frames_seen))
  unfolding consume finish accept
  after_end s t [] r e h = (refl, ground arith)
  after_end s t (event i x ∷ fs) r e h = ground arith
  after_end s t (result i o v x ∷ fs) r e h = ground arith

  abbrev opened : RequestId → ℕ → FrameSequence N
  opened i n = record { expected_id = i; terminal = none; frames_seen = n }

  consume-closed :
      (i : RequestId) (n : ℕ) (t : TerminalResult N) (fs : List (PluginFrame N))
      (r : TerminalResult N × ℕ)
      → consume (record { expected_id = i; terminal = some t; frames_seen = n + 1 }) fs ≡ ok r
      → (fs ≡ []) × (r.0 ≡ t) × (r.1 ≡ n + 1)
  consume-closed i n t fs r h =
      let (e, p) = after_end _ t fs r refl h in (e, ap (λ x. x.0) p, ap (λ x. x.1) p)

  consume-Conforms :
      (i : RequestId) (n : ℕ) (fs : List (PluginFrame N)) (r : TerminalResult N × ℕ)
      → consume (opened i n) fs ≡ ok r
      → Conforms i fs r.0 × (r.1 ≡ n + length fs)
  unfolding consume finish accept
  consume-Conforms i n [] r h = cc
  consume-Conforms i n (event j e ∷ fs) r h = elim (Bool-cases (request_id_eq j i)) [
    | inl same ↦
        let rest = consume-Conforms i (n + 1) fs r (rw same at h) in
        (rw (request_id_eq→eq j i same) (streams e rest.0), omega (arith, rest.1))
    | inr other ↦ cc (rw other at h)
  ]
  consume-Conforms i n (result j true (present v) missing ∷ fs) r h =
      elim (Bool-cases (request_id_eq j i)) [
        | inl same ↦
            let c = consume-closed i n (success v) fs r (rw same at h) in
            (rw (request_id_eq→eq j i same, c.0, c.1) (succeeds v), rw c.0 c.2)
        | inr other ↦ cc (rw other at h)
      ]
  consume-Conforms i n (result j false missing (present e) ∷ fs) r h =
      elim (Bool-cases (request_id_eq j i)) [
        | inl same ↦
            let c = consume-closed i n (failure e) fs r (rw same at h) in
            (rw (request_id_eq→eq j i same, c.0, c.1) (fails e), rw c.0 c.2)
        | inr other ↦ cc (rw other at h)
      ]
  consume-Conforms i n (result j o v e ∷ fs) r h = ground arith

  Conforms-consume :
      (i : RequestId) (n : ℕ) (fs : List (PluginFrame N)) (t : TerminalResult N)
      → Conforms i fs t
      → consume (opened i n) fs ≡ ok (t, n + length fs)
  unfolding consume finish accept
  Conforms-consume i n _ _ (succeeds v) = rw (request_id_eq_refl i) refl
  Conforms-consume i n _ _ (fails e) = rw (request_id_eq_refl i) refl
  Conforms-consume i n _ _ (streams e {fs} {t} c) =
      rw (request_id_eq_refl i)
        (Conforms-consume i (n + 1) fs t c ∙ ap (λ k. ok (t, k)) (omega arith))

  -- A response is accepted, with a terminal result and a number of frames, exactly when its frames
  -- are some events of the request followed by its single, well-formed result, that result is the
  -- one returned, and the number is that of all the frames.
  pub consume_iff_Conforms :
      (i : RequestId) (fs : List (PluginFrame N)) (t : TerminalResult N) (n : ℕ)
      → (consume (new i) fs ≡ ok (t, n)) ↔ (Conforms i fs t × (n ≡ length fs))
  unfolding new
  consume_iff_Conforms i fs t n = (
    λ h. let c = consume-Conforms i 0 fs (t, n) h in (c.0, omega (arith, c.1)),
    λ c. Conforms-consume i 0 fs t c.0 ∙ ap (λ k. ok (t, k)) (omega (arith, c.1)),
  )
