-- ===== src/Process/Readers/Capture.antt =====
-- What the stderr readers keep, against the whole stream.
use agenstro.Common.{
  ℕ, ◌+◌, ◌-◌, ◌≡◌, refl, ap, ap₂, ◌∙◌, sym, Bool, true, false, ◌||◌, not, ◌==◌, [], ◌++◌, min, ltb,
  leb, length, take, drop, ok, arith, Bool-cases, inl, inr, length-append, length-take, length-drop,
  take-append, drop-append, take_all, drop_all, drop-drop, append_assoc, append-nil,
}
use agenstro.Common.Text.{Text}
use agenstro.Process.Invocation.{CapturedStderr}
use agenstro.Process.Readers.{
  Reads, eof, failed, chunk, capture_stderr_loop, capture_stderr_reader, retain, retain_tail,
  capture_command_stderr,
}

-- All the bytes that were read.
abbrev pub contents : Reads → Text
contents eof = []
contents (failed e) = []
contents (chunk b rest) = b ++ contents rest

-- The stream ended without an error.
abbrev pub Ends : Reads → Type 0
Ends eof = Unit
Ends (failed e) = ⊥
Ends (chunk b rest) = Ends rest

abbrev kept : ℕ → Text → CapturedStderr
kept limit whole = record { bytes = take limit whole; truncated = ltb limit (length whole) }

take-min : (k : ℕ) (b : Text) → take (min k (length b)) b ≡ take k b
take-min k b = elim (Bool-cases (leb k (length b))) [
  | inl h ↦ ap (λ n. take n b) (ground arith)
  | inr h ↦
      ap (λ n. take n b) (ground arith)
      ∙ take_all (length b) b (omega arith)
      ∙ sym (take_all k b (ground arith))
]

retain-kept : (limit : ℕ) (d b : Text) → retain limit (kept limit d) b ≡ kept limit (d ++ b)
retain-kept limit d b = λ i. record { bytes = same i; truncated = flag i }
  where
    same :
        take limit d ++ take (min (limit - length (take limit d)) (length b)) b
        ≡ take limit (d ++ b)
    same =
        ap (λ t. take limit d ++ t)
          (take-min _ b ∙ ap (λ n. take n b) (omega (arith, length-take limit d)))
        ∙ sym (take-append limit d b)

    flag :
        (ltb limit (length d) || ltb (min (limit - length (take limit d)) (length b)) (length b))
        ≡ ltb limit (length (d ++ b))
    flag = ground (arith, length-take limit d, length-append d b)

loop-kept :
    (limit : ℕ) (d : Text) (rs : Reads)
    → Ends rs
    → capture_stderr_loop limit (kept limit d) rs ≡ ok (kept limit (d ++ contents rs))
unfolding capture_stderr_loop
loop-kept limit d eof e = rw append-nil refl
loop-kept limit d (failed x) e = elim e [ ]
loop-kept limit d (chunk b rest) e =
    ap (λ k. capture_stderr_loop limit k rest) (retain-kept limit d b)
    ∙ loop-kept limit (d ++ b) rest e
    ∙ ap (λ t. ok (kept limit t)) (append_assoc d b (contents rest))

-- However the plugin's stderr is cut into chunks, a stream that ends leaves exactly its first
-- `limit` bytes, and is marked truncated exactly if it was longer.
pub capture_stderr_exact :
    (limit : ℕ) (rs : Reads)
    → Ends rs
    → capture_stderr_reader limit rs
      ≡ ok (record {
        bytes = take limit (contents rs);
        truncated = ltb limit (length (contents rs));
      })
unfolding capture_stderr_reader
capture_stderr_exact limit rs e =
    ap (λ k. capture_stderr_loop limit k rs) (λ i. record { bytes = empty i; truncated = short i })
    ∙ loop-kept limit [] rs e
  where
    empty : ◌≡◌ {A = Text} [] (take limit [])
    empty = sym (take_all limit [] (omega arith))

    short : false ≡ ltb limit 0
    short = ground arith

abbrev tail_of : ℕ → Text → Text × Bool
tail_of limit whole = (drop (length whole - limit) whole, ltb limit (length whole))

retain_tail-long :
    (limit : ℕ) (d b : Text)
    → leb limit (length b) ≡ true
    → retain_tail limit (tail_of limit d) b ≡ tail_of limit (d ++ b)
unfolding retain_tail
retain_tail-long limit d b h = rw h (ap₂ (λ (t : Text) (f : Bool). (t, f)) same flag)
  where
    same : drop (length b - limit) b ≡ drop (length (d ++ b) - limit) (d ++ b)
    same = sym (
        drop-append (length (d ++ b) - limit) d b
        ∙ ap₂ (λ (x y : Text). x ++ y) (drop_all _ d (ground (arith, length-append d b)))
            (ap (λ n. drop n b) (ground (arith, length-append d b))))

    flag :
        (ltb limit (length d)
          || not (length (drop (length d - limit) d) == 0)
          || ltb limit (length b))
        ≡ ltb limit (length (d ++ b))
    flag = ground (arith, length-drop (length d - limit) d, length-append d b)

retain_tail-short :
    (limit : ℕ) (d b : Text)
    → leb limit (length b) ≡ false
    → retain_tail limit (tail_of limit d) b ≡ tail_of limit (d ++ b)
unfolding retain_tail
retain_tail-short limit d b h = rw h (ap₂ (λ (t : Text) (f : Bool). (t, f)) same flag)
  where
    excess : ℕ
    excess = length (drop (length d - limit) d) + length b - limit

    same : drop excess (drop (length d - limit) d) ++ b ≡ drop (length (d ++ b) - limit) (d ++ b)
    same =
        ap₂ (λ (x y : Text). x ++ y)
          (drop-drop excess (length d - limit) d
            ∙ ap (λ n. drop n d)
                (ground (arith, length-drop (length d - limit) d, length-append d b)))
          (ap (λ n. drop n b) {x = 0} (ground (arith, length-append d b)))
        ∙ sym (drop-append (length (d ++ b) - limit) d b)

    flag : (ltb limit (length d) || ltb 0 excess) ≡ ltb limit (length (d ++ b))
    flag = ground (arith, length-drop (length d - limit) d, length-append d b)

tail-kept :
    (limit : ℕ) (d : Text) (rs : Reads)
    → Ends rs
    → capture_command_stderr limit (tail_of limit d) rs
      ≡ (ok (ltb limit (length (d ++ contents rs))), (tail_of limit (d ++ contents rs)).0)
unfolding capture_command_stderr
tail-kept limit d eof e = rw append-nil refl
tail-kept limit d (failed x) e = elim e [ ]
tail-kept limit d (chunk b rest) e =
    ap (λ s. capture_command_stderr limit s rest)
      (elim (Bool-cases (leb limit (length b))) [
        | inl h ↦ retain_tail-long limit d b h
        | inr h ↦ retain_tail-short limit d b h
      ])
    ∙ tail-kept limit (d ++ b) rest e
    ∙ ap (λ t. (ok (ltb limit (length t)), (tail_of limit t).0)) (append_assoc d b (contents rest))

-- However a command's stderr is cut into chunks, a stream that ends leaves exactly its last `limit`
-- bytes in the tail, and the reader reports truncation exactly if the stream was longer.
pub capture_command_stderr_exact :
    (limit : ℕ) (rs : Reads)
    → Ends rs
    → capture_command_stderr limit ([], false) rs
      ≡ (ok (ltb limit (length (contents rs))), drop (length (contents rs) - limit) (contents rs))
capture_command_stderr_exact limit rs e =
    ap (λ s. capture_command_stderr limit s rs)
      (ap₂ (λ (t : Text) (f : Bool). (t, f)) (sym (drop_all (0 - limit) [] (omega arith)))
        (ground arith))
    ∙ tail-kept limit [] rs e

-- However a stderr that ends is cut into chunks: a plugin's reader keeps exactly its first `limit`
-- bytes and a command's reader exactly its last `limit` bytes, and each reports truncation exactly if
-- there were more.
pub captures_exact :
    (limit : ℕ) (rs : Reads)
    → Ends rs
    → (capture_stderr_reader limit rs
        ≡ ok (record {
          bytes = take limit (contents rs);
          truncated = ltb limit (length (contents rs));
        }))
      × (capture_command_stderr limit ([], false) rs ≡ (
        ok (ltb limit (length (contents rs))),
        drop (length (contents rs) - limit) (contents rs),
      ))
captures_exact limit rs e =
    (capture_stderr_exact limit rs e, capture_command_stderr_exact limit rs e)
