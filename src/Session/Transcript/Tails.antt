-- ===== src/Session/Transcript/Tails.antt =====
-- The complete lines of a file and its tail, after an append of a line or of a part of one.
use agenstro.Common.{
  ℕ, ◌-◌, ◌≤◌, ◌≡◌, refl, ◌∙◌, inl, inr, Bool, true, false, ◌||◌, some, ok, [], ◌∷◌, ◌++◌,
  append-nil, length-append, take-append, take_all, ltb, ◌==◌, length, any, arith, Bool-cases,
}
use agenstro.Common.Text.{Text, is_empty}
use agenstro.Session.Transcript.{
  max_transcript_record_bytes, newline, extend_lines, split_lines, find_previous_newline,
  without_last, ends_with_newline, last_line, repair_and_read_last_transcript_line,
}

abbrev pub has_newline : Text → Bool
has_newline = any (λ b. b == newline)

-- A file of complete lines.
abbrev pub IsComplete : Text → Type 0
IsComplete file = split_lines file ≡ (file, [])

plain-lines : (line : Text) → has_newline line ≡ false → split_lines line ≡ ([], line)
unfolding split_lines
plain-lines [] h = refl
plain-lines (b ∷ s) h =
    let other : (b == newline) ≡ false = ground arith in
    let rest : split_lines s ≡ ([], s) = plain-lines s (ground arith) in rw (rest, other) refl

extend-append :
    (b : ℕ) (q : Text × Text) (s : Text)
    → extend_lines b (q.0, q.1 ++ s) ≡ ((extend_lines b q).0, (extend_lines b q).1 ++ s)
extend-append b ([], t) s = elim (Bool-cases (b == newline)) [
  | inl ends ↦ rw ends refl
  | inr goes ↦ rw goes refl
]
extend-append b (c ∷ l, t) s = refl

-- A part of a line only lengthens the tail.
append-tail :
    (file s : Text)
    → has_newline s ≡ false
    → split_lines (file ++ s) ≡ ((split_lines file).0, (split_lines file).1 ++ s)
unfolding split_lines
append-tail [] s h = plain-lines s h
append-tail (b ∷ f) s h = rw (append-tail f s h) (extend-append b (split_lines f) s)

extend-cons :
    (b : ℕ) (f : Text) → extend_lines b (f ++ (newline ∷ []), []) ≡ (b ∷ (f ++ (newline ∷ [])), [])
extend-cons b [] = refl
extend-cons b (x ∷ f) = refl

-- A text that ends with a newline is complete.
pub ended-lines : (file : Text) → IsComplete (file ++ (newline ∷ []))
unfolding split_lines
ended-lines [] = refl
ended-lines (b ∷ f) = rw (ended-lines f) (extend-cons b f)

pub part-lines :
    (file s : Text) → IsComplete file → has_newline s ≡ false → split_lines (file ++ s) ≡ (file, s)
part-lines file s h k = append-tail file s k ∙ rw h refl

pub part-find :
    (file s : Text)
    → IsComplete file
    → has_newline s ≡ false
    → length s ≤ max_transcript_record_bytes
    → find_previous_newline (file ++ s) ≡ ok (file, s)
unfolding find_previous_newline
part-find file s h k small =
    let fits : ltb max_transcript_record_bytes (length s) ≡ false = ground (arith, small) in
    rw (part-lines file s h k, fits) refl

without_last-append : (s : Text) (b : ℕ) → without_last (s ++ (b ∷ [])) ≡ s
without_last-append s b =
    let count : length (s ++ (b ∷ [])) - 1 ≡ length s = omega (arith, length-append s (b ∷ [])) in
    let none_left : length s - length s ≡ 0 = omega arith in
    rw (count, take-append (length s) s (b ∷ []), take_all (length s) s (omega arith), none_left)
      (append-nil s)

append-is_empty : (s : Text) (b : ℕ) (t : Text) → is_empty (s ++ (b ∷ t)) ≡ false
append-is_empty [] b t = refl
append-is_empty (a ∷ s) b t = refl

-- The line that was appended last is read back.
pub appended-last_line :
    (file line : Text)
    → IsComplete file
    → has_newline line ≡ false
    → is_empty line ≡ false
    → length line ≤ max_transcript_record_bytes
    → last_line ((file ++ line) ++ (newline ∷ [])) ≡ ok (some line)
unfolding last_line
appended-last_line file line h k full small =
    let fits : ltb max_transcript_record_bytes (length line) ≡ false = ground (arith, small) in
    rw
      (
        append-is_empty (file ++ line) newline [],
        without_last-append (file ++ line) newline,
        part-find file line h k small,
        full,
        fits,
      )
      refl

ended : (file : Text) → IsComplete file → (is_empty file || ends_with_newline file) ≡ true
ended file h = elim (Bool-cases (is_empty file)) [
  | inl nothing ↦ rw nothing refl
  | inr some_bytes ↦ rw (some_bytes, h) refl
]

-- Complete lines are left as they are.
pub complete-repair :
    (file : Text)
    → IsComplete file
    → repair_and_read_last_transcript_line file ≡ (file, last_line file)
unfolding repair_and_read_last_transcript_line
complete-repair file h =
    let kept : (is_empty file || ends_with_newline file) ≡ true = ended file h in rw kept refl

-- A part of a line is dropped.
pub part-repair :
    (file : Text) (b : ℕ) (s : Text)
    → IsComplete file
    → has_newline (b ∷ s) ≡ false
    → length (b ∷ s) ≤ max_transcript_record_bytes
    → repair_and_read_last_transcript_line (file ++ (b ∷ s)) ≡ (file, last_line file)
unfolding repair_and_read_last_transcript_line
part-repair file b s h k small =
    let part : (is_empty (file ++ (b ∷ s)) || ends_with_newline (file ++ (b ∷ s))) ≡ false =
      rw (append-is_empty file b s, part-lines file (b ∷ s) h k) refl in
    rw (part, part-find file (b ∷ s) h k small) refl
