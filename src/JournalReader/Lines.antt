-- ===== src/JournalReader/Lines.antt =====
-- The lines that are read are the lines of the stream, however the stream is cut into buffers.
use agenstro.Common.{
  ℕ, zero, suc, ◌+◌, ◌-◌, ◌≤◌, ◌<◌, ◌≡◌, refl, sym, ap, ◌∙◌, inl, inr, Bool, true, false, ◌||◌, not,
  Option, none, some, Result, ok, err, List, [], ◌∷◌, ◌++◌, append_assoc, append-nil, map, arith,
  ltb, ◌==◌, length, all, any, take, drop, Bool-cases, take_all, length-append, if◌then◌else◌,
}
use native.Mathlib.Nat.{zero-add, suc-add, suc-sub-suc, sub-zero}
use agenstro.Common.Text.{Text, is_empty}
use agenstro.JournalReader.{
  ReadError, line_too_large, BoundedLine, Source, newline, line_length, newline_at, consume,
  read_bounded_line,
}

abbrev pub join : List Text → Text
join [] = []
join (c ∷ cs) = c ++ join cs

abbrev pub filled : List Text → Bool
filled = all (λ c. not (is_empty c))

abbrev pub has_newline : Text → Bool
has_newline = any (λ b. b == newline)

line_length-newline :
    (c r : Text)
    → has_newline c ≡ true
    → (line_length (c ++ r) ≡ line_length c)
      × (line_length c ≤ length c)
      × ((m : ℕ) × (line_length c ≡ suc m) × (newline_at m c ≡ true))
unfolding line_length newline_at
line_length-newline [] r h = cc
line_length-newline (b ∷ c) r h = elim (Bool-cases (b == newline)) [
  | inl here ↦ rw here (refl, omega arith, (0, refl, here))
  | inr later ↦
      let (same, short, (m, e, t)) = line_length-newline c r (ground arith) in
      rw (later, same) (refl, omega (arith, short), (suc m, ap suc e, t))
]

pub line_length-none :
    (c r : Text)
    → has_newline c ≡ false
    → (line_length (c ++ r) ≡ length c + line_length r) × (line_length c ≡ length c)
unfolding line_length
line_length-none [] r h = (omega arith, refl)
line_length-none (b ∷ c) r h = ground (arith, line_length-none c r)

newline_at-none : (c : Text) (n : ℕ) → has_newline c ≡ false → newline_at n c ≡ false
unfolding newline_at
newline_at-none [] n h = refl
newline_at-none (b ∷ c) zero h = ground arith
newline_at-none (b ∷ c) (suc n) h = newline_at-none c n (ground arith)

pub take_past : (c r : Text) (m : ℕ) → take (length c + m) (c ++ r) ≡ c ++ take m r
take_past [] r m = rw zero-add refl
take_past (b ∷ c) r m = rw (suc-add, take_past c r m) refl

pub drop_past : (c r : Text) (m : ℕ) → drop (length c + m) (c ++ r) ≡ drop m r
drop_past [] r m = rw zero-add refl
drop_past (b ∷ c) r m = rw (suc-add, drop_past c r m) refl

take_within : (n : ℕ) (c r : Text) → n ≤ length c → take n (c ++ r) ≡ take n c
take_within zero c r h = refl
take_within (suc n) [] r h = absurd (omega arith)
take_within (suc n) (b ∷ c) r h = rw (take_within n c r (omega arith)) refl

drop_within : (n : ℕ) (c r : Text) → n ≤ length c → drop n (c ++ r) ≡ drop n c ++ r
drop_within zero c r h = refl
drop_within (suc n) [] r h = absurd (omega arith)
drop_within (suc n) (b ∷ c) r h = drop_within n c r (omega arith)

pub has_newline-append : (c r : Text) → has_newline (c ++ r) ≡ (has_newline c || has_newline r)
has_newline-append [] r = refl
has_newline-append (b ∷ c) r = elim (Bool-cases (b == newline)) [
  | inl here ↦ rw here refl
  | inr later ↦ rw (later, has_newline-append c r) refl
]

line_length-nil : line_length [] ≡ 0
unfolding line_length
line_length-nil = refl

module _ (max_bytes : ℕ) where
  -- What reading one line may return, when `output` was read before `bytes`.
  abbrev pub IsLineOf : Text → Text → Result ReadError (Option BoundedLine × Source) → Type 0
  IsLineOf output bytes (err e) =
      (e ≡ line_too_large) × (max_bytes < length output + line_length bytes)
  IsLineOf output bytes (ok (none, rest)) = output ++ bytes ≡ []
  IsLineOf output bytes (ok (some line, rest)) =
      (line.bytes ≡ output ++ take (line_length bytes) bytes)
      × (line.terminated ≡ has_newline bytes)
      × (length output + line_length bytes ≤ max_bytes)
      × ((ds : List Text) × (rest ≡ map ok ds)
          × (filled ds ≡ true)
          × (join ds ≡ drop (line_length bytes) bytes))

  consume-join :
      (s : Text) (cs : List Text)
      → filled cs ≡ true
      → (ds : List Text) × (consume s (map ok cs) ≡ map ok ds)
        × (filled ds ≡ true)
        × (join ds ≡ s ++ join cs)
  consume-join [] cs h = (cs, refl, h, refl)
  consume-join (b ∷ s) cs h = ((b ∷ s) ∷ cs, refl, h, refl)

  continued-IsLineOf :
      (output c bytes : Text) (r : Result ReadError (Option BoundedLine × Source))
      → has_newline c ≡ false
      → IsLineOf (output ++ c) bytes r
      → IsLineOf output (c ++ bytes) r
  continued-IsLineOf output c bytes (err e) h w =
      (w.0, omega (arith, w.1, length-append output c, (line_length-none c bytes h).0))
  continued-IsLineOf output c bytes (ok (none, rest)) h w = sym (append_assoc output c bytes) ∙ w
  continued-IsLineOf output c bytes (ok (some line, rest)) h w =
      let (text, ended, fits, (ds, left, full, rest_of)) = w in
      let n = (line_length-none c bytes h).0 in
      (
        rw (n, take_past c bytes (line_length bytes)) (text ∙ append_assoc output c _),
        rw (has_newline-append c bytes, h) ended,
        omega (arith, fits, length-append output c, n),
        (ds, left, full, rw (n, drop_past c bytes (line_length bytes)) rest_of),
      )

  ended-IsLineOf :
      (output c : Text) (cs : List Text)
      → filled cs ≡ true
      → has_newline c ≡ true
      → length output + line_length c ≤ max_bytes
      → IsLineOf output (c ++ join cs) (
          ok (
            some (record { bytes = output ++ take (line_length c) c; terminated = true }),
            consume (drop (line_length c) c) (map ok cs),
          ))
  ended-IsLineOf output c cs full h fits =
      let (same, short, end) = line_length-newline c (join cs) h in
      let (ds, left, filled_ds, rest_of) = consume-join (drop (line_length c) c) cs full in
      (
        rw (same, take_within (line_length c) c (join cs) short) refl,
        rw (has_newline-append c (join cs), h) refl,
        omega (arith, same, fits),
        (ds, left, filled_ds, rw (same, drop_within (line_length c) c (join cs) short) rest_of),
      )

  too_large-IsLineOf :
      (output c r : Text)
      → max_bytes < length output + line_length c
      → IsLineOf output (c ++ r) (err line_too_large)
  too_large-IsLineOf output c r h = elim (Bool-cases (has_newline c)) [
    | inl ends ↦ (refl, omega (arith, h, (line_length-newline c r ends).0))
    | inr goes ↦
        (refl, omega (arith, h, (line_length-none c r goes).0, (line_length-none c r goes).1))
  ]

  buffer-IsLineOf :
      (output c : Text) (cs : List Text) (large ends : Bool)
      → filled cs ≡ true
      → ltb max_bytes (length output + line_length c) ≡ large
      → has_newline c ≡ ends
      → (length (output ++ c) ≤ max_bytes
          → IsLineOf
              (output ++ c)
              (join cs)
              (read_bounded_line max_bytes (output ++ c) (map ok cs)))
      → IsLineOf output (c ++ join cs) (
          if large
          then err line_too_large
          else if newline_at (line_length c - 1) c
          then ok (
            some (record { bytes = output ++ take (line_length c) c; terminated = true }),
            consume (drop (line_length c) c) (map ok cs),
          )
          else read_bounded_line max_bytes (output ++ take (line_length c) c) (map ok cs))
  buffer-IsLineOf output c cs true ends full l e rest =
      too_large-IsLineOf output c (join cs) (ground arith)
  buffer-IsLineOf output c cs false true full l e rest =
      let (same, short, (m, n, at')) = line_length-newline c (join cs) e in
      let found : newline_at (line_length c - 1) c ≡ true = rw (n, suc-sub-suc, sub-zero) at' in
      rw found (ended-IsLineOf output c cs full e (ground arith))
  buffer-IsLineOf output c cs false false full l e rest =
      let n = (line_length-none c [] e).1 in
      rw (newline_at-none c (line_length c - 1) e, n, take_all (length c) c (omega arith))
        (continued-IsLineOf output c (join cs) _ e
          (rest (ground (arith, length-append output c, n))))

  read-IsLineOf :
      (output : Text) (cs : List Text)
      → filled cs ≡ true
      → length output ≤ max_bytes
      → IsLineOf output (join cs) (read_bounded_line max_bytes output (map ok cs))
  unfolding read_bounded_line
  read-IsLineOf [] [] h fits = refl
  read-IsLineOf (b ∷ s) [] h fits =
      rw line_length-nil (rw append-nil refl, refl, omega (arith, fits), ([], refl, refl, refl))
  read-IsLineOf output ([] ∷ cs) h fits = cc
  read-IsLineOf output ((b ∷ s) ∷ cs) h fits =
      buffer-IsLineOf output (b ∷ s) cs _ _ (ground arith) refl refl
        (λ fits'. read-IsLineOf (output ++ (b ∷ s)) cs (ground arith) fits')

  -- However the stream is cut into buffers: reading a line returns the bytes up to and with the first
  -- line feed, or all of them when there is none, says which, and leaves the rest for the next call;
  -- it fails exactly if these are more bytes than allowed, and returns nothing only at the end.
  pub read_bounded_line-IsLineOf :
      (cs : List Text)
      → filled cs ≡ true
      → IsLineOf [] (join cs) (read_bounded_line max_bytes [] (map ok cs))
  read_bounded_line-IsLineOf cs h = read-IsLineOf [] cs h (omega arith)
