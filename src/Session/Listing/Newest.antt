-- ===== src/Session/Listing/Newest.antt =====
-- tactus-runtime/src/session.rs: the listing gives what sorting all sessions would.
use agenstro.Common.{
  ℕ, zero, suc, true, false, ◌&&◌, not, Option, none, some, Result, ok, err, ◌>>=◌, List, [], ◌∷◌,
  leb, take, if◌then◌else◌, arith, ◌≡◌, refl, sym, ap, subst, ◌∙◌, Bool-cases, inl, inr,
}
use agenstro.Common.Text.{Text}
use agenstro.Session.{SessionView, SessionError, invalid_argument}
use agenstro.Session.Listing.{
  Entry, text_lt, RankedSession, is_before, visit, scan, push_session, sessions_of, projected,
  list_in, list, max_list_limit,
}
use agenstro.Session.Listing.Selection.{
  insert, sort, sort_onto, push_bounded-take, insert-IsSorted, sort-IsSorted, sort-IsSorted-eq,
  take-IsSorted, IsSorted,
}

text_lt-asymmetric : (s t : Text) → text_lt s t ≡ true → text_lt t s ≡ false
text_lt-asymmetric [] [] h = cc
text_lt-asymmetric [] (b ∷ t) h = refl
text_lt-asymmetric (a ∷ s) [] h = cc
text_lt-asymmetric (a ∷ s) (b ∷ t) h = let ih = text_lt-asymmetric s t in ground arith

text_lt-comparable : (s t u : Text) → text_lt s t ≡ true → text_lt u t ≡ false → text_lt s u ≡ true
text_lt-comparable [] [] u h k = cc
text_lt-comparable [] (b ∷ t) [] h k = cc
text_lt-comparable [] (b ∷ t) (c ∷ u) h k = refl
text_lt-comparable (a ∷ s) [] u h k = cc
text_lt-comparable (a ∷ s) (b ∷ t) [] h k = cc
text_lt-comparable (a ∷ s) (b ∷ t) (c ∷ u) h k = let ih = text_lt-comparable s t u in ground arith

module _ (N : Type 0) where
  is_before-asymmetric : (a b : RankedSession N) → is_before N a b ≡ true → is_before N b a ≡ false
  is_before-asymmetric a b h =
      let t = text_lt-asymmetric a.session.session_id b.session.session_id in ground arith

  is_before-comparable :
      (a b c : RankedSession N)
      → is_before N a b ≡ true
      → is_before N c b ≡ false
      → is_before N a c ≡ true
  is_before-comparable a b c h k =
      let t = text_lt-comparable a.session.session_id b.session.session_id c.session.session_id in
      ground arith

  module _ (decode : Text → Result Text (SessionView N)) where
    abbrev with_session : Option (RankedSession N) → List (RankedSession N) → List (RankedSession N)
    with_session none rest = rest
    with_session (some s) rest = s ∷ rest

    -- All the sessions of the entries, under the checks of the listing.
    unfoldable collect : ℕ → ℕ → List Entry → Result SessionError (List (RankedSession N))
    collect index bytes_read [] = ok []
    collect index bytes_read (e ∷ more) = visit N decode index bytes_read e >>= λ v.
        collect (suc index) v.0 more >>= λ rest. ok (with_session v.1 rest)

    abbrev newest_in :
        (List (SessionView N) → ℕ)
        → ℕ
        → Option (List Entry)
        → Result SessionError (List (SessionView N))
    newest_in json_length limit none = ok []
    newest_in json_length limit (some entries) = collect 0 0 entries >>= λ all.
        projected N decode json_length (sessions_of N decode (take limit (sort (is_before N) all)))

    -- The first sessions of all, sorted as a whole.
    unfoldable pub newest :
        (List (SessionView N) → ℕ)
        → ℕ
        → Result SessionError (Option (List Entry))
        → Result SessionError (List (SessionView N))
    unfolding collect
    newest json_length limit root =
        if not (leb 1 limit && leb limit max_list_limit)
        then err invalid_argument
        else root >>= newest_in json_length limit

    abbrev first_of :
        ℕ
        → List (RankedSession N)
        → Result SessionError (List (RankedSession N))
        → Result SessionError (List (RankedSession N))
    first_of limit acc q = q >>= λ all. ok (take limit (sort_onto (is_before N) acc all))

    first_of-none :
        (limit : ℕ) (acc : List (RankedSession N))
        (q : Result SessionError (List (RankedSession N)))
        → first_of limit acc (q >>= λ rest. ok (with_session none rest)) ≡ first_of limit acc q
    first_of-none limit acc (err e) = refl
    first_of-none limit acc (ok all) = refl

    first_of-some :
        (limit : ℕ) (acc : List (RankedSession N)) (s : RankedSession N)
        (q : Result SessionError (List (RankedSession N)))
        → first_of limit acc (q >>= λ rest. ok (with_session (some s) rest))
          ≡ first_of limit (insert (is_before N) s acc) q
    first_of-some limit acc s (err e) = refl
    first_of-some limit acc s (ok all) = refl

    abbrev Agrees : ℕ → List Entry → Type 0
    Agrees limit entries =
        (index bytes_read : ℕ) (acc : List (RankedSession N))
        → IsSorted (is_before N) acc
        → scan N decode limit index bytes_read (take limit acc) entries
          ≡ first_of limit acc (collect index bytes_read entries)

    scan-visit :
        (limit index : ℕ) (acc : List (RankedSession N)) (more : List Entry)
        (r : Result SessionError (ℕ × Option (RankedSession N)))
        → IsSorted (is_before N) acc
        → Agrees limit more
        → (r >>= λ v.
            scan N decode limit
              (suc index)
              v.0
              (push_session N decode limit (take limit acc) v.1)
              more)
          ≡ first_of limit acc
              (r >>= λ v. collect (suc index) v.0 more >>= λ rest. ok (with_session v.1 rest))
    scan-visit limit index acc more (err e) s ih = refl
    scan-visit limit index acc more (ok (b, none)) s ih =
        ih (suc index) b acc s ∙ sym (first_of-none limit acc (collect (suc index) b more))
    scan-visit limit index acc more (ok (b, some x)) s ih =
        rw (push_bounded-take (is_before N) is_before-asymmetric is_before-comparable limit x acc s)
          (ih (suc index) b (insert (is_before N) x acc)
              (insert-IsSorted (is_before N) is_before-asymmetric is_before-comparable x acc s)
            ∙ sym (first_of-some limit acc x (collect (suc index) b more)))

    scan-collect : (limit : ℕ) (entries : List Entry) → Agrees limit entries
    unfolding scan collect
    scan-collect limit [] index bytes_read acc s = refl
    scan-collect limit (e ∷ more) index bytes_read acc s =
        scan-visit limit index acc more (visit N decode index bytes_read e) s
          (scan-collect limit more)

    projected-sorted :
        (json_length : List (SessionView N) → ℕ) (limit : ℕ)
        (q : Result SessionError (List (RankedSession N)))
        → (first_of limit [] q >>= λ heap.
            projected N decode json_length (sessions_of N decode (sort (is_before N) heap)))
          ≡ (q >>= λ all.
              projected N decode json_length
                (sessions_of N decode (take limit (sort (is_before N) all))))
    unfolding sort
    projected-sorted json_length limit (err e) = refl
    projected-sorted json_length limit (ok all) =
        ap (λ (l : List (RankedSession N)). projected N decode json_length (sessions_of N decode l))
          (sort-IsSorted-eq (is_before N) is_before-asymmetric is_before-comparable
            (take limit (sort (is_before N) all))
            (take-IsSorted (is_before N) is_before-asymmetric is_before-comparable limit
              (sort (is_before N) all)
              (sort-IsSorted (is_before N) is_before-asymmetric is_before-comparable all)))

    take-nil : (limit : ℕ) → take {A = RankedSession N} limit [] ≡ []
    take-nil zero = refl
    take-nil (suc limit) = refl

    list_in-newest_in :
        (json_length : List (SessionView N) → ℕ) (limit : ℕ) (root : Option (List Entry))
        → list_in N decode json_length limit root ≡ newest_in json_length limit root
    list_in-newest_in json_length limit none = refl
    list_in-newest_in json_length limit (some entries) =
        rw
          (subst
            (λ (l : List (RankedSession N)).
              scan N decode limit 0 0 l entries ≡ first_of limit [] (collect 0 0 entries))
            (take-nil limit) (scan-collect limit entries 0 0 [] tt))
          (projected-sorted json_length limit (collect 0 0 entries))

    -- Listing the sessions with a heap of at most `limit` of them gives, for every directory and every
    -- limit, what collecting the sessions of all its entries, sorting them by the latest update and then
    -- the identifier, and taking the first `limit` gives: the same sessions or the same error.
    pub list-newest :
        (json_length : List (SessionView N) → ℕ) (limit : ℕ)
        (root : Result SessionError (Option (List Entry)))
        → list N decode json_length limit root ≡ newest json_length limit root
    unfolding list newest
    list-newest json_length limit root =
        elim (Bool-cases (not (leb 1 limit && leb limit max_list_limit))) [
          | inl h ↦ rw h refl
          | inr h ↦ rw h (λ i. root >>= λ entries. list_in-newest_in json_length limit entries i)
        ]
