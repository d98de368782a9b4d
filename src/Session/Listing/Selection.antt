-- ===== src/Session/Listing/Selection.antt =====
-- tactus-runtime/src/session.rs: the standard library's stable sort and bounded heap that the listing of
-- sessions uses, for any strict order. A heap is the list of its elements, the greatest last.
use agenstro.Common.{
  ℕ, zero, suc, ◌<◌, ◌≤◌, Bool, true, false, Option, none, some, is_some_and, List, [], ◌∷◌, ◌++◌,
  ltb, length, take, if◌then◌else◌, arith, ◌≡◌, refl, sym, ap, ◌∙◌, Bool-cases, inl, inr, ltb→lt,
  length-take, take_all, append_assoc, append-nil, subst,
}

module _ {A : Type 0} (before : A → A → Bool) where
  abbrev pub insert : A → List A → List A
  insert x [] = x ∷ []
  insert x (y ∷ l) = let rest = insert x l in if before x y then x ∷ (y ∷ l) else y ∷ rest

  abbrev pub sort_onto : List A → List A → List A
  sort_onto sorted [] = sorted
  sort_onto sorted (x ∷ l) = sort_onto (insert x sorted) l

  unfoldable pub sort : List A → List A
  sort l = sort_onto [] l

  abbrev pub peek : List A → Option A
  peek [] = none
  peek (x ∷ []) = some x
  peek (x ∷ (y ∷ l)) = peek (y ∷ l)

  abbrev pub pop : List A → List A
  pop [] = []
  pop (x ∷ []) = []
  pop (x ∷ (y ∷ l)) = x ∷ pop (y ∷ l)

  -- `push`, with the replacement of the greatest element by a smaller one in a full heap.
  abbrev pub push_bounded : ℕ → List A → A → List A
  push_bounded limit heap x =
      if ltb (length heap) limit
      then insert x heap
      else if is_some_and (before x) (peek heap)
      then insert x (pop heap)
      else heap

  -- Each element stands before none that precedes it.
  abbrev pub Follows : A → List A → Type 0
  Follows x [] = Unit
  Follows x (y ∷ l) = (before y x ≡ false) × Follows x l

  abbrev pub IsSorted : List A → Type 0
  IsSorted [] = Unit
  IsSorted (x ∷ l) = Follows x l × IsSorted l

  module _ (asymmetric : (x y : A) → before x y ≡ true → before y x ≡ false)
      (comparable : (x y z : A) → before x y ≡ true → before z y ≡ false → before x z ≡ true) where
    Follows-before : (x y : A) (l : List A) → before x y ≡ true → Follows y l → Follows x l
    Follows-before x y [] h f = tt
    Follows-before x y (z ∷ l) h (f, g) =
        (asymmetric x z (comparable x y z h f), Follows-before x y l h g)

    insert-Follows :
        (x y : A) (l : List A) → before x y ≡ false → Follows y l → Follows y (insert x l)
    insert-Follows x y [] h f = (h, tt)
    insert-Follows x y (z ∷ l) h (f, g) = let ih = insert-Follows x y l h g in ground arith

    pub insert-IsSorted : (x : A) (l : List A) → IsSorted l → IsSorted (insert x l)
    insert-IsSorted x [] s = (tt, tt)
    insert-IsSorted x (y ∷ l) (f, s) = elim (Bool-cases (before x y)) [
      | inl h ↦ rw h ((asymmetric x y h, Follows-before x y l h f), (f, s))
      | inr h ↦ rw h (insert-Follows x y l h f, insert-IsSorted x l s)
    ]

    sort_onto-IsSorted : (sorted l : List A) → IsSorted sorted → IsSorted (sort_onto sorted l)
    sort_onto-IsSorted sorted [] s = s
    sort_onto-IsSorted sorted (x ∷ l) s =
        sort_onto-IsSorted (insert x sorted) l (insert-IsSorted x sorted s)

    pub sort-IsSorted : (l : List A) → IsSorted (sort l)
    unfolding sort
    sort-IsSorted l = sort_onto-IsSorted [] l tt

    pop-take : (n : ℕ) (l : List A) → n < length l → pop (take (suc n) l) ≡ take n l
    pop-take n [] h = ground arith
    pop-take zero (x ∷ l) h = refl
    pop-take (suc n) (x ∷ []) h = ground arith
    pop-take (suc n) (x ∷ (y ∷ l)) h = ap (λ (t : List A). x ∷ t) (pop-take n (y ∷ l) (omega arith))

    peek-take :
        (x y : A) (n : ℕ) (l : List A)
        → before x y ≡ true
        → Follows y l
        → n < length l
        → is_some_and (before x) (peek (take (suc n) l)) ≡ true
    peek-take x y n [] h f lt = ground arith
    peek-take x y zero (z ∷ l) h (f, g) lt = comparable x y z h f
    peek-take x y (suc n) (z ∷ []) h f lt = ground arith
    peek-take x y (suc n) (z ∷ (w ∷ l)) h (f, g) lt = peek-take x y n (w ∷ l) h g (omega arith)

    cons_replaced :
        (b : Bool) (y : A) (t u r : List A)
        → (if b then u else t) ≡ r
        → (if b then y ∷ u else y ∷ t) ≡ y ∷ r
    cons_replaced b y t u r h = ground arith

    abbrev replace_greatest : List A → A → List A
    replace_greatest heap x =
        if is_some_and (before x) (peek heap) then insert x (pop heap) else heap

    replace_greatest-take :
        (n : ℕ) (x : A) (l : List A)
        → IsSorted l
        → n ≤ length l
        → replace_greatest (take n l) x ≡ take n (insert x l)
    replace_greatest-take zero x l s h = refl
    replace_greatest-take (suc n) x [] s h = ground arith
    replace_greatest-take (suc zero) x (y ∷ l) s h = elim (Bool-cases (before x y)) [
      | inl e ↦ rw e refl
      | inr e ↦ rw e refl
    ]
    replace_greatest-take (suc (suc n)) x (y ∷ []) s h = ground arith
    replace_greatest-take (suc (suc n)) x (y ∷ (z ∷ l)) (f, s) h =
        let ih = replace_greatest-take (suc n) x (z ∷ l) s (omega arith) in
        elim (Bool-cases (before x y)) [
          | inl e ↦
              let p = peek-take x y n (z ∷ l) e f (omega arith) in
              let q = pop-take n (z ∷ l) (omega arith) in
              rw (p, e) (ap (λ (t : List A). x ∷ (y ∷ t)) q)
          | inr e ↦
              rw e (cons_replaced (is_some_and (before x) (peek (take (suc n) (z ∷ l)))) y _ _ _ ih)
        ]

    length-insert : (x : A) (l : List A) → length (insert x l) ≡ suc (length l)
    length-insert x [] = refl
    length-insert x (y ∷ l) = let ih = length-insert x l in ground arith

    -- The heap holds the first elements of the sorted list.
    pub push_bounded-take :
        (limit : ℕ) (x : A) (l : List A)
        → IsSorted l
        → push_bounded limit (take limit l) x ≡ take limit (insert x l)
    push_bounded-take limit x l s = elim (Bool-cases (ltb (length (take limit l)) limit)) [
      | inl h ↦
          let len = length-take limit l in
          let less = ltb→lt (length (take limit l)) limit h in
          let whole = take_all limit l (omega (arith, len, less)) in
          rw (h, whole)
            (sym (take_all limit (insert x l) (omega (arith, length-insert x l, len, less))))
      | inr h ↦
          let len = length-take limit l in
          rw h (replace_greatest-take limit x l s (ground (arith, len)))
    ]

    Follows-append : (a x : A) (l r : List A) → Follows a (l ++ (x ∷ r)) → before x a ≡ false
    Follows-append a x [] r f = f.0
    Follows-append a x (y ∷ l) r f = Follows-append a x l r f.1

    insert-append : (x : A) (l r : List A) → IsSorted (l ++ (x ∷ r)) → insert x l ≡ l ++ (x ∷ [])
    insert-append x [] r s = refl
    insert-append x (a ∷ l) r (f, s) =
        rw (Follows-append a x l r f) (ap (λ (t : List A). a ∷ t) (insert-append x l r s))

    sort_onto-append : (l r : List A) → IsSorted (l ++ r) → sort_onto l r ≡ l ++ r
    sort_onto-append l [] s = sym (append-nil l)
    sort_onto-append l (x ∷ r) s =
        let e = append_assoc l (x ∷ []) r in
        rw (insert-append x l r s)
          (sort_onto-append (l ++ (x ∷ [])) r (subst IsSorted (sym e) s) ∙ e)

    pub sort-IsSorted-eq : (l : List A) → IsSorted l → sort l ≡ l
    unfolding sort
    sort-IsSorted-eq l s = sort_onto-append [] l s

    take-Follows : (n : ℕ) (x : A) (l : List A) → Follows x l → Follows x (take n l)
    take-Follows zero x l f = tt
    take-Follows (suc n) x [] f = tt
    take-Follows (suc n) x (y ∷ l) (f, g) = (f, take-Follows n x l g)

    pub take-IsSorted : (n : ℕ) (l : List A) → IsSorted l → IsSorted (take n l)
    take-IsSorted zero l s = tt
    take-IsSorted (suc n) [] s = tt
    take-IsSorted (suc n) (x ∷ l) (f, s) = (take-Follows n x l f, take-IsSorted n l s)
