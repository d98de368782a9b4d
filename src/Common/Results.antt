-- ===== src/Common/Results.antt =====
-- `std::result::Result` with the `?` operator as the bind of a `do` block.
use mathlib.Core.Path.{◌≡◌, refl}
use mathlib.Core.Logic.{◌⊎◌, inl, inr}
use mathlib.Core.Bool.{Bool, true, false}
use mathlib.Core.Option.{Option, none, some}

pub data Result {ℓ κ} (E : Type ℓ) (A : Type κ) : Type (ℓ ⊔ κ) where
  ok : A → Result E A
  err : E → Result E A

abbrev pub ◌>>=◌ {α β ε} :
    {Err : Type ε} {Val : Type α} {Next : Type β}
    → Result Err Val
    → (Val → Result Err Next)
    → Result Err Next
err fault >>= next = err fault
ok value >>= next = next value

infixl 5 ◌>>=◌
abbrev pub ◌>>◌ {β ε} :
    {Err : Type ε} {Next : Type β} → Result Err (Unit {0}) → Result Err Next → Result Err Next
first >> rest = first >>= λ done. rest

infixl 5 ◌>>◌
-- `if bad { return Err(e) }`.
abbrev pub fail_if {ℓ} : {E : Type ℓ} → Bool → E → Result E (Unit {0})
fail_if true e = err e
fail_if false e = ok tt

-- `Option::ok_or`.
abbrev pub ok_or {ℓ κ} : {E : Type ℓ} {A : Type κ} → Option A → E → Result E A
ok_or none e = err e
ok_or (some a) e = ok a

abbrev pub map_err {ℓ κ μ} :
    {E : Type ℓ} {F : Type κ} {A : Type μ} → (E → F) → Result E A → Result F A
map_err f (ok a) = ok a
map_err f (err e) = err (f e)

abbrev pub is_ok {ℓ κ} : {E : Type ℓ} {A : Type κ} → Result E A → Bool
is_ok (ok a) = true
is_ok (err e) = false

-- A successful block ran its first step and what followed.
pub >>=-eq-ok {α β ε} :
    {Err : Type ε} {Val : Type α} {Next : Type β} (r : Result Err Val)
    (next : Val → Result Err Next) {final : Next}
    → (r >>= next) ≡ ok final
    → (value : Val) × (r ≡ ok value) × (next value ≡ ok final)
>>=-eq-ok (err fault) next h = cc
>>=-eq-ok (ok value) next h = (value, refl, h)

-- A failed block failed in its first step or in what followed.
pub >>=-eq-err {α β ε} :
    {Err : Type ε} {Val : Type α} {Next : Type β} (r : Result Err Val)
    (next : Val → Result Err Next) {fault : Err}
    → (r >>= next) ≡ err fault
    → (r ≡ err fault) ⊎ ((value : Val) × (r ≡ ok value) × (next value ≡ err fault))
>>=-eq-err (err e) next h = inl (cc)
>>=-eq-err (ok value) next h = inr (value, refl, h)

pub fail_if-eq-ok {ℓ} :
    {E : Type ℓ} (b : Bool) (e : E) (u : Unit {0}) → fail_if b e ≡ ok u → b ≡ false
fail_if-eq-ok true e u h = cc
fail_if-eq-ok false e u h = refl

pub ok_or-eq-ok {ℓ κ} :
    {E : Type ℓ} {A : Type κ} (o : Option A) (e : E) (a : A) → ok_or o e ≡ ok a → o ≡ some a
ok_or-eq-ok none e a h = cc
ok_or-eq-ok (some b) e a h = cc
