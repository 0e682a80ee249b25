-- ===== src/Prelude/Result.antt =====
-- A call that returns or throws, as a value; `do` blocks run in it.
use mathlib.Core.Bool.{Bool, true, false, ◌||◌}
use mathlib.Core.Path.{◌≡◌, refl, ◌∙◌}
use mathlib.Core.List.{List}
use Prim.Native.Nat.{ℕ}

-- `type_error` is the `TypeError` that reading a property of `undefined`, or calling what is no
-- function, throws; `thrown` is the program's own `throw` of a text, as its code units.
pub data Error : Type 0 where
  type_error : Error
  thrown : List ℕ → Error

pub data Result {ℓ} (A : Type ℓ) : Type ℓ where
  ok : A → Result A
  err : Error → Result A

infixl 5 ◌>>=◌
abbrev pub ◌>>=◌ {ℓ κ} : {A : Type ℓ} {B : Type κ} → Result A → (A → Result B) → Result B
ok a >>= f = f a
err e >>= f = err e

pub ok_parts {ℓ κ} :
    {A : Type ℓ} {B : Type κ} (first : Result A) (next : A → Result B) {end : B}
    → (first >>= next) ≡ ok end
    → (value : A) × (first ≡ ok value) × (next value ≡ ok end)
ok_parts (ok value) next made = (value, refl, made)
ok_parts (err e) next made = cc

pub ok-inj {ℓ} : {A : Type ℓ} {a b : A} → ok a ≡ ok b → a ≡ b
ok-inj h = cc

-- What follows may be replaced where it is the same for what the first step returns.
pub bind-eq {ℓ κ} :
    {A : Type ℓ} {B : Type κ} (m : Result A) (f g : A → Result B)
    → ((a : A) → m ≡ ok a → f a ≡ g a)
    → (m >>= f) ≡ (m >>= g)
bind-eq (ok a) f g same = same a refl
bind-eq (err e) f g same = refl

abbrev pub is_error {ℓ} : {A : Type ℓ} → Result A → Bool
is_error (ok a) = false
is_error (err e) = true

-- What follows throws, or not, alike for all that the first step returns.
pub is_error-bind :
    {A B : Type 0} (m : Result A) (f : A → Result B) {b : Bool}
    → ((a : A) → m ≡ ok a → is_error (f a) ≡ b)
    → is_error (m >>= f) ≡ (is_error m || b)
is_error-bind (ok a) f same = same a refl
is_error-bind (err e) f same = refl

-- A first step that returns.
pub is_error-after :
    {A B : Type 0} (m : Result A) (f : A → Result B) {b : Bool}
    → is_error m ≡ false
    → ((a : A) → is_error (f a) ≡ b)
    → is_error (m >>= f) ≡ b
is_error-after m f returns same = is_error-bind m f (λ a e. same a) ∙ rw returns refl

pub returns : {A : Type 0} {m : Result A} → is_error m ≡ false → (a : A) × (m ≡ ok a)
returns {m = ok a} e = (a, refl)
returns {m = err x} e = cc
