-- ===== src/Prelude/Result.antt =====
-- Go's `(value, error)`: a value, or an error and no value.
use huginn_messenger.Prelude.Tests.{if◌then◌else◌}
use mathlib.Core.Path.{◌≡◌, refl}
use mathlib.Core.Bool.{Bool, true, false}
use mathlib.Core.Option.{Option, none, some}

pub data Result {ℓ} (E : Type 0) (A : Type ℓ) : Type ℓ where
  err : E → Result E A
  ok : A → Result E A

module _ {ℓ κ} {E : Type 0} {A : Type ℓ} {B : Type κ} where
  infixl 5 ◌>>=◌
  -- What comes after `if err != nil { return …, err }`.
  abbrev pub ◌>>=◌ : Result E A → (A → Result E B) → Result E B
  err problem >>= next = err problem
  ok value >>= next = next value

  pub >>=-eq-ok :
      (first : Result E A) (next : A → Result E B) {result : B}
      → first >>= next ≡ ok result
      → (value : A) × (first ≡ ok value) × (next value ≡ ok result)
  >>=-eq-ok (err problem) next h = cc
  >>=-eq-ok (ok value) next h = (value, refl, h)

module _ {κ} {E : Type 0} {B : Type κ} where
  infixl 5 ◌>>◌
  abbrev pub ◌>>◌ : Result E (Unit {0}) → Result E B → Result E B
  check >> next = check >>= λ done. next

-- `if bad { return error }`.
abbrev pub fail_if : {E : Type 0} → Bool → E → Result E (Unit {0})
fail_if bad problem = if bad then err problem else ok tt

abbrev pub of_option {ℓ} : {E : Type 0} {A : Type ℓ} → E → Option A → Result E A
of_option problem none = err problem
of_option problem (some value) = ok value

-- A property of the value, if there is one.
abbrev pub IfOk {ℓ κ} : {E : Type 0} {A : Type ℓ} → (A → Type κ) → Result E A → Type κ
IfOk P (ok a) = P a
IfOk P (err e) = Unit

pub IfOk-at {ℓ κ} :
    {E : Type 0} {A : Type ℓ} (P : A → Type κ) (r : Result E A) {a : A} → IfOk P r → r ≡ ok a → P a
IfOk-at P r h e = rw e at h

pub IfOk-bind {ℓ κ μ ν} :
    {E : Type 0} {A : Type ℓ} {B : Type κ} (P : A → Type μ) (Q : B → Type ν) (m : Result E A)
    (f : A → Result E B)
    → IfOk P m
    → ((a : A) → P a → IfOk Q (f a))
    → IfOk Q (m >>= f)
IfOk-bind P Q (ok a) f h k = k a h
IfOk-bind P Q (err e) f h k = tt

pub IfOk-map {ℓ κ μ} :
    {E : Type 0} {A : Type ℓ} (P : A → Type κ) (Q : A → Type μ) (r : Result E A)
    → ((a : A) → P a → Q a)
    → IfOk P r
    → IfOk Q r
IfOk-map P Q (ok a) f h = f a h
IfOk-map P Q (err e) f h = tt

pub IfOk-both {ℓ κ μ} :
    {E : Type 0} {A : Type ℓ} (P : A → Type κ) (Q : A → Type μ) (r : Result E A)
    → IfOk P r
    → IfOk Q r
    → IfOk (λ a. P a × Q a) r
IfOk-both P Q (ok a) h k = (h, k)
IfOk-both P Q (err e) h k = tt

-- A check that comes first does not matter for what the value satisfies.
pub IfOk-after {ℓ κ ν} :
    {E : Type 0} {A : Type ℓ} {B : Type κ} (Q : B → Type ν) (m : Result E A) (f : A → Result E B)
    → ((a : A) → IfOk Q (f a))
    → IfOk Q (m >>= f)
IfOk-after Q (ok a) f k = k a
IfOk-after Q (err e) f k = tt

pub IfOk-if {ℓ κ} :
    {E : Type 0} {A : Type ℓ} (P : A → Type κ) (b : Bool) (x y : Result E A)
    → IfOk P x
    → IfOk P y
    → IfOk P (if b then x else y)
IfOk-if P true x y h k = h
IfOk-if P false x y h k = k

pub IfOk-bind_eq {ℓ κ ν} :
    {E : Type 0} {A : Type ℓ} {B : Type κ} (Q : B → Type ν) (m : Result E A) (f : A → Result E B)
    → ((a : A) → m ≡ ok a → IfOk Q (f a))
    → IfOk Q (m >>= f)
IfOk-bind_eq Q (ok a) f k = k a refl
IfOk-bind_eq Q (err e) f k = tt

pub ok_injective {ℓ} :
    {E : Type 0} {A : Type ℓ} (a b : A) → ◌≡◌ {A = Result E A} (ok a) (ok b) → a ≡ b
ok_injective a b h = cc
