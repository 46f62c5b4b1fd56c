-- ===== src/Common/Errors.antt =====
-- The kernel's convention for results: a value that is not negative, or an error number.
use mathlib.Core.Path.{◌≡◌, refl}
use mathlib.Core.Logic.{◌⊎◌, inl, inr}
use mathlib.Core.Bool.{Bool, true, false}
use mathlib.Core.Option.{Option, none, some}

pub data Errno : Type 0 where
  eagain ebadfd ebusy econnrefused einval eio eisconn enodev enomem enospc enosys enxio etimedout
        erestartsys :
      Errno

abbrev pub is_eagain : Errno → Bool
is_eagain Errno.eagain = true
is_eagain _ = false

pub data Result {ℓ} (A : Type ℓ) : Type ℓ where
  ok : A → Result A
  err : Errno → Result A

-- A memory access that may fault, then the rest.
infixl 5 ◌>>=◌
abbrev pub ◌>>=◌ {ℓ κ} : {A : Type ℓ} {B : Type κ} → Option A → (A → Option B) → Option B
none >>= f = none
some a >>= f = f a

pub >>=-some {ℓ κ} :
    {A : Type ℓ} {B : Type κ} (m : Option A) (f : A → Option B) {a : A} {b : Option B}
    → m ≡ some a
    → f a ≡ b
    → (m >>= f) ≡ b
>>=-some none f e g = absurd cc
>>=-some (some c) f {a = a} {b = b} e g = let same : c ≡ a = cc in rw same g

pub >>=-assoc {ℓ κ μ} :
    {A : Type ℓ} {B : Type κ} {C : Type μ} (m : Option A) (f : A → Option B) (g : B → Option C)
    → (m >>= f >>= g) ≡ (m >>= λ a. f a >>= g)
>>=-assoc none f g = refl
>>=-assoc (some a) f g = refl

pub >>=-eq-some {ℓ κ} :
    {A : Type ℓ} {B : Type κ} (m : Option A) (f : A → Option B) {b : B}
    → (m >>= f) ≡ some b
    → (a : A) × (m ≡ some a) × (f a ≡ some b)
>>=-eq-some none f h = cc
>>=-eq-some (some a) f h = (a, refl, h)

pub Result-cases {ℓ} :
    {A : Type ℓ} (r : Result A) → ((a : A) × (r ≡ ok a)) ⊎ ((e : Errno) × (r ≡ err e))
Result-cases (ok a) = inl (a, refl)
Result-cases (err e) = inr (e, refl)
