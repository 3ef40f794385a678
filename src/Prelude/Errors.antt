-- ===== src/Prelude/Errors.antt =====
-- Python functions that may raise: a result is a value or the exception, and `do` blocks chain them.
use mathlib.Core.Path.{◌≡◌, refl}
use mathlib.Core.Logic.{◌⊎◌, inl, inr}
use mathlib.Core.Bool.{Bool, true, false}
use Prim.Native.String.{String}

-- The exception classes that the modelled code raises, with the message where it is a plain text.
pub data Exc : Type 0 where
  value_error key_error runtime_error file_exists_error file_not_found_error os_error
        overflow_error :
      String → Exc

-- str(exc)
abbrev pub exc_text : Exc → String
exc_text (value_error m) = m
exc_text (key_error m) = m
exc_text (runtime_error m) = m
exc_text (file_exists_error m) = m
exc_text (file_not_found_error m) = m
exc_text (os_error m) = m
exc_text (overflow_error m) = m

pub data Result {ℓ} (A : Type ℓ) : Type ℓ where
  ok : A → Result A
  raises : Exc → Result A

abbrev pub is_ok {ℓ} : {A : Type ℓ} → Result A → Bool
is_ok (ok value) = true
is_ok (raises exc) = false

infixl 5 ◌>>◌
module _ {ℓ κ} {A : Type ℓ} {B : Type κ} where
  infixl 5 ◌>>=◌
  -- An exception passes by what comes next.
  abbrev pub ◌>>=◌ : Result A → (A → Result B) → Result B
  raises exc >>= next = raises exc
  ok value >>= next = next value

  -- A sequence that returned, taken apart.
  pub >>=-eq-ok :
      (m : Result A) (next : A → Result B) {b : B}
      → (m >>= next) ≡ ok b
      → (a : A) × (m ≡ ok a) × (next a ≡ ok b)
  >>=-eq-ok (raises exc) next returned = cc
  >>=-eq-ok (ok value) next returned = (value, refl, returned)

-- `if not test: raise exc`
abbrev pub require : Bool → Exc → Result (Unit {0})
require test exc = elim test [ false ↦ raises exc | true ↦ ok tt ]

abbrev pub ◌>>◌ {κ} : {B : Type κ} → Result (Unit {0}) → Result B → Result B
check >> rest = check >>= λ _. rest

-- A check that was passed.
pub require-ok {κ} :
    {B : Type κ} (test : Bool) (exc : Exc) (next : Unit {0} → Result B) {b : B}
    → (require test exc >>= next) ≡ ok b
    → (test ≡ true) × (next tt ≡ ok b)
require-ok true exc next h = (refl, h)
require-ok false exc next h = cc

pub Result-cases {ℓ} :
    {A : Type ℓ} (m : Result A) → ((a : A) × (m ≡ ok a)) ⊎ ((e : Exc) × (m ≡ raises e))
Result-cases (ok a) = inl (a, refl)
Result-cases (raises e) = inr (e, refl)

-- The value of a call that returns.
abbrev pub get_ok {ℓ} : {A : Type ℓ} (m : Result A) → is_ok m ≡ true → A
get_ok (ok a) h = a
get_ok (raises e) h = cc

pub get_ok-eq {ℓ} : {A : Type ℓ} (m : Result A) (h : is_ok m ≡ true) → m ≡ ok (get_ok m h)
get_ok-eq (ok a) h = refl
get_ok-eq (raises e) h = cc

pub ok-injective {ℓ} : {A : Type ℓ} {a b : A} → ok a ≡ ok b → a ≡ b
ok-injective h = cc

-- What holds of a value that is returned holds of the value that the call returned.
pub ok-carry {ℓ κ} : {A : Type ℓ} (P : A → Type κ) {a b : A} → (e : ok a ≡ ok b) → P a → P b
ok-carry P {a} {b} e h = let same : a ≡ b = cc in rw (← same) h
