-- ===== src/Prelude/Outcome.antt =====
-- What a fallible function of the library returns. `err` holds the text of a `BlockError`;
-- `panic` is a Rust panic (an index out of range, a failed `assert!`), and also a read or write
-- through a raw pointer that is out of range.
use Prim.Native.String.{String}
use mathlib.Core.Path.{◌≡◌, refl}
use mathlib.Core.Option.{Option, none, some}
use mathlib.Core.Bool.{Bool, true, false}

abbrev pub BlockError : Type 0
BlockError = String

pub data Result {ℓ} (T : Type ℓ) : Type ℓ where
  panic : Result T
  err : BlockError → Result T
  ok : T → Result T

-- `?`, and what follows it.
abbrev pub ◌>>=◌ {ℓ₁ ℓ₂} : {T : Type ℓ₁} {U : Type ℓ₂} → Result T → (T → Result U) → Result U
◌>>=◌ panic next = panic
◌>>=◌ (err reason) next = err reason
◌>>=◌ (ok value) next = next value

-- Indexing, which panics out of range.
abbrev pub index {ℓ} : {T : Type ℓ} → Option T → Result T
index (some value) = ok value
index none = panic

-- An early `return Err(reason)` under a condition.
abbrev pub fail_if : Bool → BlockError → Result (Unit {0})
fail_if early reason = elim early [ true ↦ err reason | false ↦ ok tt ]

abbrev pub ◌>>◌ {ℓ} : {U : Type ℓ} → Result (Unit {0}) → Result U → Result U
◌>>◌ panic next = panic
◌>>◌ (err reason) next = err reason
◌>>◌ (ok done) next = next

infixl 5 ◌>>=◌ ◌>>◌
-- A chain that succeeds has a first part that does.
pub >>=-eq-ok {ℓ₁ ℓ₂} :
    {T : Type ℓ₁} {U : Type ℓ₂} (first : Result T) (next : T → Result U) {u : U}
    → (first >>= next) ≡ ok u
    → (value : T) × (first ≡ ok value) × (next value ≡ ok u)
>>=-eq-ok panic next e = cc
>>=-eq-ok (err reason) next e = cc
>>=-eq-ok (ok value) next e = (value, refl, e)

-- A statement about the value of a success.
abbrev pub OnOk : {A : Type 0} → (A → Type 0) → Result A → Type 0
OnOk P panic = Unit
OnOk P (err reason) = Unit
OnOk P (ok value) = P value

pub >>=-OnOk :
    {A B : Type 0} (P : A → Type 0) (Q : B → Type 0) (first : Result A) (next : A → Result B)
    → OnOk P first
    → ((value : A) → P value → OnOk Q (next value))
    → OnOk Q (first >>= next)
>>=-OnOk P Q panic next h g = tt
>>=-OnOk P Q (err reason) next h g = tt
>>=-OnOk P Q (ok value) next h g = g value h

-- The trivial statement.
abbrev pub Anything : {A : Type 0} → A → Type 0
Anything value = Unit

pub OnOk-Anything : {A : Type 0} (outcome : Result A) → OnOk Anything outcome
OnOk-Anything panic = tt
OnOk-Anything (err reason) = tt
OnOk-Anything (ok value) = tt

-- A branch on a test, and on an option.
pub OnOk-test :
    {A : Type 0} (P : A → Type 0) (test : Bool) (yes_ no_ : Result A)
    → OnOk P yes_
    → OnOk P no_
    → (let chosen : Result A = elim test [ true ↦ yes_ | false ↦ no_ ] in OnOk P chosen)
OnOk-test P true yes_ no_ h g = h
OnOk-test P false yes_ no_ h g = g

pub OnOk-option :
    {A B : Type 0} (P : B → Type 0) (o : Option A) (found : A → Result B) (missing : Result B)
    → ((a : A) → OnOk P (found a))
    → OnOk P missing
    → (let chosen : Result B = elim o [ some a ↦ found a | none ↦ missing ] in OnOk P chosen)
OnOk-option P (some a) found missing h g = h a
OnOk-option P none found missing h g = g

-- A check before the rest.
pub >>-OnOk :
    {A : Type 0} (P : A → Type 0) (check : Result (Unit {0})) (rest : Result A)
    → OnOk P rest
    → OnOk P (check >> rest)
>>-OnOk P panic rest h = tt
>>-OnOk P (err reason) rest h = tt
>>-OnOk P (ok done) rest h = h
