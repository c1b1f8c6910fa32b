-- ===== src/Block/Steady.antt =====
-- src/block.rs: a chain of reads gives the same outcome for any two readers at the same place, and
-- leaves both at one place, not before it. `Codes` is about the Huffman decoder, `Fields` about the
-- header, `Blocks` about the symbol loop and the whole block.
mod Codes
mod Fields
pub mod Blocks
use lbzip2_rs.Prelude.{
  ℕ, ◌+◌, ◌*◌, ◌-◌, ◌≤◌, ◌≡◌, refl, ap, arith, List, length, Bool, true, false, Bool-cases, inl,
  inr, Option, none, some, Result, ok, err, panic, String, leb, OnOk, Anything,
}
use mathlib.Core.Path.{subst}
use lbzip2_rs.BitReader.Defs.{BitReader, remaining}
use lbzip2_rs.BitStream.{cursor_read, cursor_next}
use lbzip2_rs.BitReader.Refill.{Represents}
use lbzip2_rs.BitReader.Refinement.{Reads}
use lbzip2_rs.Block.Reading.{
  M, bind_result, ◌>>=◌, ◌>>◌, return, fail, fail_when, lift, or_err, ok_or,
}

module _ (bytes : List ℕ) (pos : ℕ) where
  -- Two outcomes with one value, and readers at one place, from `pos` on.
  abbrev pub Agree :
      {A : Type 0} → (A → Type 0) → Result (A × BitReader) → Result (A × BitReader) → Type 0
  Agree P (ok (a, r)) (ok (b, r')) =
      (a ≡ b) × P a × (end_ : ℕ) × (pos ≤ end_) × Represents bytes r end_ × Represents bytes r' end_
  Agree P (err e) (err f) = e ≡ f
  Agree P panic panic = Unit
  Agree P _ _ = ⊥

-- A chain whose outcome depends only on the input and the place in it.
abbrev pub Steady : {A : Type 0} → (A → Type 0) → M A → Type 0
Steady P m =
    (bytes : List ℕ) (pos : ℕ) (r r' : BitReader)
    → Represents bytes r pos
    → Represents bytes r' pos
    → Agree bytes pos P (m r) (m r')

Agree-mono :
    {A : Type 0} (P : A → Type 0) (bytes : List ℕ) (p q : ℕ) (m n : Result (A × BitReader))
    → p ≤ q
    → Agree bytes q P m n
    → Agree bytes p P m n
Agree-mono P bytes p q (ok (a, r)) (ok (b, r')) le (e, h, end_, ge, rep, rep') =
    (e, h, end_, omega arith, rep, rep')
Agree-mono P bytes p q (err e) (err f) le h = h
Agree-mono P bytes p q panic panic le h = h
Agree-mono P bytes p q (ok _) (err _) le h = absurd h
Agree-mono P bytes p q (ok _) panic le h = absurd h
Agree-mono P bytes p q (err _) (ok _) le h = absurd h
Agree-mono P bytes p q (err _) panic le h = absurd h
Agree-mono P bytes p q panic (ok _) le h = absurd h
Agree-mono P bytes p q panic (err _) le h = absurd h

bind_result-Agree :
    {A B : Type 0} (P : A → Type 0) (Q : B → Type 0) (bytes : List ℕ) (pos : ℕ)
    (m n : Result (A × BitReader)) (f : A → M B)
    → Agree bytes pos P m n
    → ((a : A) → P a → Steady Q (f a))
    → Agree bytes pos Q (bind_result m f) (bind_result n f)
bind_result-Agree P Q bytes pos (ok (a, r)) (ok (b, r')) f (e, h, end_, ge, rep, rep') g =
    Agree-mono Q bytes pos end_ (f a r) (f b r') ge
      (subst (λ c. Agree bytes end_ Q (f a r) (f c r')) e (g a h bytes end_ r r' rep rep'))
bind_result-Agree P Q bytes pos (err e) (err f') f h g = h
bind_result-Agree P Q bytes pos panic panic f h g = h
bind_result-Agree P Q bytes pos (ok _) (err _) f h g = absurd h
bind_result-Agree P Q bytes pos (ok _) panic f h g = absurd h
bind_result-Agree P Q bytes pos (err _) (ok _) f h g = absurd h
bind_result-Agree P Q bytes pos (err _) panic f h g = absurd h
bind_result-Agree P Q bytes pos panic (ok _) f h g = absurd h
bind_result-Agree P Q bytes pos panic (err _) f h g = absurd h

pub >>=-Steady :
    {A B : Type 0} (P : A → Type 0) (Q : B → Type 0) (m : M A) (f : A → M B)
    → Steady P m
    → ((a : A) → P a → Steady Q (f a))
    → Steady Q (m >>= f)
>>=-Steady P Q m f h g bytes pos r r' rep rep' =
    bind_result-Agree P Q bytes pos (m r) (m r') f (h bytes pos r r' rep rep') g

pub return-Steady : {A : Type 0} (P : A → Type 0) (a : A) → P a → Steady P (return a)
return-Steady P a h bytes pos r r' rep rep' = (refl, h, pos, omega arith, rep, rep')

pub lift-Steady : {A : Type 0} (P : A → Type 0) (o : Result A) → OnOk P o → Steady P (lift o)
lift-Steady P (ok a) h bytes pos r r' rep rep' = (refl, h, pos, omega arith, rep, rep')
lift-Steady P (err e) h bytes pos r r' rep rep' = refl
lift-Steady P panic h bytes pos r r' rep rep' = tt

pub fail_when-Steady : (early : Bool) (e : String) → Steady Anything (fail_when early e)
fail_when-Steady true e bytes pos r r' rep rep' = refl
fail_when-Steady false e bytes pos r r' rep rep' = (refl, tt, pos, omega arith, rep, rep')

-- A choice on a Boolean.
pub test-Steady :
    {A : Type 0} (P : A → Type 0) (test : Bool) (yes_ no_ : M A)
    → Steady P yes_
    → Steady P no_
    → (let chosen : M A = elim test [ true ↦ yes_ | false ↦ no_ ] in Steady P chosen)
test-Steady P true yes_ no_ h g = h
test-Steady P false yes_ no_ h g = g

-- A choice on an option.
pub option-Steady :
    {A B : Type 0} (P : B → Type 0) (o : Option A) (found : A → M B) (missing : M B)
    → ((a : A) → o ≡ some a → Steady P (found a))
    → Steady P missing
    → (let chosen : M B = elim o [ some a ↦ found a | none ↦ missing ] in Steady P chosen)
option-Steady P (some a) found missing h g = h a refl
option-Steady P none found missing h g = g

pub stuck-Steady : {A : Type 0} (P : A → Type 0) → Steady P (λ r. panic)
stuck-Steady P bytes pos r r' rep rep' = tt

pub or_err-Agree :
    {A : Type 0} (bytes : List ℕ) (pos end_ : ℕ) (o : Option A) (r r' : BitReader) (e : String)
    → pos ≤ end_
    → Represents bytes r end_
    → Represents bytes r' end_
    → Agree bytes pos Anything (or_err e (o, r)) (or_err e (o, r'))
or_err-Agree bytes pos end_ none r r' e ge rep rep' = refl
or_err-Agree bytes pos end_ (some a) r r' e ge rep rep' = (refl, tt, end_, ge, rep, rep')

cursor_next-ge : (bytes : List ℕ) (pos n : ℕ) → pos ≤ cursor_next bytes pos n
cursor_next-ge bytes pos n = elim (Bool-cases (leb (pos + n) (8 * length bytes))) [
  | inl fits ↦ rw fits (omega arith)
  | inr out ↦ rw out (omega arith)
]

-- A read that is specified, with its error.
pub ok_or-Steady :
    {A : Type 0} (n : ℕ) (value : List ℕ → ℕ → Option A) (read : BitReader → Option A × BitReader)
    (e : String)
    → ((bytes : List ℕ) (r : BitReader) (pos : ℕ)
        → Represents bytes r pos
        → Reads bytes (cursor_next bytes pos n) (read r) (value bytes pos))
    → Steady Anything (ok_or read e)
ok_or-Steady n value read e reads bytes pos r r' rep rep' =
    let (s, here, at) = reads bytes r pos rep in
    let (s', here', at') = reads bytes r' pos rep' in
    rw (here, here')
      (or_err-Agree bytes pos (cursor_next bytes pos n) (value bytes pos) s s' e
        (cursor_next-ge bytes pos n) at at')

-- The bits left are those behind the place.
pub remaining-Represents :
    (bytes : List ℕ) (r : BitReader) (pos : ℕ)
    → Represents bytes r pos
    → remaining r ≡ 8 * length bytes - pos
remaining-Represents bytes r pos rep =
    let same : length r.bytes ≡ length bytes = ap length rep.same in
    omega (arith, rep.here, rep.within)
