-- ===== src/Block/Reading.antt =====
-- A chain of reads that can fail: the reader is passed on, and an error or a panic ends the chain.
use lbzip2_rs.Prelude.{Bool, true, false, Option, none, some, String, Result, ok, err, panic}
use lbzip2_rs.BitReader.Defs.{BitReader}

abbrev pub M : Type 0 → Type 0
M A = BitReader → Result (A × BitReader)

infixl 5 ◌>>=◌ ◌>>◌
abbrev pub bind_result :
    {A B : Type 0} → Result (A × BitReader) → (A → M B) → Result (B × BitReader)
bind_result (ok (a, r)) f = f a r
bind_result (err e) f = err e
bind_result panic f = panic

abbrev pub ◌>>=◌ : {A B : Type 0} → M A → (A → M B) → M B
◌>>=◌ m f r = bind_result (m r) f

abbrev pub ◌>>◌ : {B : Type 0} → M (Unit {0}) → M B → M B
m >> k = m >>= λ _. k

abbrev pub return : {A : Type 0} → A → M A
return a r = ok (a, r)

-- A loop out of its fuel.
abbrev pub stuck : {A : Type 0} → M A
stuck r = panic

abbrev pub fail : {A : Type 0} → String → M A
fail e r = err e

-- `return Err(e)` under a condition.
abbrev pub fail_when : Bool → String → M (Unit {0})
fail_when true e r = err e
fail_when false e r = ok (tt, r)

-- A step that does not read.
abbrev pub lift : {A : Type 0} → Result A → M A
lift (ok a) r = ok (a, r)
lift (err e) r = err e
lift panic r = panic

-- `.ok_or(BlockError(e))?`.
abbrev pub or_err : {A : Type 0} → String → Option A × BitReader → Result (A × BitReader)
or_err e (none, r) = err e
or_err e (some a, r) = ok (a, r)

abbrev pub ok_or : {A : Type 0} → (BitReader → Option A × BitReader) → String → M A
ok_or read e r = or_err e (read r)
