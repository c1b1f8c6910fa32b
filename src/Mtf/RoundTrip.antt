-- ===== src/Mtf/RoundTrip.antt =====
-- src/mtf.rs: a run of `decode` undoes the move-to-front encoding.
use mathlib.Core.Path.{subst}
use lbzip2_rs.Prelude.{
  ℕ_discrete, ℕ, suc, ◌<◌, ◌≡◌, ◌≢◌, refl, sym, ap, ◌∙◌, arith, List, [], ◌∷◌, length, get_or, ◌==◌,
  if◌then◌else◌, All, ==_iff, Bool-cases, inl, inr,
}
use lbzip2_rs.Mtf.{decode}
use lbzip2_rs.Mtf.Front.{without, decode_lem}

-- The specification: where a symbol stands, its length of the list if nowhere.
unfoldable pub index_of : ℕ → List ℕ → ℕ
index_of x [] = 0
index_of x (y ∷ ys) = if y == x then 0 else suc (index_of x ys)

pub encode_all : List ℕ → List ℕ → List ℕ
encode_all [] symbols = []
encode_all (x ∷ xs) symbols =
    let n = index_of x symbols in n ∷ encode_all xs (x ∷ without n symbols)

-- The decoder on a sequence of positions.
unfoldable pub decode_all : List ℕ → List ℕ → List ℕ
unfolding decode
decode_all [] symbols = []
decode_all (n ∷ ns) symbols = let (b, symbols') = decode n symbols in b ∷ decode_all ns symbols'

-- The symbol stands in the list.
abbrev pub Has : List ℕ → ℕ → Type 0
Has symbols x = index_of x symbols < length symbols

get_or-index_of : (x : ℕ) (xs : List ℕ) → Has xs x → get_or xs (index_of x xs) 0 ≡ x
unfolding index_of
get_or-index_of x [] h = absurd (omega arith)
get_or-index_of x (y ∷ ys) h = elim (Bool-cases (y == x)) [
  | inl same ↦ rw same ((==_iff y x).0 same)
  | inr other ↦ rw other (get_or-index_of x ys (ground arith))
]

Has-cons : (y x : ℕ) (xs : List ℕ) → (x ≡ y → ⊥) → Has (y ∷ xs) x → Has xs x
unfolding index_of
Has-cons y x xs ne h = ground arith

Has-tail : (y x : ℕ) (xs : List ℕ) → Has xs x → Has (y ∷ xs) x
unfolding index_of
Has-tail y x xs h = ground arith

Has-head : (x : ℕ) (xs : List ℕ) → Has (x ∷ xs) x
unfolding index_of
Has-head x xs = ground arith

without_head : (x z : ℕ) (zs : List ℕ) → z ≡ x → without (index_of x (z ∷ zs)) (z ∷ zs) ≡ zs
unfolding index_of
without_head x z zs e = rw ((==_iff z x).1 e)

without_tail :
    (x z : ℕ) (zs : List ℕ)
    → z ≢ x
    → without (index_of x (z ∷ zs)) (z ∷ zs) ≡ z ∷ without (index_of x zs) zs
unfolding index_of
without_tail x z zs ne = elim (Bool-cases (z == x)) [
  | inl same ↦ absurd (ne ((==_iff z x).0 same))
  | inr other ↦ rw other
]

Has-front : (y x : ℕ) (xs : List ℕ) → Has xs y → Has (x ∷ without (index_of x xs) xs) y
Has-front y x [] h = absurd (omega arith)
Has-front y x (z ∷ zs) h = elim (ℕ_discrete x y) [
  | yes same ↦ subst (λ t. Has (x ∷ without (index_of x (z ∷ zs)) (z ∷ zs)) t) same (Has-head x _)
  | no differs ↦ elim (ℕ_discrete z x) [
    | yes head ↦
        rw (without_head x z zs head)
          (Has-tail x y zs (Has-cons z y zs (λ e. differs (sym (e ∙ head))) h))
    | no tail ↦ rw (without_tail x z zs tail) (elim (ℕ_discrete z y) [
      | yes here ↦
          Has-tail x y (z ∷ without (index_of x zs) zs)
            (subst (λ t. Has (z ∷ without (index_of x zs) zs) t) here (Has-head z _))
      | no later ↦ Has-tail x y (z ∷ without (index_of x zs) zs) (
          Has-tail z y (without (index_of x zs) zs) (
            Has-cons x y (without (index_of x zs) zs) (λ e. differs (sym e))
              (Has-front y x zs (Has-cons z y zs (λ e. later (sym e)) h))))
    ])
  ]
]

Has-front-All :
    (x : ℕ) (xs data_ : List ℕ)
    → All (Has xs) data_
    → All (Has (x ∷ without (index_of x xs) xs)) data_
Has-front-All x xs [] h = tt
Has-front-All x xs (y ∷ ys) h = (Has-front y x xs h.0, Has-front-All x xs ys h.1)

-- For a text whose symbols all stand in the decoder's list, decoding the positions that the
-- encoder gives for it gives the text back.
pub decode_all-encode_all :
    (text symbols : List ℕ)
    → All (Has symbols) text
    → decode_all (encode_all text symbols) symbols ≡ text
unfolding decode_all encode_all
decode_all-encode_all [] symbols h = refl
decode_all-encode_all (x ∷ xs) symbols h =
    rw (decode_lem (index_of x symbols) symbols h.0, get_or-index_of x symbols h.0)
      (ap (λ t. x ∷ t)
        (decode_all-encode_all xs (x ∷ without (index_of x symbols) symbols)
          (Has-front-All x symbols xs h.1)))
