-- ===== src/Block/Runs/RoundTrip.antt =====
-- src/block.rs: the final run decoding undoes bzip2's first run encoding, in which four equal
-- bytes are followed by a count of further ones, up to 255.
use mathlib.Core.List.{append_assoc, append-nil}
use lbzip2_rs.Prelude.{
  ℕ, zero, suc, ◌+◌, ◌-◌, ◌/◌, ◌%◌, ◌^◌, ◌≤◌, ◌<◌, ◌≡◌, ◌≢◌, refl, ap, ◌∙◌, ◌⊎◌, inl, inr, arith,
  true, false, ◌&&◌, Bool-cases, List, [], ◌∷◌, ◌++◌, length, get_elem?, get_elem?-eq-get_or,
  replicate, some, ok, ltb, ◌==◌, if◌then◌else◌,
}
use lbzip2_rs.Block.Runs.{RunState, start, write_byte, rle2_decode_alloc}
use lbzip2_rs.Block.Runs.Written.{written_loop, written}
use lbzip2_rs.Block.Runs.Alloc.{written-rle2_decode_alloc}

-- The specification: a run of `n` bytes `b`, for `n` up to 259.
unfoldable pub encode_run : ℕ → ℕ → List ℕ
encode_run b n = if ltb n 4 then replicate n b else b ∷ b ∷ b ∷ b ∷ (n - 4) ∷ []

-- The rest of the text, behind `n` bytes `b` that are not written yet.
unfoldable pub encode_from : ℕ → ℕ → List ℕ → List ℕ
encode_from b n [] = encode_run b n
encode_from b n (x ∷ xs) = elim (x == b && ltb n 259) [
  | true ↦ encode_from b (n + 1) xs
  | false ↦ encode_run b n ++ encode_from x 1 xs
]

unfoldable pub encode : List ℕ → List ℕ
encode [] = []
encode (x ∷ xs) = encode_from x 1 xs

-- The loop's body over a sequence of bytes.
unfoldable pub push_all : RunState → List ℕ → RunState
push_all s [] = s
push_all s (b ∷ bs) = push_all (write_byte s b) bs

pub push_all-append :
    (s : RunState) (xs ys : List ℕ) → push_all s (xs ++ ys) ≡ push_all (push_all s xs) ys
unfolding push_all
push_all-append s [] ys = refl
push_all-append s (x ∷ xs) ys = push_all-append (write_byte s x) xs ys

-- The next byte `b` begins a run.
abbrev pub IsReady : RunState → ℕ → Type 0
IsReady s b = (s.byte_repeats ≢ 3) × ((s.has_last ≡ false) ⊎ (s.last_byte ≢ b))

-- Inside a run of `b`, after `k + 1` bytes of it.
abbrev inside : List ℕ → ℕ → ℕ → RunState
inside out b k = record { output = out; last_byte = b; has_last = true; byte_repeats = k }

push_first : (s : RunState) (b : ℕ) → IsReady s b → write_byte s b ≡ inside (s.output ++ b ∷ []) b 0
unfolding write_byte
push_first s b (open_, fresh) = ground arith

push_again :
    (out : List ℕ) (b k : ℕ)
    → k < 3
    → write_byte (inside out b k) b ≡ inside (out ++ b ∷ []) b (k + 1)
unfolding write_byte
push_again out b k h = ground arith

push_count :
    (out : List ℕ) (b n : ℕ)
    → write_byte (inside out b 3) n
      ≡ record { output = out ++ replicate n b; last_byte = b; has_last = false; byte_repeats = 0 }
unfolding write_byte
push_count out b n = refl

-- A whole run: its bytes are written, and what may follow is ready.
pub record RunDone (s t : RunState) (b n : ℕ) : Type 0 where
  pub written : t.output ≡ s.output ++ replicate n b
  pub ready : (x : ℕ) → (x ≢ b) ⊎ (4 ≤ n) → IsReady t x

pub run-RunDone :
    (n : ℕ) (s : RunState) (b : ℕ)
    → 0 < n
    → IsReady s b
    → RunDone s (push_all s (encode_run b n)) b n
unfolding push_all encode_run
run-RunDone zero s b h r = absurd (omega arith)
run-RunDone (suc zero) s b h r =
    rw (push_first s b r) (record { written = refl; ready = λ x d. (ground arith, ground arith) })
run-RunDone (suc (suc zero)) s b h r =
    rw (push_first s b r, push_again (s.output ++ b ∷ []) b 0 (omega arith))
      (record {
        written = append_assoc s.output (b ∷ []) (b ∷ []);
        ready = λ x d. (ground arith, ground arith);
      })
run-RunDone (suc (suc (suc zero))) s b h r =
    rw
      (
        push_first s b r,
        push_again (s.output ++ b ∷ []) b 0 (omega arith),
        push_again ((s.output ++ b ∷ []) ++ b ∷ []) b 1 (omega arith),
      )
      (record { written = simp append_assoc; ready = λ x d. (ground arith, ground arith) })
run-RunDone (suc (suc (suc (suc n)))) s b h r =
    let long : ltb (suc (suc (suc (suc n)))) 4 ≡ false = ground arith in
    let count : suc (suc (suc (suc n))) - 4 ≡ n = omega arith in
    rw
      (
        long,
        count,
        push_first s b r,
        push_again (s.output ++ b ∷ []) b 0 (omega arith),
        push_again ((s.output ++ b ∷ []) ++ b ∷ []) b 1 (omega arith),
        push_again (((s.output ++ b ∷ []) ++ b ∷ []) ++ b ∷ []) b 2 (omega arith),
        push_count ((((s.output ++ b ∷ []) ++ b ∷ []) ++ b ∷ []) ++ b ∷ []) b n,
      )
      (record { written = simp append_assoc; ready = λ x d. (ground arith, inl refl) })

replicate_snoc : (n b : ℕ) (xs : List ℕ) → replicate (n + 1) b ++ xs ≡ replicate n b ++ (b ∷ xs)
replicate_snoc zero b xs = refl
replicate_snoc (suc n) b xs =
    let e : suc n + 1 ≡ suc (n + 1) = omega arith in rw e (ap (λ t. b ∷ t) (replicate_snoc n b xs))

pub encode_from_more :
    (x b n : ℕ) (xs : List ℕ)
    → (x == b && ltb n 259) ≡ true
    → encode_from b n (x ∷ xs) ≡ encode_from b (n + 1) xs
unfolding encode_from
encode_from_more x b n xs e = rw (e, encode_from)

pub encode_from_new :
    (x b n : ℕ) (xs : List ℕ)
    → (x == b && ltb n 259) ≡ false
    → encode_from b n (x ∷ xs) ≡ encode_run b n ++ encode_from x 1 xs
unfolding encode_from
encode_from_new x b n xs e = rw (e, encode_from)

encode_from-output :
    (xs : List ℕ) (n b : ℕ) (s : RunState)
    → 0 < n
    → n ≤ 259
    → IsReady s b
    → (push_all s (encode_from b n xs)).output ≡ s.output ++ (replicate n b ++ xs)
unfolding encode_from
encode_from-output [] n b s pos le r =
    let run = run-RunDone n s b pos r in rw append-nil run.written
encode_from-output (x ∷ xs) n b s pos le r = elim (Bool-cases (x == b && ltb n 259)) [
  | inl more ↦
      let same : x ≡ b = ground arith in
      rw (encode_from_more x b n xs more, same, ← replicate_snoc n b xs)
        (encode_from-output xs (n + 1) b s (omega arith) (ground arith) r)
  | inr new ↦
      let run = run-RunDone n s b pos r in
      let t : RunState = push_all s (encode_run b n) in
      rw (encode_from_new x b n xs new, push_all-append s (encode_run b n) (encode_from x 1 xs))
        (encode_from-output xs 1 x t (omega arith) (omega arith) (run.ready x (ground arith))
          ∙ ap (λ o. o ++ (x ∷ xs)) run.written
          ∙ append_assoc s.output (replicate n b) (x ∷ xs))
]

pub push_all-encode : (text : List ℕ) → (push_all start (encode text)).output ≡ text
unfolding encode push_all
push_all-encode [] = refl
push_all-encode (x ∷ xs) =
    encode_from-output xs 1 x start (omega arith) (omega arith) (ground arith, inl refl)

-- The chain of indices from `t_pos` on spells the bytes, and each index is within `tt_`.
abbrev pub Chain : List ℕ → ℕ → List ℕ → Type 0
Chain tt_ t_pos [] = Unit
Chain tt_ t_pos (b ∷ bs) =
    (entry : ℕ) × (get_elem? tt_ t_pos ≡ some entry)
    × (entry % 2 ^ 8 ≡ b)
    × (entry / 2 ^ 8 < length tt_)
    × Chain tt_ (entry / 2 ^ 8) bs

pub written_loop-Chain :
    (tt_ bs : List ℕ) (t_pos : ℕ) (s : RunState)
    → Chain tt_ t_pos bs
    → written_loop (length bs) tt_ t_pos s ≡ ok (push_all s bs).output
unfolding written_loop push_all
written_loop-Chain tt_ [] t_pos s c = refl
written_loop-Chain tt_ (b ∷ bs) t_pos s (entry, here, low, inside_, rest) =
    rw (here, get_elem?-eq-get_or tt_ (entry / 2 ^ 8) 0 inside_, low)
      (written_loop-Chain tt_ bs (entry / 2 ^ 8) (write_byte s b) rest)

pub written-encode :
    (text tt_ : List ℕ) (t_pos : ℕ)
    → Chain tt_ t_pos (encode text)
    → length tt_ ≡ length (encode text)
    → written tt_ t_pos ≡ ok text
unfolding written
written-encode text tt_ t_pos c e =
    rw (e, written_loop-Chain tt_ (encode text) t_pos start c) (ap ok (push_all-encode text))

-- If the chain of indices from `t_pos` spells the run encoding of a text, `tt_` has as many entries
-- as the encoding has bytes, and the text is at most a quarter longer than its encoding, then
-- `rle2_decode_alloc` gives the text.
pub rle2_decode_alloc-encode :
    (text tt_ : List ℕ) (t_pos : ℕ)
    → Chain tt_ t_pos (encode text)
    → length tt_ ≡ length (encode text)
    → length text ≤ length tt_ + length tt_ / 4
    → rle2_decode_alloc tt_ t_pos ≡ ok text
rle2_decode_alloc-encode text tt_ t_pos c e room =
    written-rle2_decode_alloc tt_ t_pos text (written-encode text tt_ t_pos c e) room
