-- ===== src/Block/Tally.antt =====
-- src/block.rs, the symbol loop of `decode_block_common`: `c` counts the bytes of `tt`, which stays
-- within the block size.
use native.Mathlib.Nat.{mod-eq_of_lt}
use lbzip2_rs.Prelude.{
  OnOk, ℕ, zero, suc, ◌+◌, ◌-◌, ◌*◌, ◌%◌, ◌^◌, ◌≤◌, ◌<◌, ◌≡◌, ◌∙◌, arith, ℕ_discrete, Bool-cases,
  inl, inr, List, [], ◌∷◌, ◌++◌, length, length-append, length-replicate, length-set, get_or, set,
  replicate, take, drop, Result, ok, err, panic, ltb, leb, leb→lt, ltb→le, ◌==◌, if◌then◌else◌,
}
use lbzip2_rs.BitStream.{IsBytes, take-IsBytes, drop-IsBytes, get_or-IsBytes}
use lbzip2_rs.Mtf
use lbzip2_rs.Mtf.Front.{decode_lem, length-without}
use lbzip2_rs.Bwt.Buckets.{count, IsHistogram}
use lbzip2_rs.Bwt.Links.{get_or-set_self, get_or-set_ne}
use lbzip2_rs.Block.Header.{max_blocksize_limit}
use lbzip2_rs.Block.Symbols.{
  State, Flow, next, done, run_symbol, flush_run, push_symbol, and_then, step_symbol,
}

pub append-IsBytes : (xs ys : List ℕ) → IsBytes xs → IsBytes ys → IsBytes (xs ++ ys)
append-IsBytes [] ys h g = g
append-IsBytes (x ∷ xs) ys h g = (h.0, append-IsBytes xs ys h.1 g)

pub replicate-IsBytes : (n b : ℕ) → b < 256 → IsBytes (replicate n b)
replicate-IsBytes zero b lt = tt
replicate-IsBytes (suc n) b lt = (lt, replicate-IsBytes n b lt)

count-append : (b : ℕ) (xs ys : List ℕ) → count b (xs ++ ys) ≡ count b xs + count b ys
unfolding count
count-append b [] ys = omega arith
count-append b (x ∷ xs) ys = ground (arith, count-append b xs ys)

count-replicate : (b n x : ℕ) → count b (replicate n x) ≡ (if x == b then n else 0)
unfolding count
count-replicate b zero x = ground arith
count-replicate b (suc n) x = ground (arith, count-replicate b n x)

count-length : (b : ℕ) (xs : List ℕ) → count b xs ≤ length xs
unfolding count
count-length b [] = omega arith
count-length b (x ∷ xs) = ground (arith, count-length b xs)

-- A run of a byte, counted.
IsHistogram-run :
    (xs c : List ℕ) (n b : ℕ)
    → IsHistogram xs c
    → b < 256
    → length xs + n < 2 ^ 32
    → IsHistogram (xs ++ replicate n b) (set c b ((get_or c b 0 + n) % 2 ^ 32))
IsHistogram-run xs c n b h lt small =
    let total : (get_or c b 0 + n) % 2 ^ 32 ≡ get_or c b 0 + n =
      mod-eq_of_lt (omega (arith, h.counts b lt, count-length b xs)) in
    rw total (record {
      size = length-set c b (get_or c b 0 + n) ∙ h.size;
      counts = λ d below. elim (ℕ_discrete b d) [
        | yes same ↦
            rw (← same, get_or-set_self c b (get_or c b 0 + n) (omega (arith, h.size)))
              (ground
                (arith, h.counts b lt, count-append b xs (replicate n b), count-replicate b n b))
        | no other ↦ rw (get_or-set_ne c b d (get_or c b 0 + n) other) (
            ground
              (arith, h.counts d below, count-append d xs (replicate n b), count-replicate d n b))
      ];
    })

-- What holds of the loop's variables.
pub record IsTallied (max_blocksize : ℕ) (s : State) : Type 0 where
  pub bytes_ok : IsBytes s.tt_
  pub within : length s.tt_ ≤ max_blocksize
  pub tally : IsHistogram s.tt_ s.c
  pub symbols_ok : IsBytes s.mtf
  pub symbols_all : length s.mtf ≡ 256

unfoldable pub flow_state : Flow → State
flow_state (next s) = s
flow_state (done s) = s

and_then-OnOk :
    (P : State → Type 0) (Q : Flow → Type 0) (r : Result State) (f : State → Result Flow)
    → OnOk P r
    → ((s : State) → P s → OnOk Q (f s))
    → OnOk Q (and_then r f)
and_then-OnOk P Q (ok s) f h g = g s h
and_then-OnOk P Q (err e) f h g = tt
and_then-OnOk P Q panic f h g = tt

module _ (max_blocksize : ℕ) (small : max_blocksize < 2 ^ 32) where
  run_symbol-IsTallied :
      (code : ℕ) (s : State)
      → IsTallied max_blocksize s
      → OnOk (IsTallied max_blocksize) (run_symbol code s)
  unfolding run_symbol
  run_symbol-IsTallied code s h =
      let power : ℕ = if s.repeat == 0 then 1 else s.repeat_power in
      let repeat : ℕ = (s.repeat + power * 2 ^ code % 2 ^ 32) % 2 ^ 32 in
      elim (Bool-cases (ltb max_blocksize_limit repeat)) [
        | inl large ↦ rw large tt
        | inr fits ↦ rw fits (record {
          bytes_ok = h.bytes_ok;
          within = h.within;
          tally = h.tally;
          symbols_ok = h.symbols_ok;
          symbols_all = h.symbols_all;
        })
      ]

  flush_run-IsTallied :
      (s : State)
      → IsTallied max_blocksize s
      → OnOk (IsTallied max_blocksize) (flush_run max_blocksize s)
  unfolding flush_run
  flush_run-IsTallied s h =
      let b : ℕ = Mtf.first s.mtf in
      let b_lt : b < 256 = unfold Mtf.first in get_or-IsBytes s.mtf 0 h.symbols_ok in
      elim (Bool-cases (ltb 0 s.repeat)) [
        | inr none_pending ↦ rw none_pending h
        | inl pending ↦
            rw pending (elim (Bool-cases (ltb max_blocksize (length s.tt_ + s.repeat))) [
              | inl over ↦ rw over tt
              | inr fits ↦
                  let room : length s.tt_ + s.repeat ≤ max_blocksize =
                    ltb→le max_blocksize (length s.tt_ + s.repeat) fits in
                  rw fits (record {
                    bytes_ok =
                        append-IsBytes s.tt_ (replicate s.repeat b) h.bytes_ok
                          (replicate-IsBytes s.repeat b b_lt);
                    within = omega (
                      arith,
                      length-append s.tt_ (replicate s.repeat b),
                      length-replicate s.repeat b,
                    );
                    tally = IsHistogram-run s.tt_ s.c s.repeat b h.tally b_lt (omega arith);
                    symbols_ok = h.symbols_ok;
                    symbols_all = h.symbols_all;
                  })
            ])
      ]

  push_symbol-IsTallied :
      (code : ℕ) (s : State)
      → IsTallied max_blocksize s
      → OnOk (IsTallied max_blocksize) (push_symbol max_blocksize code s)
  unfolding push_symbol
  push_symbol-IsTallied code s h =
      let n : ℕ = (code - 1) % 2 ^ 8 in
      let n_lt : n < length s.mtf = omega (arith, h.symbols_all) in
      let b : ℕ = get_or s.mtf n 0 in
      let b_lt : b < 256 = get_or-IsBytes s.mtf n h.symbols_ok in
      elim (Bool-cases (leb max_blocksize (length s.tt_))) [
        | inl full ↦ rw full tt
        | inr room ↦
            let lt : length s.tt_ < max_blocksize = leb→lt max_blocksize (length s.tt_) room in
            rw (room, decode_lem n s.mtf n_lt)
              (record {
                bytes_ok = append-IsBytes s.tt_ (b ∷ []) h.bytes_ok (b_lt, tt);
                within = omega (arith, length-append s.tt_ (b ∷ []));
                tally = IsHistogram-run s.tt_ s.c 1 b h.tally b_lt (omega arith);
                symbols_ok = (
                  b_lt,
                  append-IsBytes (take n s.mtf) (drop (suc n) s.mtf)
                      (take-IsBytes n s.mtf h.symbols_ok) (drop-IsBytes (suc n) s.mtf h.symbols_ok),
                );
                symbols_all = omega (arith, length-without n s.mtf n_lt, h.symbols_all);
              })
      ]

  pub step_symbol-IsTallied :
      (eob_symbol code : ℕ) (s : State)
      → IsTallied max_blocksize s
      → OnOk
          (λ flow. IsTallied max_blocksize (flow_state flow))
          (step_symbol max_blocksize eob_symbol code s)
  unfolding step_symbol flow_state
  step_symbol-IsTallied eob_symbol code s h =
      let Good : State → Type 0 = IsTallied max_blocksize in
      let After : Flow → Type 0 = λ flow. IsTallied max_blocksize (flow_state flow) in
      elim (Bool-cases (ltb code 2)) [
        | inl run ↦ rw run (
            and_then-OnOk Good After (run_symbol code s) _ (run_symbol-IsTallied code s h)
              (λ s' h'. h'))
        | inr other ↦ rw other (
            and_then-OnOk Good After (flush_run max_blocksize s) _ (flush_run-IsTallied s h)
              λ s' h'. elim (Bool-cases (code == eob_symbol)) [
                | inl end ↦ rw end h'
                | inr symbol ↦ rw symbol (
                    and_then-OnOk Good After (push_symbol max_blocksize code s') _
                      (push_symbol-IsTallied code s' h') (λ s'' h''. h''))
              ])
      ]
