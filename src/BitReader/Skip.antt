-- ===== src/BitReader/Skip.antt =====
-- src/bitreader.rs, `skip`.
use mathlib.Core.Path.{subst}
use lbzip2_rs.Prelude.{
  ◌≢◌, ℕ, zero, suc, ◌+◌, ◌-◌, ◌*◌, ◌≤◌, ◌<◌, min, ◌≡◌, arith, inl, inr, Bool-cases, List, length,
  ◌==◌, if◌then◌else◌, ==_iff, ==_false,
}
use lbzip2_rs.BitReader.Defs.{BitReader, refill, drop_bits, skip_loop, skip}
use lbzip2_rs.BitReader.Refill.{Represents, refill-Represents}
use lbzip2_rs.BitReader.Refinement.{drop_bits-Represents}

-- What a round does first: refill an empty buffer, which stays empty only at the end.
top_up : BitReader → BitReader
top_up r = if r.bits_in_buf == 0 then refill r else r

top_up-Represents :
    {bytes : List ℕ} {r : BitReader} {pos : ℕ}
    → Represents bytes r pos
    → Represents bytes (top_up r) pos
      × ((top_up r).bits_in_buf ≡ 0 → (top_up r).byte_pos ≡ length bytes)
unfolding top_up
top_up-Represents {bytes} {r} {pos} rep = elim (Bool-cases (r.bits_in_buf == 0)) [
  | inl low ↦
      let (rep', full) =
        refill-Represents {r = r} (omega (arith, (==_iff r.bits_in_buf 0).0 low)) rep in
      rw low (rep', λ e. ground arith)
  | inr high ↦ rw high (rep, λ e. absurd (==_false r.bits_in_buf 0 high e))
]

skip_loop-Represents :
    (bytes : List ℕ) (fuel n : ℕ) (r : BitReader) (pos : ℕ)
    → n ≤ fuel
    → n < 64
    → Represents bytes r pos
    → Represents bytes (skip_loop fuel n r) (min (pos + n) (8 * length bytes))
unfolding skip_loop top_up
skip_loop-Represents bytes zero n r pos le lt rep =
    let e : pos ≡ min (pos + n) (8 * length bytes) = omega (arith, rep.here, rep.within) in
    subst (Represents bytes r) e rep
skip_loop-Represents bytes (suc fuel) n r pos le lt rep =
    let (rep', empty) = top_up-Represents rep in
    elim (Bool-cases (n == 0)) [
      | inl done ↦
          let e : pos ≡ min (pos + n) (8 * length bytes) =
            omega (arith, rep.here, rep.within, (==_iff n 0).0 done) in
          rw done (subst (Represents bytes r) e rep)
      | inr more ↦ rw more (elim (Bool-cases ((top_up r).bits_in_buf == 0)) [
        | inl end ↦
            let none_left : (top_up r).bits_in_buf ≡ 0 = (==_iff (top_up r).bits_in_buf 0).0 end in
            let e : pos ≡ min (pos + n) (8 * length bytes) =
              omega (arith, rep'.here, empty none_left) in
            rw end (subst (Represents bytes (top_up r)) e rep')
        | inr some_left ↦
            let has : (top_up r).bits_in_buf ≢ 0 = ==_false (top_up r).bits_in_buf 0 some_left in
            let amount : ℕ = min n (top_up r).bits_in_buf in
            let rest =
              skip_loop-Represents bytes fuel (n - amount) (drop_bits amount (top_up r))
                (pos + amount) (omega (arith, has, ==_false n 0 more)) (omega arith)
                (drop_bits-Represents amount (omega arith) (omega arith) rep') in
            let e : min (pos + amount + (n - amount)) (8 * length bytes)
                ≡ min (pos + n) (8 * length bytes) =
              omega arith in
            rw some_left (
              subst (Represents bytes (skip_loop fuel (n - amount) (drop_bits amount (top_up r)))) e
                rest)
      ])
    ]

-- For a reader that stands at `pos`, `skip` of fewer than 64 bits makes it stand behind them, or
-- at the end of the input if that comes first.
pub skip-Represents :
    (bytes : List ℕ) (r : BitReader) (pos n : ℕ)
    → Represents bytes r pos
    → n < 64
    → Represents bytes (skip n r) (min (pos + n) (8 * length bytes))
unfolding skip
skip-Represents bytes r pos n rep lt = skip_loop-Represents bytes n n r pos (omega arith) lt rep
