-- ===== src/Bwt/Links.antt =====
-- src/bwt.rs: for a vector of bytes and its histogram, `inverse_bwt` writes an index within the
-- vector into every entry, and keeps the bytes.
use native.Mathlib.Nat.{mod-eq_of_lt}
use lbzip2_rs.Prelude.{
  ℕ, zero, suc, ◌+◌, ◌*◌, ◌/◌, ◌%◌, ◌^◌, ◌≤◌, ◌<◌, ◌≡◌, ◌≢◌, refl, sym, ap, ◌∙◌, arith, dec_lt,
  ℕ_discrete, bit_or, bit_and, List, [], ◌∷◌, length, length-set, get_or, get_elem?-eq-get_or, set,
  ok, panic, ◌>>=◌, ◌⊎◌, inl, inr, leb, if◌then◌else◌,
}
use lbzip2_rs.Bits.{bit_or-shl, bit_and-ones}
use lbzip2_rs.BitStream.{IsBytes, get_or-IsBytes}
use lbzip2_rs.Bwt.{link, cumulate, inverse_bwt}
use lbzip2_rs.Block.Runs.{RunState, start, write_byte, rle2_decode_alloc, rle2_decode_into}
use lbzip2_rs.Block.Runs.Written.{written_loop, written}
use lbzip2_rs.Block.Runs.Alloc.{written-rle2_decode_alloc}
use lbzip2_rs.Block.Runs.Room.{rle2_decode_into-written}
use lbzip2_rs.Bwt.Buckets.{
  count, count_here, count_other, below, below-suc, below-bytes, below_mono, IsHistogram,
  cumulate-below, length-cumulate,
}

pub get_or-set_self : (xs : List ℕ) (i v : ℕ) → i < length xs → get_or (set xs i v) i 0 ≡ v
get_or-set_self [] i v h = absurd (omega arith)
get_or-set_self (x ∷ xs) zero v h = refl
get_or-set_self (x ∷ xs) (suc i) v h = get_or-set_self xs i v (omega arith)

pub get_or-set_ne : (xs : List ℕ) (i j v : ℕ) → i ≢ j → get_or (set xs i v) j 0 ≡ get_or xs j 0
get_or-set_ne [] i j v h = refl
get_or-set_ne (x ∷ xs) zero zero v h = absurd (h refl)
get_or-set_ne (x ∷ xs) zero (suc j) v h = refl
get_or-set_ne (x ∷ xs) (suc i) zero v h = refl
get_or-set_ne (x ∷ xs) (suc i) (suc j) v h = get_or-set_ne xs i j v (λ e. h (ap suc e))

-- The state of the loop: `rest` are the bytes still to link, from index `i` on.
record Linking (bytes rest : List ℕ) (i : ℕ) (tt_ c : List ℕ) : Type 0 where
  size : length tt_ ≡ length bytes
  places : length c ≡ 256
  at_rest : i + length rest ≡ length bytes
  ahead : (j : ℕ) → get_or rest j 0 ≡ get_or bytes (i + j) 0
  kept : (j : ℕ) → j < length bytes → get_or tt_ j 0 % 2 ^ 8 ≡ get_or bytes j 0
  linked : (j : ℕ) → j < length bytes → get_or tt_ j 0 / 2 ^ 8 < length bytes
  -- What is left of the bucket of `b`.
  left : (b : ℕ) → b < 256 → get_or c b 0 + count b rest ≡ below (suc b) bytes
  starts : (b : ℕ) → b < 256 → below b bytes ≤ get_or c b 0
  unlinked :
      (b k : ℕ) → b < 256 → get_or c b 0 ≤ k → k < below (suc b) bytes → get_or tt_ k 0 / 2 ^ 8 ≡ 0

-- The vector after the loop.
pub record IsLinked (bytes tt_ : List ℕ) : Type 0 where
  pub size : length tt_ ≡ length bytes
  pub kept : (j : ℕ) → j < length bytes → get_or tt_ j 0 % 2 ^ 8 ≡ get_or bytes j 0
  pub linked : (j : ℕ) → j < length bytes → get_or tt_ j 0 / 2 ^ 8 < length bytes

module _ (bytes : List ℕ) (bytes_ok : IsBytes bytes) (few : length bytes ≤ 2 ^ 24) where
  module _ (b i : ℕ) (rest tt_ c : List ℕ) (inv : Linking bytes (b ∷ rest) i tt_ c) where
    byte_lt : b < 256
    byte_lt =
        let e : b ≡ get_or bytes (i + 0) 0 = inv.ahead 0 in
        rw e (get_or-IsBytes bytes (i + 0) bytes_ok)

    abbrev at : ℕ
    at = get_or c b 0

    in_bucket :
        (below b bytes ≤ at) × (at < below (suc b) bytes) × (below (suc b) bytes ≤ length bytes)
    in_bucket = (
      inv.starts b byte_lt,
      omega (arith, inv.left b byte_lt, count_here b b rest refl),
      omega (arith, below_mono (suc b) 256 bytes byte_lt, below-bytes bytes bytes_ok),
    )

    -- The buckets of two bytes do not meet.
    apart : (d k : ℕ) → b ≢ d → below d bytes ≤ k → k < below (suc d) bytes → at ≢ k
    apart d k ne lo hi e = elim (dec_lt b d) [
      | yes under ↦ omega (arith, below_mono (suc b) d bytes under, in_bucket)
      | no over ↦ omega (arith, below_mono (suc d) b bytes (omega arith), in_bucket)
    ]

    abbrev target : ℕ
    target = get_or tt_ at 0

    abbrev entry : ℕ
    entry = bit_or target (i * 2 ^ 8 % 2 ^ 32)

    index_lt : i < length bytes
    index_lt = omega (arith, inv.at_rest)

    -- The target has no index yet, so the OR is a sum.
    entry_sum : entry ≡ i * 2 ^ 8 + target
    entry_sum =
        let fits : i * 2 ^ 8 % 2 ^ 32 ≡ i * 2 ^ 8 = mod-eq_of_lt (omega (arith, index_lt)) in
        let bare : target < 2 ^ 8 =
          omega (arith, inv.unlinked b at byte_lt (omega arith) in_bucket.1) in
        rw fits (bit_or-shl 32 8 i target bare (omega (arith, index_lt)))

    bare_target : target < 2 ^ 8
    bare_target = omega (arith, inv.unlinked b at byte_lt (omega arith) in_bucket.1)

    step-Linking : Linking bytes rest (i + 1) (set tt_ at entry) (set c b ((at + 1) % 2 ^ 32))
    step-Linking =
        let next : (at + 1) % 2 ^ 32 ≡ at + 1 = mod-eq_of_lt (omega (arith, in_bucket)) in
        let within : at < length tt_ = omega (arith, in_bucket, inv.size) in
        let place : b < length c = omega (arith, byte_lt, inv.places) in
        rw next (record {
          size = length-set tt_ at entry ∙ inv.size;
          places = length-set c b (at + 1) ∙ inv.places;
          at_rest = omega (arith, inv.at_rest);
          ahead = λ j. let e : i + 1 + j ≡ i + suc j = omega arith in rw e (inv.ahead (suc j));
          kept = λ j lt. elim (ℕ_discrete at j) [
            | yes here ↦
                let old : target % 2 ^ 8 ≡ get_or bytes j 0 =
                  ap (λ (t : ℕ). get_or tt_ t 0 % 2 ^ 8) here ∙ inv.kept j lt in
                rw (← here, get_or-set_self tt_ at entry within)
                  (omega (arith, entry_sum, rw (← here) at old))
            | no other ↦ rw (get_or-set_ne tt_ at j entry other) (inv.kept j lt)
          ];
          linked = λ j lt. elim (ℕ_discrete at j) [
            | yes here ↦
                rw (← here, get_or-set_self tt_ at entry within)
                  (omega (arith, entry_sum, bare_target, index_lt))
            | no other ↦ rw (get_or-set_ne tt_ at j entry other) (inv.linked j lt)
          ];
          left = λ d lt. elim (ℕ_discrete b d) [
            | yes same ↦
                rw (← same, get_or-set_self c b (at + 1) place)
                  (omega (arith, inv.left b byte_lt, count_here b b rest refl))
            | no differs ↦
                rw (get_or-set_ne c b d (at + 1) differs)
                  (omega (arith, inv.left d lt, count_other d b rest differs))
          ];
          starts = λ d lt. elim (ℕ_discrete b d) [
            | yes same ↦ rw (← same, get_or-set_self c b (at + 1) place) (omega (arith, in_bucket))
            | no differs ↦ rw (get_or-set_ne c b d (at + 1) differs) (inv.starts d lt)
          ];
          unlinked = λ d k lt lo hi. elim (ℕ_discrete b d) [
            | yes same ↦
                let after : at + 1 ≤ k = rw (← same, get_or-set_self c b (at + 1) place) at lo in
                let upper : k < below (suc b) bytes = rw (← same) at hi in
                let beyond : at ≢ k = λ (e : at ≡ k). omega arith in
                rw (get_or-set_ne tt_ at k entry beyond)
                  (inv.unlinked b k byte_lt (omega arith) upper)
            | no differs ↦
                let lower : get_or c d 0 ≤ k = rw (get_or-set_ne c b d (at + 1) differs) at lo in
                let beyond : at ≢ k = apart d k differs (omega (arith, inv.starts d lt)) hi in
                rw (get_or-set_ne tt_ at k entry beyond) (inv.unlinked d k lt lower hi)
          ];
        })

  link-IsLinked :
      (rest : List ℕ) (i : ℕ) (tt_ c : List ℕ)
      → Linking bytes rest i tt_ c
      → (tt' : List ℕ) × (link (length rest) i tt_ c ≡ ok tt') × IsLinked bytes tt'
  unfolding link
  link-IsLinked [] i tt_ c inv =
      (tt_, refl, record { size = inv.size; kept = inv.kept; linked = inv.linked })
  link-IsLinked (b ∷ rest) i tt_ c inv =
      let here : i < length tt_ = omega (arith, inv.size, inv.at_rest) in
      let z : i + 0 ≡ i = omega arith in
      let low : bit_and (get_or tt_ i 0) 0xFF ≡ b =
        bit_and-ones 8 (get_or tt_ i 0)
        ∙ inv.kept i (omega (arith, inv.at_rest))
        ∙ rw (← z, sym (inv.ahead 0)) refl in
      let spot : get_or c b 0 < length tt_ =
        omega (arith, in_bucket b i rest tt_ c inv, inv.size) in
      let place : b < length c = omega (arith, byte_lt b i rest tt_ c inv, inv.places) in
      rw
        (
          get_elem?-eq-get_or tt_ i 0 here,
          low,
          get_elem?-eq-get_or c b 0 place,
          get_elem?-eq-get_or tt_ (get_or c b 0) 0 spot,
        )
        (link-IsLinked rest (i + 1) (set tt_ (get_or c b 0) (entry b i rest tt_ c inv))
          (set c b ((get_or c b 0 + 1) % 2 ^ 32)) (step-Linking b i rest tt_ c inv))

  -- Before the first round.
  initial-Linking : (c : List ℕ) → IsHistogram bytes c → Linking bytes bytes 0 bytes (cumulate 0 c)
  initial-Linking c h =
      let begins : (b : ℕ) → b < 256 → get_or (cumulate 0 c) b 0 ≡ below b bytes =
        λ b lt. cumulate-below bytes c b bytes_ok h (omega arith) lt in
      record {
        size = refl;
        places = length-cumulate c 0 ∙ h.size;
        at_rest = omega arith;
        ahead = λ j. let e : 0 + j ≡ j = omega arith in rw e refl;
        kept = λ j lt. mod-eq_of_lt (get_or-IsBytes bytes j bytes_ok);
        linked = λ j lt. omega (arith, get_or-IsBytes bytes j bytes_ok);
        left = λ b lt. rw (begins b lt) (sym (below-suc b bytes));
        starts = λ b lt. omega (arith, begins b lt);
        unlinked = λ b k lt lo hi. omega (arith, get_or-IsBytes bytes k bytes_ok);
      }

  -- For at most 2 ^ 24 bytes with their histogram and an `orig_ptr` within them, `inverse_bwt`
  -- succeeds; the position that it gives is within the vector, and its vector has the same length
  -- and the same bytes, each with an index within the vector.
  pub inverse_bwt-IsLinked :
      (orig_ptr : ℕ) (c : List ℕ)
      → IsHistogram bytes c
      → orig_ptr < length bytes
      → (tt' : List ℕ) × (t_pos : ℕ) × (inverse_bwt bytes orig_ptr c ≡ ok (tt', t_pos))
        × (t_pos < length bytes)
        × IsLinked bytes tt'
  unfolding inverse_bwt
  inverse_bwt-IsLinked orig_ptr c h lt =
      let (tt', runs, good) = link-IsLinked bytes 0 bytes (cumulate 0 c) (initial-Linking c h) in
      let here : orig_ptr < length tt' = omega (arith, good.size) in
      (
        tt',
        get_or tt' orig_ptr 0 / 2 ^ 8,
        rw (runs, get_elem?-eq-get_or tt' orig_ptr 0 here) refl,
        good.linked orig_ptr lt,
        good,
      )

-- The final run decoding reads within a linked vector.
written_loop-IsLinked :
    (bytes tt_ : List ℕ) (left t_pos : ℕ) (s : RunState)
    → IsLinked bytes tt_
    → t_pos < length bytes
    → (out : List ℕ) × (written_loop left tt_ t_pos s ≡ ok out)
unfolding written_loop
written_loop-IsLinked bytes tt_ zero t_pos s good lt = (s.output, refl)
written_loop-IsLinked bytes tt_ (suc left) t_pos s good lt =
    let entry : ℕ = get_or tt_ t_pos 0 in
    let next_lt : entry / 2 ^ 8 < length bytes = good.linked t_pos lt in
    rw
      (
        get_elem?-eq-get_or tt_ t_pos 0 (omega (arith, good.size)),
        get_elem?-eq-get_or tt_ (entry / 2 ^ 8) 0 (omega (arith, good.size)),
      )
      (written_loop-IsLinked bytes tt_ left (entry / 2 ^ 8) (write_byte s (entry % 2 ^ 8)) good
        next_lt)

-- Both forms on a linked vector: `out` is what is written where there is room.
pub runs-IsLinked :
    (bytes tt_ : List ℕ) (t_pos : ℕ)
    → IsLinked bytes tt_
    → t_pos < length bytes
    → (out : List ℕ) × ((rle2_decode_alloc tt_ t_pos ≡ ok out)
        ⊎ (length bytes + length bytes / 4 < length out))
      × ((cap : ℕ)
          → rle2_decode_into tt_ t_pos cap ≡ (if leb (length out) cap then ok out else panic))
unfolding written
runs-IsLinked bytes tt_ t_pos good lt =
    let (out, all) = written_loop-IsLinked bytes tt_ (length tt_) t_pos start good lt in
    let room : ℕ = length bytes + length bytes / 4 in
    (
      out,
      elim (dec_lt room (length out)) [
        | yes over ↦ inr over
        | no fits ↦ inl (written-rle2_decode_alloc tt_ t_pos out all (ground (arith, good.size)))
      ],
      λ cap. rle2_decode_into-written tt_ t_pos cap out all,
    )

-- For at most 2 ^ 24 bytes with their histogram and an `orig_ptr` within them, `inverse_bwt` and
-- the final run decoding behind it have an output: `rle2_decode_into` gives it where the buffer has
-- room for it, and panics where not, and `rle2_decode_alloc` gives it unless it is more than a
-- quarter longer than the bytes.
pub rle2_decode_alloc-inverse_bwt :
    (bytes : List ℕ) (orig_ptr : ℕ) (c : List ℕ)
    → IsBytes bytes
    → length bytes ≤ 2 ^ 24
    → IsHistogram bytes c
    → orig_ptr < length bytes
    → (out : List ℕ) × (((inverse_bwt bytes orig_ptr c
            >>= (λ (tt', t_pos). rle2_decode_alloc tt' t_pos))
          ≡ ok out)
        ⊎ (length bytes + length bytes / 4 < length out))
      × ((cap : ℕ)
          → (inverse_bwt bytes orig_ptr c >>= (λ (tt', t_pos). rle2_decode_into tt' t_pos cap))
            ≡ (if leb (length out) cap then ok out else panic))
rle2_decode_alloc-inverse_bwt bytes orig_ptr c bytes_ok few h lt =
    let (tt', t_pos, runs, within, good) =
      inverse_bwt-IsLinked bytes bytes_ok few orig_ptr c h lt in
    rw runs (runs-IsLinked bytes tt' t_pos good within)
