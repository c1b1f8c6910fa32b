-- ===== src/Scan/Merge.antt =====
-- src/block_scan.rs, `find_all_blocks_parallel`: the boundaries of the chunks, sorted and merged.
use lbzip2_rs.Prelude.{
  All-weaken, ℕ, ◌≤◌, ◌<◌, ◌≡◌, refl, arith, inl, inr, true, false, Bool-cases, List, [], ◌∷◌, All,
  leb, leb→le, leb→lt, ◌==◌, ==_iff, ==_false,
}
use lbzip2_rs.Scan.Defs.{BlockBoundary}
use lbzip2_rs.Scan.Split.{insert_boundary, sort_boundaries, dedup_after, dedup_boundaries}
use lbzip2_rs.Scan.All.{Covers}

-- In order, with and without repetition.
abbrev IsOrdered : List BlockBoundary → Type 0
IsOrdered [] = Unit
IsOrdered (b ∷ bs) = All (λ c. b.bit_offset ≤ c.bit_offset) bs × IsOrdered bs

abbrev pub IsIncreasing : List BlockBoundary → Type 0
IsIncreasing [] = Unit
IsIncreasing (b ∷ bs) = All (λ c. b.bit_offset < c.bit_offset) bs × IsIncreasing bs

insert_boundary_first :
    (b c : BlockBoundary) (cs : List BlockBoundary)
    → leb b.bit_offset c.bit_offset ≡ true
    → insert_boundary b (c ∷ cs) ≡ b ∷ c ∷ cs
unfolding insert_boundary
insert_boundary_first b c cs e = rw e refl

insert_boundary_later :
    (b c : BlockBoundary) (cs : List BlockBoundary)
    → leb b.bit_offset c.bit_offset ≡ false
    → insert_boundary b (c ∷ cs) ≡ c ∷ insert_boundary b cs
unfolding insert_boundary
insert_boundary_later b c cs e = rw e refl

insert_boundary-All :
    (P : BlockBoundary → Type 0) (b : BlockBoundary) (cs : List BlockBoundary)
    → P b
    → All P cs
    → All P (insert_boundary b cs)
unfolding insert_boundary
insert_boundary-All P b [] here h = (here, tt)
insert_boundary-All P b (c ∷ cs) here h = elim (Bool-cases (leb b.bit_offset c.bit_offset)) [
  | inl first ↦ rw (insert_boundary_first b c cs first) (here, h)
  | inr later ↦ rw (insert_boundary_later b c cs later) (h.0, insert_boundary-All P b cs here h.1)
]

insert_boundary-IsOrdered :
    (b : BlockBoundary) (cs : List BlockBoundary) → IsOrdered cs → IsOrdered (insert_boundary b cs)
unfolding insert_boundary
insert_boundary-IsOrdered b [] h = (tt, tt)
insert_boundary-IsOrdered b (c ∷ cs) h = elim (Bool-cases (leb b.bit_offset c.bit_offset)) [
  | inl first ↦
      let le : b.bit_offset ≤ c.bit_offset = leb→le b.bit_offset c.bit_offset first in
      rw (insert_boundary_first b c cs first) ((le, All-weaken cs (λ d l. omega arith) h.0), h)
  | inr later ↦
      let lt : c.bit_offset < b.bit_offset = leb→lt b.bit_offset c.bit_offset later in
      rw (insert_boundary_later b c cs later) (
        insert_boundary-All (λ d. c.bit_offset ≤ d.bit_offset) b cs (omega arith) h.0,
        insert_boundary-IsOrdered b cs h.1,
      )
]

insert_boundary-Covers :
    (b : BlockBoundary) (cs : List BlockBoundary) (p : ℕ)
    → Covers (b ∷ cs) p
    → Covers (insert_boundary b cs) p
unfolding insert_boundary
insert_boundary-Covers b [] p h = h
insert_boundary-Covers b (c ∷ cs) p h = elim (Bool-cases (leb b.bit_offset c.bit_offset)) [
  | inl first ↦ rw (insert_boundary_first b c cs first) h
  | inr later ↦ rw (insert_boundary_later b c cs later) (elim h [
    | inl here ↦ inr (insert_boundary-Covers b cs p (inl here))
    | inr more ↦ elim more [
      | inl next ↦ inl next
      | inr rest ↦ inr (insert_boundary-Covers b cs p (inr rest))
    ]
  ])
]

sort_boundaries-All :
    (P : BlockBoundary → Type 0) (bs : List BlockBoundary) → All P bs → All P (sort_boundaries bs)
unfolding sort_boundaries
sort_boundaries-All P [] h = tt
sort_boundaries-All P (b ∷ bs) h =
    insert_boundary-All P b (sort_boundaries bs) h.0 (sort_boundaries-All P bs h.1)

sort_boundaries-IsOrdered : (bs : List BlockBoundary) → IsOrdered (sort_boundaries bs)
unfolding sort_boundaries
sort_boundaries-IsOrdered [] = tt
sort_boundaries-IsOrdered (b ∷ bs) =
    insert_boundary-IsOrdered b (sort_boundaries bs) (sort_boundaries-IsOrdered bs)

sort_boundaries-Covers :
    (bs : List BlockBoundary) (p : ℕ) → Covers bs p → Covers (sort_boundaries bs) p
unfolding sort_boundaries
sort_boundaries-Covers [] p h = h
sort_boundaries-Covers (b ∷ bs) p h =
    insert_boundary-Covers b (sort_boundaries bs) p
      (elim h [ inl here ↦ inl here | inr more ↦ inr (sort_boundaries-Covers bs p more) ])

-- What is kept of the boundaries behind `b`.
record IsDeduped (P : BlockBoundary → Type 0) (b : BlockBoundary) (cs kept : List BlockBoundary)
    : Type 0 where
  above : All (λ c. b.bit_offset < c.bit_offset) kept
  increasing : IsIncreasing kept
  all : All P kept
  covers : (p : ℕ) → Covers (b ∷ cs) p → Covers (b ∷ kept) p

dedup_after_drop :
    (b c : BlockBoundary) (cs : List BlockBoundary)
    → (b.bit_offset == c.bit_offset) ≡ true
    → dedup_after b (c ∷ cs) ≡ dedup_after b cs
unfolding dedup_after
dedup_after_drop b c cs e = rw (e, dedup_after) refl

dedup_after_keep :
    (b c : BlockBoundary) (cs : List BlockBoundary)
    → (b.bit_offset == c.bit_offset) ≡ false
    → dedup_after b (c ∷ cs) ≡ c ∷ dedup_after c cs
unfolding dedup_after
dedup_after_keep b c cs e = rw (e, dedup_after) refl

dedup_after-IsDeduped :
    (P : BlockBoundary → Type 0) (b : BlockBoundary) (cs : List BlockBoundary)
    → All (λ c. b.bit_offset ≤ c.bit_offset) cs
    → IsOrdered cs
    → All P cs
    → IsDeduped P b cs (dedup_after b cs)
unfolding dedup_after
dedup_after-IsDeduped P b [] above ordered all = record {
  above = tt;
  increasing = tt;
  all = tt;
  covers = λ p h. h;
}
dedup_after-IsDeduped P b (c ∷ cs) above ordered all =
    elim (Bool-cases (b.bit_offset == c.bit_offset)) [
      | inl same ↦
          let e : b.bit_offset ≡ c.bit_offset = (==_iff b.bit_offset c.bit_offset).0 same in
          let rest = dedup_after-IsDeduped P b cs above.1 ordered.1 all.1 in
          rw (dedup_after_drop b c cs same) (record {
            above = rest.above;
            increasing = rest.increasing;
            all = rest.all;
            covers = λ p h. rest.covers p (elim h [
              | inl here ↦ inl here
              | inr more ↦ elim more [
                | inl next ↦ inl (omega (arith, e, next), omega (arith, e, next))
                | inr further ↦ inr further
              ]
            ]);
          })
      | inr differs ↦
          let rest = dedup_after-IsDeduped P c cs ordered.0 ordered.1 all.1 in
          let lt : b.bit_offset < c.bit_offset =
            omega (arith, above.0, ==_false b.bit_offset c.bit_offset differs) in
          rw (dedup_after_keep b c cs differs) (record {
            above = (lt, All-weaken (dedup_after c cs) (λ d l. omega arith) rest.above);
            increasing = (rest.above, rest.increasing);
            all = (all.0, rest.all);
            covers = λ p h. elim h [ inl here ↦ inl here | inr more ↦ inr (rest.covers p more) ];
          })
    ]

-- Sorted and without repetition, a list keeps what it covers and what holds of all.
pub merge_lem :
    (P : BlockBoundary → Type 0) (bs : List BlockBoundary)
    → All P bs
    → IsIncreasing (dedup_boundaries (sort_boundaries bs))
      × All P (dedup_boundaries (sort_boundaries bs))
      × ((p : ℕ) → Covers bs p → Covers (dedup_boundaries (sort_boundaries bs)) p)
unfolding dedup_boundaries
merge_lem P bs all =
    merged (sort_boundaries bs) (sort_boundaries-IsOrdered bs) (sort_boundaries-All P bs all)
      (sort_boundaries-Covers bs)
  where
    merged :
        (sorted : List BlockBoundary)
        → IsOrdered sorted
        → All P sorted
        → ((p : ℕ) → Covers bs p → Covers sorted p)
        → IsIncreasing (dedup_boundaries sorted)
          × All P (dedup_boundaries sorted)
          × ((p : ℕ) → Covers bs p → Covers (dedup_boundaries sorted) p)
    merged [] ordered h covers = (tt, tt, covers)
    merged (b ∷ cs) ordered h covers =
        let rest = dedup_after-IsDeduped P b cs ordered.0 ordered.1 h.1 in
        ((rest.above, rest.increasing), (h.0, rest.all), λ p c. rest.covers p (covers p c))
