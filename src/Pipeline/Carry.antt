-- ===== src/Pipeline/Carry.antt =====
-- src/bin/lbunzip2.rs, the loop of the main thread: what it posts for what the reader thread sends,
-- and what it carries over from one chunk to the next.
use lbzip2_rs.Prelude.{
  ◌>>=◌, ltb→lt, le→ltb, ℕ, ◌+◌, ◌*◌, ◌/◌, ◌≤◌, ◌<◌, ◌≡◌, refl, arith, Bool, true, false, ◌&&◌,
  List, [], ◌∷◌, ◌++◌, length, drop, Option, none, some, Result, ok, err, panic, OnOk, >>=-OnOk,
  ltb, leb, ◌==◌,
}
use mathlib.Core.Path.{subst}
use lbzip2_rs.Scan.Defs.{BlockBoundary, find_next_block}
use lbzip2_rs.Chunk.Defs.{ChunkSplit, split_chunk}
use lbzip2_rs.Pipeline.Threads.{carry_headroom, work_items, new_in_flight, Posted, post, main_loop}
use lbzip2_rs.Pipeline.Posts.{IsPosted, post-IsPosted}
use lbzip2_rs.Pipeline.Ranges.{
  bound, Tiles, work_items-Tiles, post-total, IsSplit, split_chunk-IsSplit,
}

-- A chunk is posted whole: a new slot for its data, and at least one item, each for the next
-- segment and with the slot's data, which take the bits from the first block of the data to `end`
-- one after the other.
pub record Covers (chunk_id : ℕ) (data_ : List ℕ) (is_last : Bool) (end : ℕ) (p : Posted)
    : Type 0 where
  pub posted : IsPosted chunk_id p
  pub on_data : p.slot.slot ≡ data_
  pub marked : p.slot.is_last ≡ is_last
  pub nonempty : 0 < length p.items
  pub first : BlockBoundary
  pub begins : find_next_block data_ 0 ≡ some first
  pub tiles : Tiles first.bit_offset end p.items

-- What comes of the loop for what the reader thread sends, with bytes carried over from before.
pub data Feeds (n_workers max_blocksize : ℕ)
    : List (List ℕ × Bool) → List ℕ → ℕ → Result (List Posted) → Type 0 where
  -- The channel is closed, or what comes is empty and hardly anything is carried.
  closed : {carry : List ℕ} {k : ℕ} → Feeds n_workers max_blocksize [] carry k (ok [])
  finished :
      {bytes carry : List ℕ} {is_last : Bool} {filled : List (List ℕ × Bool)} {k : ℕ}
      → length bytes ≡ 0
      → length carry ≤ 4
      → Feeds n_workers max_blocksize ((bytes, is_last) ∷ filled) carry k (ok [])
  -- What is carried over does not fit in front of the bytes read.
  overfull :
      {bytes carry : List ℕ} {is_last : Bool} {filled : List (List ℕ × Bool)} {k : ℕ}
      → carry_headroom < length carry
      → Feeds n_workers max_blocksize ((bytes, is_last) ∷ filled) carry k panic
  -- Data that is not split.
  unsplit_last :
      {bytes carry : List ℕ} {filled : List (List ℕ × Bool)} {k : ℕ}
      → split_chunk (carry ++ bytes) n_workers max_blocksize true ≡ none
      → Feeds n_workers max_blocksize ((bytes, true) ∷ filled) carry k (ok [])
  unsplit :
      {bytes carry : List ℕ} {filled : List (List ℕ × Bool)} {k : ℕ} {r : Result (List Posted)}
      → split_chunk (carry ++ bytes) n_workers max_blocksize false ≡ none
      → Feeds n_workers max_blocksize filled carry k r
      → Feeds n_workers max_blocksize ((bytes, false) ∷ filled) carry k r
  -- The last chunk is posted up to its end, another up to a bit, and the bytes from that bit's on
  -- are carried to the next.
  last_chunk :
      {bytes carry : List ℕ} {filled : List (List ℕ × Bool)} {k : ℕ} {p : Posted}
      → Covers k (carry ++ bytes) true (length (carry ++ bytes) * 8) p
      → Feeds n_workers max_blocksize ((bytes, true) ∷ filled) carry k (ok (p ∷ []))
  chunk :
      {bytes carry : List ℕ} {filled : List (List ℕ × Bool)} {k : ℕ} {p : Posted}
      {r : Result (List Posted)} (end : ℕ)
      → Covers k (carry ++ bytes) false end p
      → Feeds n_workers max_blocksize filled (drop (end / 8) (carry ++ bytes)) (k + 1) r
      → Feeds n_workers max_blocksize ((bytes, false) ∷ filled) carry k (r >>= λ ps. ok (p ∷ ps))

OnOk-both :
    {A : Type 0} (P Q : A → Type 0) (r : Result A) → OnOk P r → OnOk Q r → OnOk (λ a. P a × Q a) r
OnOk-both P Q (ok a) p q = (p, q)
OnOk-both P Q (err e) p q = tt
OnOk-both P Q panic p q = tt

OnOk-weaken :
    {A : Type 0} (P Q : A → Type 0) (r : Result A) → OnOk P r → ((a : A) → P a → Q a) → OnOk Q r
OnOk-weaken P Q (ok a) p f = f a p
OnOk-weaken P Q (err e) p f = tt
OnOk-weaken P Q panic p f = tt

branch :
    {A : Type 0} (P : Result A → Type 0) (b : Bool) (x y : Result A)
    → (b ≡ true → P x)
    → (b ≡ false → P y)
    → (let chosen : Result A = elim b [ true ↦ x | false ↦ y ] in P chosen)
branch P true x y f g = f refl
branch P false x y f g = g refl

found_or :
    {A B : Type 0} (P : Result B → Type 0) (o : Option A) (found : A → Result B)
    (missing : Result B)
    → ((a : A) → o ≡ some a → P (found a))
    → (o ≡ none → P missing)
    → (let chosen : Result B = elim o [ some a ↦ found a | none ↦ missing ] in P chosen)
found_or P (some a) found missing f g = f a refl
found_or P none found missing f g = g refl

-- The items of a slot, as far as the split says.
abbrev OnSplit : List ℕ → ChunkSplit → Bool → Posted → Type 0
OnSplit data_ split is_last p =
    (p.slot.slot ≡ data_)
    × (p.slot.is_last ≡ is_last)
    × (length p.items ≡ split.decode_segments)
    × Tiles (bound data_ split 0) (bound data_ split (0 + split.decode_segments)) p.items

post-OnSplit :
    (max_blocksize k : ℕ) (data_ : List ℕ) (split : ChunkSplit) (is_last : Bool)
    → OnOk (OnSplit data_ split is_last) (post max_blocksize k data_ split is_last)
unfolding post new_in_flight
post-OnSplit max_blocksize k data_ split is_last =
    >>=-OnOk _ (OnSplit data_ split is_last)
      (work_items split.decode_segments 0 data_ split k max_blocksize) _
      (work_items-Tiles split.decode_segments 0 data_ split k max_blocksize)
      (λ items h. (refl, refl, h.0, h.1))

post-Covers :
    (max_blocksize k : ℕ) (data_ : List ℕ) (split : ChunkSplit) (is_last : Bool)
    → IsSplit data_ is_last split
    → OnOk
        (Covers k data_ is_last (bound data_ split split.decode_segments))
        (post max_blocksize k data_ split is_last)
post-Covers max_blocksize k data_ split is_last is =
    let P : Posted → Type 0 = λ p. IsPosted k p × OnSplit data_ split is_last p in
    let e : 0 + split.decode_segments ≡ split.decode_segments = omega arith in
    OnOk-weaken P (Covers k data_ is_last (bound data_ split split.decode_segments))
      (post max_blocksize k data_ split is_last)
      (OnOk-both (IsPosted k) (OnSplit data_ split is_last)
        (post max_blocksize k data_ split is_last)
        (post-IsPosted max_blocksize k data_ split is_last)
        (post-OnSplit max_blocksize k data_ split is_last))
      (λ p (posted, (on_data, marked, size, tiles)). record {
        posted = posted;
        on_data = on_data;
        marked = marked;
        nonempty = omega (arith, is.nonempty, size);
        first = is.first;
        begins = is.begins;
        tiles = rw (← is.at_first, ← e) tiles;
      })

posted :
    (max_blocksize k : ℕ) (data_ : List ℕ) (split : ChunkSplit) (is_last : Bool)
    → IsSplit data_ is_last split
    → (p : Posted) × (post max_blocksize k data_ split is_last ≡ ok p)
      × Covers k data_ is_last (bound data_ split split.decode_segments) p
posted max_blocksize k data_ split is_last is =
    let (p, e) = post-total max_blocksize k data_ split is_last is in
    (
      p,
      e,
      subst (OnOk (Covers k data_ is_last (bound data_ split split.decode_segments))) e
          (post-Covers max_blocksize k data_ split is_last is),
    )

-- For whatever the reader thread sends, the main thread posts each chunk that is split whole, with
-- the next number: a new slot for the bytes carried over and those read, and an item for each
-- segment, in their order, with the slot's data, from the first block of the data on without a gap
-- up to the end of the last chunk's data, or up to the bit from whose byte on the data of another is
-- carried over to the next. It stops behind the last chunk, or when nothing is read and at most four
-- bytes are left; a chunk that is not split is left out. It panics only where more is carried over
-- than the headroom of a slot holds.
pub main_loop-Feeds :
    (n_workers max_blocksize : ℕ) (filled : List (List ℕ × Bool)) (carry : List ℕ) (chunk_id : ℕ)
    → Feeds n_workers max_blocksize filled carry chunk_id
        (main_loop n_workers max_blocksize filled carry chunk_id)
unfolding main_loop
main_loop-Feeds n m [] carry k = closed
main_loop-Feeds n m ((bytes, true) ∷ filled) carry k =
    let data_ : List ℕ = carry ++ bytes in
    let P : Result (List Posted) → Type 0 = Feeds n m ((bytes, true) ∷ filled) carry k in
    branch P (length bytes == 0 && leb (length carry) 4) _ _
      (λ done. finished (ground arith) (ground arith))
      λ open_.
        branch P (ltb carry_headroom (length carry)) _ _
          (λ over. overfull (ltb→lt carry_headroom (length carry) over))
          λ fits.
            found_or P (split_chunk data_ n m true) _ _
              (λ split e.
                let is : IsSplit data_ true split = split_chunk-IsSplit data_ n m true split e in
                let (p, posts, covers) = posted m k data_ split true is in
                let whole : Covers k data_ true (length data_ * 8) p =
                  rw (← is.whole refl) covers in
                rw (le→ltb (length data_) split.consumed is.within, posts) (last_chunk whole))
              (λ none_. unsplit_last none_)
main_loop-Feeds n m ((bytes, false) ∷ filled) carry k =
    let data_ : List ℕ = carry ++ bytes in
    let P : Result (List Posted) → Type 0 = Feeds n m ((bytes, false) ∷ filled) carry k in
    branch P (length bytes == 0 && leb (length carry) 4) _ _
      (λ done. finished (ground arith) (ground arith))
      λ open_.
        branch P (ltb carry_headroom (length carry)) _ _
          (λ over. overfull (ltb→lt carry_headroom (length carry) over))
          λ fits.
            found_or P (split_chunk data_ n m false) _ _
              (λ split e.
                let is : IsSplit data_ false split = split_chunk-IsSplit data_ n m false split e in
                let (p, posts, covers) = posted m k data_ split false is in
                let end : ℕ = bound data_ split split.decode_segments in
                let feeds : Feeds n m filled (drop (end / 8) data_) (k + 1)
                    (main_loop n m filled (drop split.consumed data_) (k + 1)) =
                  rw (← is.consumes)
                    (main_loop-Feeds n m filled (drop split.consumed data_) (k + 1)) in
                rw (le→ltb (length data_) split.consumed is.within, posts) (chunk end covers feeds))
              (λ none_. unsplit none_ (main_loop-Feeds n m filled carry k))
