-- ===== src/Reader/Whole.antt =====
-- src/reader.rs, `ParallelBz2Read` for a caller that reads until nothing comes: it gets the whole
-- output.
use lbzip2_rs.Prelude.{
  ℕ, zero, suc, ◌+◌, ◌≤◌, ◌<◌, min, ◌≡◌, refl, sym, ap, ◌∙◌, arith, List, [], ◌∷◌, ◌++◌, length,
  length-append, Result, ok, panic, ◌>>=◌,
}
use lbzip2_rs.Scan.Defs.{find_all_blocks}
use lbzip2_rs.Stream.{parse_header}
use lbzip2_rs.Parallel.Join.{Decodes}
use lbzip2_rs.Reader.Batches.{ParallelBz2Read, new, read}
use lbzip2_rs.Reader.Pieces.{IsPending, new-IsPending, read-IsPending}

-- The caller, with a buffer of `room` bytes: reads until one gives no bytes, at most `fuel` times.
unfoldable pub read_to_end : ℕ → ℕ → ParallelBz2Read → Result (List ℕ)
unfolding read
read_to_end zero room s = panic
read_to_end (suc fuel) room s = do
  (piece, s') ← read room s
  elim piece [ [] ↦ ok [] | x ∷ xs ↦ do rest ← read_to_end fuel room s'; ok ((x ∷ xs) ++ rest) ]

last_read :
    (fuel room : ℕ) (s s' : ParallelBz2Read)
    → read room s ≡ ok ([], s')
    → read_to_end (suc fuel) room s ≡ ok []
unfolding read_to_end
last_read fuel room s s' e = rw (e, read_to_end) refl

one_read :
    (fuel room x : ℕ) (xs rest : List ℕ) (s s' : ParallelBz2Read)
    → read room s ≡ ok (x ∷ xs, s')
    → read_to_end fuel room s' ≡ ok rest
    → read_to_end (suc fuel) room s ≡ ok ((x ∷ xs) ++ rest)
unfolding read_to_end
one_read fuel room x xs rest s s' e later = rw (e, later, read_to_end) refl

behind_piece :
    (fuel room : ℕ) (s s' : ParallelBz2Read) (piece rest out : List ℕ)
    → read room s ≡ ok (piece, s')
    → out ≡ piece ++ rest
    → min 1 (min room (length out)) ≤ length piece
    → 0 < room
    → length out < suc fuel
    → (length rest < fuel → read_to_end fuel room s' ≡ ok rest)
    → read_to_end (suc fuel) room s ≡ ok out
behind_piece fuel room s s' [] rest [] e split some_ open_ enough later = last_read fuel room s s' e
behind_piece fuel room s s' [] rest (y ∷ ys) e split some_ open_ enough later = absurd (omega arith)
behind_piece fuel room s s' (x ∷ xs) rest out e split some_ open_ enough later =
    let lengths : length out ≡ suc (length xs) + length rest =
      ap length split ∙ length-append (x ∷ xs) rest in
    one_read fuel room x xs rest s s' e (later (omega arith)) ∙ ap ok (sym split)

read_to_end-IsPending :
    (fuel room : ℕ) (s : ParallelBz2Read) (out : List ℕ)
    → IsPending s out
    → 0 < room
    → length out < fuel
    → read_to_end fuel room s ≡ ok out
read_to_end-IsPending zero room s out h open_ enough = absurd (omega arith)
read_to_end-IsPending (suc fuel) room s out h open_ enough =
    let (piece, s', rest, gives, pending, split, some_) = read-IsPending room s out h in
    behind_piece fuel room s s' piece rest out gives split some_ open_ enough
      (λ shorter. read_to_end-IsPending fuel room s' rest pending open_ shorter)

-- If the header gives a block size and the blocks at all boundaries decode, a caller with a buffer
-- of at least one byte, that reads from a new reader until it gets no bytes, gets the outputs of
-- the blocks one behind the other, in at most one read more than they have bytes.
pub read_to_end-new :
    (fuel room : ℕ) (bytes : List ℕ) (max_blocksize : ℕ) (out : List ℕ)
    → parse_header bytes ≡ ok max_blocksize
    → Decodes bytes max_blocksize (find_all_blocks bytes) out
    → 0 < room
    → length out < fuel
    → (new bytes >>= read_to_end fuel room) ≡ ok out
read_to_end-new fuel room bytes max_blocksize out header decodes open_ enough =
    let (s, made, pending) = new-IsPending bytes max_blocksize out header decodes in
    rw made (read_to_end-IsPending fuel room s out pending open_ enough)
