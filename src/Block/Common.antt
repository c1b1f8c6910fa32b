-- ===== src/Block/Common.antt =====
-- src/block.rs: `decode_block_common`, `decode_block` and `decode_block_into`. The thread-local
-- pool of `tt` buffers hands out empty vectors, and so does not show.
use lbzip2_rs.Prelude.{ℕ, List, length, leb}
use lbzip2_rs.Bwt.{inverse_bwt}
use lbzip2_rs.Block.Reading.{M, ◌>>=◌, ◌>>◌, fail_when, lift}
use lbzip2_rs.Block.Header.{read_header}
use lbzip2_rs.Block.Symbols.{decode_symbols}
use lbzip2_rs.Block.Runs.{rle2_decode_alloc, rle2_decode_into}

unfoldable pub decode_block_common : ℕ → M (List ℕ × ℕ)
unfolding read_header decode_symbols inverse_bwt
decode_block_common max_blocksize = do
  h ← read_header
  s ← decode_symbols max_blocksize h
  fail_when (leb (length s.tt_) h.orig_ptr) "orig_ptr out of bounds"
  lift (inverse_bwt s.tt_ h.orig_ptr s.c)

unfoldable pub decode_block : ℕ → M (List ℕ)
unfolding decode_block_common rle2_decode_alloc
decode_block max_blocksize = do
  common ← decode_block_common max_blocksize
  lift (rle2_decode_alloc common.0 common.1)

-- The bytes written to the front of `out`, whose length is `out_cap`.
unfoldable pub decode_block_into : ℕ → ℕ → M (List ℕ)
unfolding decode_block_common rle2_decode_into
decode_block_into max_blocksize out_cap = do
  common ← decode_block_common max_blocksize
  lift (rle2_decode_into common.0 common.1 out_cap)
