-- ===== src/Reader/Last.antt =====
-- src/reader.rs, `StreamingBz2Read::fill` on a source that ends within the chunk: all its blocks are
-- decoded.
use lbzip2_rs.Prelude.{
  ℕ, ◌+◌, ◌<◌, ◌≡◌, refl, ap, ◌∙◌, arith, Bool, ◌⊎◌, true, false, Bool-cases, inl, inr, List, [],
  ◌∷◌, ◌++◌, length, map, min, take, drop, Option, none, some, Result, ok, panic, ltb, ◌==◌,
}
use lbzip2_rs.Source.{Source, IsSource}
use lbzip2_rs.ParMap.{par_map}
use lbzip2_rs.Scan.Defs.{BlockBoundary, find_all_blocks}
use lbzip2_rs.Parallel.{decode_at, worker, any_panic}
use lbzip2_rs.Parallel.Join.{Decodes, no_blocks, block, worker-decode_at, join-Decodes}
use lbzip2_rs.Reader.Slices.{take-all, take_none, take-min, drop-min, append_nil}
use lbzip2_rs.Reader.Loads.{load_all}
use lbzip2_rs.Reader.Streaming.{
  IoError, invalid_data, StreamingBz2Read, gather, undecoded, decode_count, decode_complete,
  fill_decode, fill, serve, read,
}

gather-Decodes :
    (bytes : List ℕ) (max_blocksize : ℕ) (boundaries : List BlockBoundary) (out : List ℕ)
    → Decodes bytes max_blocksize boundaries out
    → gather (map (decode_at bytes max_blocksize) boundaries) ≡ (out, none)
gather-Decodes bytes m _ _ no_blocks = refl
gather-Decodes bytes m _ _ (block {boundary} {boundaries} data_ {out} here rest) =
    let gathered : gather (map (decode_at bytes m) boundaries) ≡ (out, none) =
      gather-Decodes bytes m boundaries out rest in
    rw (here, gathered) refl

undecoded_all :
    (bytes : List ℕ) (boundaries : List BlockBoundary)
    → undecoded bytes boundaries (length boundaries) ≡ []
undecoded_all bytes [] = refl
undecoded_all bytes (b ∷ bs) = undecoded_all bytes bs

no_boundaries :
    (m : ℕ) (bytes : List ℕ) (boundaries : List BlockBoundary) (out : List ℕ)
    → Decodes bytes m boundaries out
    → (length boundaries == 0) ≡ true
    → out ≡ []
no_boundaries m bytes _ _ no_blocks none_ = refl
no_boundaries m bytes _ _ (block {boundary} {boundaries} data_ {out} here rest) none_ =
    absurd (ground arith)

module _ {S : Type 0} where
  -- The reader with an output to serve, and nothing more to decode.
  abbrev pub drained : StreamingBz2Read S → List ℕ → StreamingBz2Read S
  drained s out = record s { comp_buf = []; out_buf = out; out_pos = 0 }

  decode_count_all :
      (s : StreamingBz2Read S)
      → s.source_eof ≡ true
      → decode_count s ≡ length (find_all_blocks s.comp_buf)
  decode_count_all s ended = rw (ended, decode_count) refl

  decode_complete-Decodes :
      (s : StreamingBz2Read S) (out : List ℕ)
      → s.source_eof ≡ true
      → Decodes s.comp_buf s.max_blocksize (find_all_blocks s.comp_buf) out
      → decode_complete s ≡ ok (none, drained s out)
  unfolding decode_complete par_map
  decode_complete-Decodes s out ended h =
      let boundaries : List BlockBoundary = find_all_blocks s.comp_buf in
      let (calm, joined) = join-Decodes s.comp_buf s.max_blocksize boundaries out h in
      let blocks : ℕ → List BlockBoundary = λ n. take n boundaries in
      let finish : List (Result (List ℕ)) → ℕ → Result (Option IoError × StreamingBz2Read S) =
        λ results n. elim (any_panic results) [
          | true ↦ panic
          | false ↦ elim (gather results).1 [
            | some e ↦
                ok (some (invalid_data e), record s { out_buf = (gather results).0; out_pos = 0 })
            | none ↦ ok (
              none,
              record s {
                out_buf = (gather results).0;
                out_pos = 0;
                comp_buf = undecoded s.comp_buf boundaries n;
              },
            )
          ]
        ] in
      let results : ℕ → List (Result (List ℕ)) =
        λ n. par_map (length (blocks n)) (worker s.comp_buf s.max_blocksize (blocks n)) in
      let ran : results (length boundaries)
          ≡ map (decode_at s.comp_buf s.max_blocksize) boundaries =
        ap (λ bs. par_map (length bs) (worker s.comp_buf s.max_blocksize bs)) (take-all boundaries)
        ∙ worker-decode_at s.comp_buf s.max_blocksize boundaries in
      ap (λ n. finish (results n) n) (decode_count_all s ended)
      ∙ ap (λ rs. finish rs (length boundaries)) ran
      ∙ rw
          (
            calm,
            gather-Decodes s.comp_buf s.max_blocksize boundaries out h,
            gather-Decodes s.comp_buf s.max_blocksize boundaries out h,
            undecoded_all s.comp_buf boundaries,
          )
          refl

  fill_decode-Decodes :
      (s : StreamingBz2Read S) (out : List ℕ)
      → s.source_eof ≡ true
      → Decodes s.comp_buf s.max_blocksize (find_all_blocks s.comp_buf) out
      → fill_decode s ≡ ok (none, drained s out)
  unfolding fill_decode
  fill_decode-Decodes s out ended h =
      let boundaries : List BlockBoundary = find_all_blocks s.comp_buf in
      elim (Bool-cases (length boundaries == 0)) [
        | inl empty ↦
            let nothing : out ≡ [] =
              no_boundaries s.max_blocksize s.comp_buf boundaries out h empty in
            rw (empty, ended, nothing, fill_decode) refl
        | inr some_ ↦
            rw (some_, ended, decode_complete-Decodes s out ended h, fill_decode)
              (ap (λ e. ok (none, record (drained s out) { source_eof = e })) ended)
      ]

module _ {S : Type 0} (source : Source S) (law : IsSource S source) where
  -- The outputs of all the blocks, one behind the other, are the output to serve, and nothing more
  -- is held to decode.
  pub fill-Decodes :
      (fuel chunk : ℕ) (s : StreamingBz2Read S) (contents out : List ℕ)
      → s.source_eof ≡ false
      → law.Has s.source contents
      → length contents < chunk
      → chunk + law.patience s.source < fuel
      → Decodes
          (s.comp_buf ++ contents)
          s.max_blocksize
          (find_all_blocks (s.comp_buf ++ contents))
          out
      → (s' : S) × (fill source fuel chunk s
          ≡ ok (none, drained (record s { source = s'; source_eof = true }) out))
  unfolding fill
  fill-Decodes fuel chunk s contents out open_ has short enough decodes =
      let (s', loaded) = load_all source law fuel chunk s.source contents has short enough in
      let t : StreamingBz2Read S = record s {
        source = s';
        comp_buf = s.comp_buf ++ contents;
        source_eof = true;
      } in
      let with_ : List ℕ → StreamingBz2Read S = λ bytes. record t { comp_buf = bytes } in
      let done : fill_decode (with_ (s.comp_buf ++ contents ++ [])) ≡ ok (none, drained t out) =
        ap (λ bytes. fill_decode (with_ bytes)) (append_nil (s.comp_buf ++ contents))
        ∙ fill_decode-Decodes t out refl decodes in
      (s', rw (open_, loaded) done)

  read_filled :
      (fuel chunk room : ℕ) (s t : StreamingBz2Read S) (out : List ℕ)
      → ltb s.out_pos (length s.out_buf) ≡ false
      → fill source fuel chunk s ≡ ok (none, drained t out)
      → read source fuel chunk room s
        ≡ ok (inl (take room out), record (drained t out) { out_pos = min room (length out) })
  unfolding read
  read_filled fuel chunk room s t out served filled =
      let left : StreamingBz2Read S = record (drained t out) { out_pos = min room (length out) } in
      let plus : 0 + min room (length out) ≡ min room (length out) = omega arith in
      let finish : Bool → Result ((List ℕ ⊎ IoError) × StreamingBz2Read S) = λ nothing.
        elim nothing [
          | true ↦ ok (inl [], drained t out)
          | false ↦ ok (inl (serve room (drained t out)).0, (serve room (drained t out)).1)
        ] in
      elim (Bool-cases (length out == 0)) [
        | inl empty ↦
            let nothing : take room out ≡ [] = take_none room out empty in
            let start : min room (length out) ≡ 0 = ground arith in
            rw (served, filled, read) (ap finish empty ∙ rw (nothing, start) refl)
        | inr more ↦
            rw (served, filled, read)
              (ap finish more
                ∙ ap (λ n. ok (inl (take (min room (length out)) out), record left { out_pos = n }))
                    plus
                ∙ ap (λ ys. ok (inl ys, left)) (take-min room out))
      ]

  -- From a source that does not fail, and has fewer bytes left than a chunk, with enough rounds for
  -- them and the interruptions: if the output of the reader is all served, and all the blocks of
  -- what it holds and those bytes decode, then `read` gives the first bytes of their outputs, as
  -- many as its buffer has room for, or all, without an error, and the reader after it has the
  -- others to serve, holds nothing more to decode, and knows that the source has ended.
  pub read-Decodes :
      (fuel chunk room : ℕ) (s : StreamingBz2Read S) (contents out : List ℕ)
      → ltb s.out_pos (length s.out_buf) ≡ false
      → s.source_eof ≡ false
      → law.Has s.source contents
      → length contents < chunk
      → chunk + law.patience s.source < fuel
      → Decodes
          (s.comp_buf ++ contents)
          s.max_blocksize
          (find_all_blocks (s.comp_buf ++ contents))
          out
      → (s' : StreamingBz2Read S) × (read source fuel chunk room s ≡ ok (inl (take room out), s'))
        × (drop s'.out_pos s'.out_buf ≡ drop room out)
        × (s'.comp_buf ≡ [])
        × (s'.source_eof ≡ true)
  read-Decodes fuel chunk room s contents out served open_ has short enough decodes =
      let (source', filled) =
        fill-Decodes fuel chunk s contents out open_ has short enough decodes in
      let t : StreamingBz2Read S = record s { source = source'; source_eof = true } in
      (
        record (drained t out) { out_pos = min room (length out) },
        read_filled fuel chunk room s t out served filled,
        drop-min room out,
        refl,
        refl,
      )
