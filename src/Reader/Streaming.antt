-- ===== src/Reader/Streaming.antt =====
-- src/reader.rs, `StreamingBz2Read`: the input is read in chunks, and the complete blocks of each
-- are decoded. A method gives its result and the reader after it, an error's too. The size of a
-- chunk is a parameter.
use lbzip2_rs.Prelude.{
  ℕ, zero, suc, ◌+◌, ◌-◌, ◌*◌, ◌/◌, min, Bool, true, false, not, ◌&&◌, ◌||◌, ◌⊎◌, inl, inr, List,
  [], ◌∷◌, ◌++◌, length, get_or, get_elem?, take, drop, replicate, Option, none, some, String,
  Result, ok, err, panic, ◌>>=◌, ◌>>◌, fail_if, ltb, leb, ◌==◌, if◌then◌else◌,
}
use lbzip2_rs.Source.{got, interrupted, failed, Source}
use lbzip2_rs.ParMap.{par_map}
use lbzip2_rs.Scan.Defs.{BlockBoundary, find_all_blocks}
use lbzip2_rs.Parallel.{worker, any_panic}

-- `CHUNK_BYTES`.
abbrev pub chunk_bytes : ℕ
chunk_bytes = 100 * 1024 * 1024

-- An `io::Error`: the source's, or `InvalidData` with a block's.
pub data IoError : Type 0 where
  source_error : String → IoError
  invalid_data : String → IoError

pub record StreamingBz2Read (S : Type 0) : Type 0 where
  pub source : S
  pub max_blocksize : ℕ
  pub comp_buf : List ℕ
  pub out_buf : List ℕ
  pub out_pos : ℕ
  pub source_eof : Bool

-- The checks on the four bytes of the header, which give the block size.
unfoldable pub header_blocksize : List ℕ → Result ℕ
header_blocksize header = do
  fail_if (not (get_or header 0 0 == b'B' && get_or header 1 0 == b'Z')) "bad bzip2 signature"
  fail_if (not (get_or header 2 0 == b'h')) "only huffman bzip2 supported"
  let level = get_or header 3 0
  fail_if (not (leb b'1' level && leb level b'9')) "invalid bzip2 block size level"
  ok (100_000 * (level - b'0'))

-- What the loop of `fill` that reads the source leaves: the bytes read, and whether the end or an
-- error stopped it.
pub record Load (S : Type 0) : Type 0 where
  pub bytes : List ℕ
  pub at_end : Bool
  pub error : Option String
  pub source : S

module _ {S : Type 0} (source : Source S) where
  unfoldable pub new : S → Result (StreamingBz2Read S)
  unfolding header_blocksize
  new s =
      let (header, s') = source.read_exact 4 s in
      elim header [
        | none ↦ err "failed to read bzip2 header"
        | some bytes ↦ do
          max_blocksize ← header_blocksize bytes
          ok (record {
            source = s';
            max_blocksize = max_blocksize;
            comp_buf = bytes;
            out_buf = [];
            out_pos = 0;
            source_eof = false;
          })
      ]

  -- The loop with `room` bytes of the chunk left to fill. A source that interrupts for ever is a
  -- loop out of its fuel.
  unfoldable pub load : ℕ → ℕ → S → Result (Load S)
  load zero room s = panic
  load (suc fuel) room s = elim (ltb 0 room) [
    | false ↦ ok (record { bytes = []; at_end = false; error = none; source = s })
    | true ↦
        let (outcome, s') = source.read room s in
        elim outcome [
          | got xs ↦ elim xs [
            | [] ↦ ok (record { bytes = []; at_end = true; error = none; source = s' })
            | x ∷ more ↦ do
              rest ← load fuel (room - length (x ∷ more)) s'
              ok (record rest { bytes = (x ∷ more) ++ rest.bytes })
          ]
          | interrupted ↦ load fuel room s'
          | failed e ↦ ok (record { bytes = []; at_end = false; error = some e; source = s' })
        ]
  ]

-- The results in order: the outputs up to the first error, and that error. A panic of a worker is
-- none of these.
abbrev pub gather : List (Result (List ℕ)) → List ℕ × Option String
gather [] = ([], none)
gather (ok v ∷ rs) = (v ++ (gather rs).0, (gather rs).1)
gather (err e ∷ rs) = ([], some e)
gather (panic ∷ rs) = ([], none)

-- `comp_buf` from the first block that is not decoded.
abbrev pub undecoded : List ℕ → List BlockBoundary → ℕ → List ℕ
undecoded comp_buf boundaries decode_count = elim (get_elem? boundaries decode_count) [
  | some b ↦ drop (b.bit_offset / 8) comp_buf
  | none ↦ []
]

module _ {S : Type 0} where
  -- The blocks that `fill` decodes: all at the end of the source, else all but the last.
  abbrev pub decode_count : StreamingBz2Read S → ℕ
  decode_count s = let n = length (find_all_blocks s.comp_buf) in if s.source_eof then n else n - 1

  -- The part of `fill` that decodes those blocks.
  unfoldable pub decode_complete : StreamingBz2Read S → Result (Option IoError × StreamingBz2Read S)
  unfolding find_all_blocks par_map
  decode_complete s =
      let boundaries = find_all_blocks s.comp_buf in
      let blocks = take (decode_count s) boundaries in
      let results = par_map (length blocks) (worker s.comp_buf s.max_blocksize blocks) in
      let (output, error) = gather results in
      elim (any_panic results) [
        | true ↦ panic
        | false ↦ elim error [
          | some e ↦ ok (some (invalid_data e), record s { out_buf = output; out_pos = 0 })
          | none ↦ ok (
            none,
            record s {
              out_buf = output;
              out_pos = 0;
              comp_buf = undecoded s.comp_buf boundaries (decode_count s);
            },
          )
        ]
      ]

  -- `fill` behind its reading.
  unfoldable pub fill_decode : StreamingBz2Read S → Result (Option IoError × StreamingBz2Read S)
  unfolding find_all_blocks decode_complete
  fill_decode s =
      let n = length (find_all_blocks s.comp_buf) in
      elim (n == 0) [
        | true ↦ ok (
          none,
          (if s.source_eof then record s { comp_buf = []; out_buf = []; out_pos = 0 } else s),
        )
        | false ↦ elim (s.source_eof || ltb 1 n) [ true ↦ decode_complete s | false ↦ ok (none, s) ]
      ]

  -- The reader behind the loop: the chunk is cut to what was read, but not after an error.
  abbrev pub loaded : ℕ → StreamingBz2Read S → Load S → StreamingBz2Read S
  loaded chunk s l =
      let padding : List ℕ = elim l.error [
        | none ↦ []
        | some e ↦ replicate (chunk - length l.bytes) 0
      ] in
      record s {
        comp_buf = s.comp_buf ++ l.bytes ++ padding;
        source_eof = l.at_end;
        source = l.source;
      }

  -- The bytes copied to a buffer of `room` bytes.
  abbrev pub serve : ℕ → StreamingBz2Read S → List ℕ × StreamingBz2Read S
  serve room s =
      let available = drop s.out_pos s.out_buf in
      let n = min room (length available) in
      (take n available, record s { out_pos = s.out_pos + n })

module _ {S : Type 0} (source : Source S) where
  -- `chunk` is the size of a chunk.
  unfoldable pub fill : ℕ → ℕ → StreamingBz2Read S → Result (Option IoError × StreamingBz2Read S)
  unfolding load fill_decode
  fill fuel chunk s = elim (s.source_eof && leb (length s.comp_buf) 4) [
    | true ↦ ok (none, record s { out_buf = []; out_pos = 0 })
    | false ↦ elim s.source_eof [
      | true ↦ fill_decode s
      | false ↦ do
        l ← load source fuel chunk s.source
        elim l.error [
          | some e ↦ ok (some (source_error e), loaded chunk s l)
          | none ↦ fill_decode (loaded chunk s l)
        ]
    ]
  ]

  -- A piece, or an error, and the reader behind it.
  unfoldable pub read :
      ℕ → ℕ → ℕ → StreamingBz2Read S → Result ((List ℕ ⊎ IoError) × StreamingBz2Read S)
  unfolding fill
  read fuel chunk room s = elim (ltb s.out_pos (length s.out_buf)) [
    | true ↦ ok (inl (serve room s).0, (serve room s).1)
    | false ↦ do
      filled ← fill fuel chunk s
      elim filled.0 [
        | some e ↦ ok (inr e, filled.1)
        | none ↦ elim (length filled.1.out_buf == 0) [
          | true ↦ ok (inl [], filled.1)
          | false ↦ ok (inl (serve room filled.1).0, (serve room filled.1).1)
        ]
      ]
  ]
