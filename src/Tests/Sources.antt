-- ===== src/Tests/Sources.antt =====
-- The theorems on the loop of src/bin/lbunzip2.rs that reads, for a source over a list of bytes that
-- gives at most three bytes at a time and is interrupted first.
use lbzip2_rs.Prelude.{
  ℕ, zero, suc, ◌<◌, min, ◌≡◌, refl, sym, ◌∙◌, arith, List, [], ◌∷◌, length-take, take, drop,
  take-append-drop, none, inl, ok, false, true,
}
use lbzip2_rs.Source.{ReadOutcome, got, interrupted, Source, Gives, IsSource, read_chunk}
use lbzip2_rs.Source.Chunks.{read_chunk-take}
use lbzip2_rs.Reader.Streaming.{StreamingBz2Read, read}
use lbzip2_rs.Reader.Last.{read-Decodes}
use lbzip2_rs.Tests.Bytes.{hello}
use lbzip2_rs.Tests.Streams.{text, hello_all-Decodes}

-- The bytes left, and the interruptions to come.
record Slow : Type 0 where
  left : List ℕ
  interruptions : ℕ

slow_read : ℕ → Slow → ReadOutcome × Slow
slow_read room s = elim s.interruptions [
  | zero ↦ (got (take (min room 3) s.left), record s { left = drop (min room 3) s.left })
  | suc n ↦ (interrupted, record s { interruptions = n })
]

slow : Source Slow
unfolding slow_read
slow = record { read = slow_read; read_exact = λ n s. (none, s) }

take_nothing : (n : ℕ) (xs : List ℕ) → 0 < n → take n xs ≡ [] → xs ≡ []
take_nothing zero xs lt e = absurd (omega arith)
take_nothing (suc n) [] lt e = refl
take_nothing (suc n) (x ∷ xs) lt e = cc

abbrev SlowHas : Slow → List ℕ → Type 0
SlowHas s contents = s.left ≡ contents

abbrev slow_patience : Slow → ℕ
slow_patience s = s.interruptions

slow-Gives :
    (room : ℕ) (left : List ℕ) (interruptions : ℕ) (contents : List ℕ)
    → 0 < room
    → left ≡ contents
    → (let s : Slow = record { left = left; interruptions = interruptions } in
        Gives SlowHas slow_patience room s contents (slow.read room s))
unfolding slow slow_read
slow-Gives room left zero contents lt has = (
  omega (arith, length-take (min room 3) left),
  λ e. sym has ∙ take_nothing (min room 3) left (omega arith) e,
  drop (min room 3) left,
  sym has ∙ sym (take-append-drop (min room 3) left),
  refl,
  omega arith,
)
slow-Gives room left (suc n) contents lt has = (has, omega arith)

slow-IsSource : IsSource Slow slow
slow-IsSource = record {
  Has = SlowHas;
  patience = slow_patience;
  gives = λ room s contents lt has. slow-Gives room s.left s.interruptions contents lt has;
}

five : Slow
five = record { left = 1 ∷ 2 ∷ 3 ∷ 4 ∷ 5 ∷ []; interruptions = 2 }

read_chunk-take_example :
    (s' : Slow) × (read_chunk slow 7 4 five ≡ ok (1 ∷ 2 ∷ 3 ∷ 4 ∷ [], s')) × SlowHas s' (5 ∷ [])
unfolding five slow-IsSource
read_chunk-take_example =
    read_chunk-take slow slow-IsSource 7 4 five (1 ∷ 2 ∷ 3 ∷ 4 ∷ 5 ∷ []) refl (omega arith)

-- The reader of hello.bz2 behind the header.
abbrev fresh : StreamingBz2Read Slow
fresh = record {
  source = record { left = drop 4 hello; interruptions = 2 };
  max_blocksize = 900_000;
  comp_buf = take 4 hello;
  out_buf = [];
  out_pos = 0;
  source_eof = false;
}

read-Decodes_example :
    (s' : StreamingBz2Read Slow) × (read slow 1_003 1_000 5 fresh ≡ ok (inl (take 5 text), s'))
    × (drop s'.out_pos s'.out_buf ≡ drop 5 text)
    × (s'.comp_buf ≡ [])
    × (s'.source_eof ≡ true)
unfolding slow-IsSource
read-Decodes_example =
    read-Decodes slow slow-IsSource 1_003 1_000 5 fresh (drop 4 hello) text refl refl refl
      (omega arith) (omega arith) hello_all-Decodes
