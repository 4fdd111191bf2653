-- ===== src/Samples.antt =====
-- Concrete data for the tests: a slice reader that keeps its file, two nodes with a slice each, and
-- a block.
use prob_alimama_2023_a.Base.{
  ℕ, ◌≡◌, Option, none, some, List, [], ◌∷◌, take, drop, length, length-replicate, replicate, Bytes,
  codes, ◌==◌, if◌then◌else◌,
}
use prob_alimama_2023_a.Allocator.{k_block_size}
use prob_alimama_2023_a.Request.{SliceRequest}
use prob_alimama_2023_a.Handler.{SliceReader, Readers}

abbrev pub kept_or : Option Bytes → Bytes → Bytes
kept_or none r = r
kept_or (some c) r = c

abbrev pub memory_reader : SliceReader
memory_reader = record {
  Reader = Bytes;
  fresh = [];
  load = kept_or;
  read = λ r start len. take len (drop start r);
  unload = λ r. [];
}

abbrev pub two_nodes : ℕ → Readers memory_reader
two_nodes k =
    if k == 0 then (0, codes "weights of slice zero") ∷ [] else (1, codes "and of slice one") ∷ []

abbrev pub two_slices : List SliceRequest
two_slices =
    record { slice_partition = 0; data_start = 3; data_len = 4 }
    ∷ record { slice_partition = 1; data_start = 0; data_len = 6 }
    ∷ record { slice_partition = 0; data_start = 11; data_len = 5 }
    ∷ []

-- Shut, so that no test runs through its 65536 bytes.
pub block : Bytes
block = replicate k_block_size 0

pub length-block : length block ≡ k_block_size
unfolding block
length-block = length-replicate {A = ℕ} k_block_size 0
