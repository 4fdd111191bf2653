-- ===== src/GenData/Content.antt =====
-- testbench/gen_data.cpp, testbench/hash.hpp: the content of the slices, and the check that three
-- versions of a slice differ. Sizes and counts below 2 ^ 31 are numbers; `none` is an index past a
-- vector.
use prob_alimama_2023_a.Base.{
  ℕ, zero, suc, ◌*◌, ◌/◌, ◌%◌, ◌||◌, Bool, Option, some, ◌>>=◌, List, [], ◌∷◌, ◌++◌, get_elem?,
  drop, ◌==◌, if◌then◌else◌, Bytes,
}
use prob_alimama_2023_a.Config.{Version}
use Prim.Native.Nat.{bit_xor}

unfoldable pub hash_sample : ℕ → ℕ → ℕ
hash_sample a b = bit_xor a b

unfoldable pub myhash : ℕ → ℕ → ℕ
unfolding hash_sample
myhash a b = hash_sample a b

-- An int in memory, the lowest byte first.
unfoldable pub int_bytes : ℕ → Bytes
int_bytes x = x % 256 ∷ x / 256 % 256 ∷ x / 65536 % 256 ∷ x / 16777216 % 256 ∷ []

-- The loop from word `i` on, with `n` words to go.
unfoldable pub gen_words : (i n seeda : ℕ) → Bytes
unfolding myhash int_bytes
gen_words i zero seeda = []
gen_words i (suc n) seeda = int_bytes (myhash i seeda) ++ gen_words (suc i) n seeda

-- What `outfile` gets; `old` is what the memory of the buffer held.
unfoldable pub gen_data : (file_size seeda : ℕ) (old : Bytes) → Bytes
unfolding gen_words
gen_data file_size seeda old = gen_words 0 (file_size / 4) seeda ++ drop (file_size / 4 * 4) old

unfoldable pub clash : (j sa sb sc : ℕ) → Bool
unfolding myhash
clash j sa sb sc =
    let a = myhash j sa in let b = myhash j sb in let c = myhash j sc in a == b || b == c || a == c

-- What the inner loop prints, from word `j` on, with `n` words to go.
unfoldable pub check_slice : (i j n sa sb sc : ℕ) → List ℕ
unfolding clash
check_slice i j zero sa sb sc = []
check_slice i j (suc n) sa sb sc =
    (if clash j sa sb sc then i ∷ [] else []) ++ check_slice i (suc j) n sa sb sc

-- `config.versions[v].slices[i].seed_a`
unfoldable pub seed_of : List Version → (v i : ℕ) → Option ℕ
seed_of versions v i = do version ← get_elem? versions v; get_elem? version.slices i

-- The outer loop, from slice `i` on, with `n` slices to go.
unfoldable pub conflicts : (words : ℕ) → List Version → (i n : ℕ) → Option (List ℕ)
unfolding check_slice seed_of
conflicts words versions i zero = some []
conflicts words versions i (suc n) = do
  sa ← seed_of versions 0 i
  sb ← seed_of versions 1 i
  sc ← seed_of versions 2 i
  rest ← conflicts words versions (suc i) n
  some (check_slice i 0 words sa sb sc ++ rest)
