-- ===== src/GenData.antt =====
-- testbench/gen_data.cpp: the text of the file model.meta that it writes for a version of a model.
pub mod Content
mod Seeds
mod Examples
use prob_alimama_2023_a.Base.{ℕ, zero, suc, ◌-◌, [], ◌∷◌, ◌++◌, Bytes, codes, length, replicate}
use prob_alimama_2023_a.Text.{to_string, newline}

-- "model_slice." and the number, padded with zeros to the length of the count
unfoldable pub slice_file_name : (slice_cnt i : ℕ) → Bytes
slice_file_name slice_cnt i =
    codes "model_slice."
    ++ (replicate (length (to_string slice_cnt) - length (to_string i)) b'0' ++ to_string i)

-- The line of slice i, without its end.
unfoldable pub slice_line : (slice_cnt slice_size i : ℕ) → Bytes
unfolding slice_file_name
slice_line slice_cnt slice_size i =
    codes "slice:"
    ++ (slice_file_name slice_cnt i ++ (b',' ∷ (codes "size:" ++ to_string slice_size)))

-- The loop from slice i on, with n slices to go.
unfoldable pub slice_lines : (slice_cnt slice_size i n : ℕ) → Bytes
unfolding slice_line
slice_lines slice_cnt slice_size i zero = []
slice_lines slice_cnt slice_size i (suc n) =
    slice_line slice_cnt slice_size i ++ (newline ∷ slice_lines slice_cnt slice_size (suc i) n)

unfoldable pub write_meta : (name : Bytes) (slice_cnt slice_size : ℕ) → Bytes
unfolding slice_lines
write_meta name slice_cnt slice_size =
    (codes "version:" ++ name)
    ++ (newline ∷ (newline ∷ slice_lines slice_cnt slice_size 0 slice_cnt))
