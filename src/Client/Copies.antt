-- ===== src/Client/Copies.antt =====
-- code/src/model_async_client.cpp: what a good reply does to the block.
use prob_alimama_2023_a.Base.{
  ℕ, ◌+◌, ◌≤◌, ◌≡◌, refl, sym, ◌∙◌, ap, some, [], ◌∷◌, ◌++◌, List, arith, length, length-append,
  take, Bytes, All,
}
use prob_alimama_2023_a.Base.Buffer.{take-length, fetch, fetch_front}
use prob_alimama_2023_a.Request.{SliceData}
use prob_alimama_2023_a.Request.Copies.{
  Right, Follows, Source, Follows-refl, Follows-trans, Right-Follows, store-Source,
}
use prob_alimama_2023_a.Client.{copy_slices}

-- The pieces of a reply, each the bytes of its slice, whose part lies within n bytes.
pub data Answers (goal : Bytes) (n : ℕ) : List SliceData → List Bytes → Type 0 where
  done : Answers goal n [] []
  next :
      {sd : SliceData} {sds : List SliceData} {piece : Bytes} {pieces : List Bytes}
      → Source goal sd piece
      → sd.pos + sd.len ≤ n
      → Answers goal n sds pieces
      → Answers goal n (sd ∷ sds) (piece ∷ pieces)

fetch_piece :
    (piece : Bytes) (len : ℕ) → length piece ≡ len → fetch (piece ++ 0 ∷ []) 0 len ≡ some piece
fetch_piece piece len e =
    fetch_front (piece ++ 0 ∷ []) len (omega (arith, e, length-append piece (0 ∷ [])))
    ∙ ap some (ap (λ (k : ℕ). take k (piece ++ 0 ∷ [])) (sym e) ∙ take-length piece (0 ∷ []))

pub copy_slices-Answers :
    {goal : Bytes} {n : ℕ} {sds : List SliceData} {pieces : List Bytes} (dst : Bytes)
    → length dst ≡ n
    → Answers goal n sds pieces
    → (dst' : Bytes) × (copy_slices (length sds) sds pieces dst ≡ some dst')
      × Follows goal dst dst'
      × All (Right goal dst') sds
unfolding copy_slices
copy_slices-Answers {goal} dst long done = (dst, refl, Follows-refl goal dst, tt)
copy_slices-Answers {goal} dst long (next {sd} {piece = piece} s fits a) =
    let (mid, stored, f, r) = store-Source sd (omega (arith, long)) s in
    let (dst', rest, g, rs) = copy_slices-Answers mid (f.same_length ∙ long) a in
    (
      dst',
      ground (arith, fetch_piece piece sd.len s.long, stored, rest),
      Follows-trans f g,
      (Right-Follows goal mid dst' sd g r, rs),
    )
