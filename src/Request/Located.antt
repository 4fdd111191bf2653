-- ===== src/Request/Located.antt =====
-- Where the slices of a request go in its block, and what the block shall hold in the end.
use prob_alimama_2023_a.Base.{
  ℕ, ◌+◌, ◌^◌, ◌≤◌, ◌<◌, ◌≡◌, refl, sym, ◌∙◌, [], ◌∷◌, ◌++◌, List, arith, length, get_elem?, Bytes,
  All, append_assoc, length-append,
}
use prob_alimama_2023_a.Base.Words.{to_u64-to_int}
use prob_alimama_2023_a.Base.Buffer.{get_elem?-append, get_elem?-append_left}
use prob_alimama_2023_a.Request.{SliceRequest, SliceData, locate, add_size}
use prob_alimama_2023_a.Request.Copies.{Source}

-- A predicate of every slice of a request with its place, from `size` on.
abbrev pub AllLocated {ℓ} : (SliceRequest → SliceData → Type ℓ) → ℕ → List SliceRequest → Type ℓ
AllLocated P size [] = Unit
AllLocated P size (sr ∷ srs) = P sr (locate sr size) × AllLocated P (add_size size sr.data_len) srs

pub AllLocated-of {ℓ} :
    (P : SliceRequest → SliceData → Type ℓ)
    → ((sr : SliceRequest) (sd : SliceData) → P sr sd)
    → (size : ℕ) (srs : List SliceRequest) → AllLocated P size srs
AllLocated-of P f size [] = tt
AllLocated-of P f size (sr ∷ srs) =
    (f sr (locate sr size), AllLocated-of P f (add_size size sr.data_len) srs)

abbrev pub total_len : List SliceRequest → ℕ
total_len [] = 0
total_len (sr ∷ srs) = sr.data_len + total_len srs

-- The bytes wanted for all slices, in order.
abbrev pub join : (SliceRequest → Bytes) → List SliceRequest → Bytes
join want [] = []
join want (sr ∷ srs) = want sr ++ join want srs

-- A slice request that the code can serve: its numbers fit an int, and its bytes the buffer.
pub record Good (want : SliceRequest → Bytes) (sr : SliceRequest) : Type 0 where
  pub partition_fits : sr.slice_partition < 2 ^ 31
  pub start_fits : sr.data_start < 2 ^ 31
  pub short : sr.data_len ≤ 128
  pub long : length (want sr) ≡ sr.data_len

pub record Placed (want : SliceRequest → Bytes) (goal : Bytes) (n : ℕ) (sr : SliceRequest)
    (sd : SliceData) : Type 0 where
  pub same_partition : sd.slice_partition ≡ sr.slice_partition
  pub same_start : sd.start ≡ sr.data_start
  pub same_len : sd.len ≡ sr.data_len
  pub source : Source goal sd (want sr)
  pub short : sd.len ≤ 128
  pub inside : sd.pos + sd.len ≤ n

locate_fields :
    (want : SliceRequest → Bytes) (sr : SliceRequest) (size : ℕ)
    → Good want sr
    → locate sr size ≡ record {
      slice_partition = sr.slice_partition;
      start = sr.data_start;
      len = sr.data_len;
      pos = size;
    }
unfolding locate
locate_fields want sr size g = ground (
  arith,
  to_u64-to_int sr.slice_partition g.partition_fits,
  to_u64-to_int sr.data_start g.start_fits,
  to_u64-to_int sr.data_len (omega (arith, g.short)),
)

pub add_size_lem : (size len : ℕ) → size + len < 2 ^ 31 → add_size size len ≡ size + len
unfolding add_size
add_size_lem size len h = ground arith

locate-Placed :
    (want : SliceRequest → Bytes) (n : ℕ) (goal pre rest : Bytes) (size : ℕ) (sr : SliceRequest)
    → Good want sr
    → goal ≡ pre ++ (want sr ++ rest)
    → size ≡ length pre
    → size + sr.data_len ≤ n
    → Placed want goal n sr (locate sr size)
locate-Placed want n goal pre rest size sr g e s fits = rw (locate_fields want sr size g) (record {
  same_partition = refl;
  same_start = refl;
  same_len = refl;
  source = record { long = g.long; same = λ i lt. same i (omega (arith, g.long)) };
  short = g.short;
  inside = fits;
})
  where
    same : (i : ℕ) → i < length (want sr) → get_elem? (want sr) i ≡ get_elem? goal (size + i)
    same i lt =
        rw (e, s)
          (sym
            (get_elem?-append pre (want sr ++ rest) i ∙ get_elem?-append_left (want sr) rest i lt))

-- Slice after slice, the places are those of the wanted bytes laid end to end.
pub All-Placed :
    (want : SliceRequest → Bytes) (n : ℕ) (goal pre : Bytes) (size : ℕ) (srs : List SliceRequest)
    → n < 2 ^ 31
    → goal ≡ pre ++ join want srs
    → size ≡ length pre
    → size + total_len srs ≤ n
    → All (Good want) srs
    → AllLocated (Placed want goal n) size srs
All-Placed want n goal pre size [] small e s fits h = tt
All-Placed want n goal pre size (sr ∷ srs) small e s fits (g, h) =
    let bound : size + sr.data_len ≤ n = omega arith in
    let next = add_size_lem size sr.data_len (omega arith) in
    (
      locate-Placed want n goal pre (join want srs) size sr g e s bound,
      All-Placed want n goal (pre ++ want sr) (add_size size sr.data_len) srs small
          (e ∙ sym (append_assoc pre (want sr) (join want srs)))
          (omega (arith, next, length-append pre (want sr), g.long)) (omega (arith, next)) h,
    )
