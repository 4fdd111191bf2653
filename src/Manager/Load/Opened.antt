-- ===== src/Manager/Load/Opened.antt =====
-- code/src/model_hander.cpp: what each reader of a new handler has loaded.
use prob_alimama_2023_a.Base.{
  ℕ, zero, suc, ◌≡◌, ◌≢◌, refl, sym, subst, ap, ◌∙◌, Option, some, List, [], ◌∷◌, get_elem?, arith,
  ◌==◌, if◌then◌else◌, Bytes,
}
use prob_alimama_2023_a.Model.{SliceMeta}
use prob_alimama_2023_a.Handler.{SliceReader, Readers, reader_at, load_at, load_slices}

same_slice : {a b : SliceMeta} → some a ≡ some b → a ≡ b
same_slice e = cc e

module _ (reader : SliceReader) where
  open reader use {fresh, load}

  reader_at-load_at :
      (key other : ℕ) (file : Option Bytes) (rs : Readers reader)
      → reader_at reader other (load_at reader key file rs) ≡ (
          if key == other then load file (reader_at reader other rs) else reader_at reader other rs)
  unfolding reader_at load_at
  reader_at-load_at key other file [] = refl
  reader_at-load_at key other file ((k, r) ∷ rs) =
      ground (arith, reader_at-load_at key other file rs)

  -- No slice of the list has the number.
  abbrev Without : ℕ → List SliceMeta → Type 0
  Without n slices = (k : ℕ) (s : SliceMeta) → get_elem? slices k ≡ some s → s.slice_no ≢ n

  load_slices-Without :
      (files : Bytes → Option Bytes) (slices : List SliceMeta) (rs : Readers reader) (n : ℕ)
      → Without n slices
      → reader_at reader n (load_slices reader files slices rs) ≡ reader_at reader n rs
  unfolding load_slices
  load_slices-Without files [] rs n w = refl
  load_slices-Without files (slice ∷ slices) rs n w =
      load_slices-Without files slices
        (load_at reader slice.slice_no (files slice.local_slice_path) rs) n (λ k s e. w (suc k) s e)
      ∙ ground (
        arith,
        reader_at-load_at slice.slice_no n (files slice.local_slice_path) rs,
        w 0 slice refl,
      )

  -- Different places of the list hold different slice numbers.
  abbrev pub Distinct : List SliceMeta → Type 0
  Distinct slices =
      (j k : ℕ) (a b : SliceMeta)
      → get_elem? slices j ≡ some a
      → get_elem? slices k ≡ some b
      → j ≢ k
      → a.slice_no ≢ b.slice_no

  pub load_slices-reader :
      (files : Bytes → Option Bytes) (slices : List SliceMeta) (rs : Readers reader) (k : ℕ)
      (s : SliceMeta)
      → Distinct slices
      → get_elem? slices k ≡ some s
      → reader_at reader s.slice_no (load_slices reader files slices rs)
        ≡ load (files s.local_slice_path) (reader_at reader s.slice_no rs)
  unfolding load_slices
  load_slices-reader files [] rs k s d e = cc e
  load_slices-reader files (slice ∷ slices) rs zero s d e =
      subst
        (λ z.
          reader_at reader z.slice_no (
            load_slices reader files slices
              (load_at reader slice.slice_no (files slice.local_slice_path) rs))
          ≡ load (files z.local_slice_path) (reader_at reader z.slice_no rs))
        (same_slice e)
        (load_slices-Without files slices
            (load_at reader slice.slice_no (files slice.local_slice_path) rs) slice.slice_no
            (λ k a h q. d zero (suc k) slice a refl h (λ x. omega (arith, x)) (sym q))
          ∙ ground (
            arith,
            reader_at-load_at slice.slice_no slice.slice_no (files slice.local_slice_path) rs,
          ))
  load_slices-reader files (slice ∷ slices) rs (suc k) s d e =
      load_slices-reader files slices
        (load_at reader slice.slice_no (files slice.local_slice_path) rs) k s
        (λ i j a b x y n. d (suc i) (suc j) a b x y (λ q. n (omega (arith, q)))) e
      ∙ ap (load (files s.local_slice_path)) (
          ground (
            arith,
            reader_at-load_at slice.slice_no s.slice_no (files slice.local_slice_path) rs,
            d zero (suc k) slice s refl e (λ x. omega (arith, x)),
          ))
