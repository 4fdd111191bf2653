-- ===== src/Base/Buffer.antt =====
-- Byte arrays: memcpy into one and out of one, `none` where it would leave the array.
use prob_alimama_2023_a.Base.{
  ℕ, zero, suc, ◌+◌, ◌-◌, ◌≤◌, ◌<◌, ◌≡◌, refl, ap, Option, none, some, List, [], ◌∷◌, ◌++◌, arith,
  leb, ltb, if◌then◌else◌, length, get_elem?, take, drop, Bytes, ◌&&◌,
}

-- The front of the array gets the bytes of `src`.
unfoldable pub overlay : Bytes → Bytes → Bytes
overlay [] dst = dst
overlay (b ∷ src) [] = []
overlay (b ∷ src) (a ∷ dst) = b ∷ overlay src dst

unfoldable pub overlay_at : ℕ → Bytes → Bytes → Bytes
unfolding overlay
overlay_at zero src dst = overlay src dst
overlay_at (suc pos) src [] = []
overlay_at (suc pos) src (a ∷ dst) = a ∷ overlay_at pos src dst

-- memcpy (dst + pos, src, n), where `src` holds the n bytes
unfoldable pub store : Bytes → ℕ → Bytes → Option Bytes
store dst pos src =
    if leb (pos + length src) (length dst) then some (overlay_at pos src dst) else none

-- The `len` bytes from `pos` on.
unfoldable pub fetch : Bytes → ℕ → ℕ → Option Bytes
fetch src pos len = if leb (pos + len) (length src) then some (take len (drop pos src)) else none

pub length-overlay : (src dst : Bytes) → length (overlay src dst) ≡ length dst
unfolding overlay
length-overlay [] dst = refl
length-overlay (b ∷ src) [] = refl
length-overlay (b ∷ src) (a ∷ dst) = ap suc (length-overlay src dst)

pub take-overlay :
    (src dst : Bytes) → length src ≤ length dst → take (length src) (overlay src dst) ≡ src
unfolding overlay
take-overlay [] dst h = refl
take-overlay (b ∷ src) [] h = absurd (omega arith)
take-overlay (b ∷ src) (a ∷ dst) h = ap (◌∷◌ b) (take-overlay src dst (omega arith))

pub length-overlay_at : (pos : ℕ) (src dst : Bytes) → length (overlay_at pos src dst) ≡ length dst
unfolding overlay_at
length-overlay_at zero src dst = length-overlay src dst
length-overlay_at (suc pos) src [] = refl
length-overlay_at (suc pos) src (a ∷ dst) = ap suc (length-overlay_at pos src dst)

get_elem?-overlay :
    (src dst : Bytes) (j : ℕ)
    → length src ≤ length dst
    → get_elem? (overlay src dst) j
      ≡ (if ltb j (length src) then get_elem? src j else get_elem? dst j)
unfolding overlay
get_elem?-overlay [] dst j h = ground arith
get_elem?-overlay (b ∷ src) [] j h = absurd (omega arith)
get_elem?-overlay (b ∷ src) (a ∷ dst) zero h = ground arith
get_elem?-overlay (b ∷ src) (a ∷ dst) (suc j) h = ground (arith, get_elem?-overlay src dst j)

-- A byte of the array after a copy: a copied one, or the old one.
pub get_elem?-overlay_at :
    (pos : ℕ) (src dst : Bytes) (j : ℕ)
    → pos + length src ≤ length dst
    → get_elem? (overlay_at pos src dst) j
      ≡ (if leb pos j && ltb j (pos + length src) then get_elem? src (j - pos) else get_elem? dst j)
unfolding overlay_at
get_elem?-overlay_at zero src dst j h = ground (arith, get_elem?-overlay src dst j)
get_elem?-overlay_at (suc pos) src [] j h = absurd (omega arith)
get_elem?-overlay_at (suc pos) src (a ∷ dst) zero h = ground arith
get_elem?-overlay_at (suc pos) src (a ∷ dst) (suc j) h =
    ground (arith, get_elem?-overlay_at pos src dst j)

pub store_front :
    (dst src : Bytes) → length src ≤ length dst → store dst 0 src ≡ some (overlay src dst)
unfolding store overlay_at
store_front dst src h = ground arith

pub fetch_front : (src : Bytes) (len : ℕ) → len ≤ length src → fetch src 0 len ≡ some (take len src)
unfolding fetch
fetch_front src len h = ground arith

module _ {ℓ} {A : Type ℓ} where
  pub get_elem?-drop :
      (p : ℕ) (xs : List A) (i : ℕ) → get_elem? (drop p xs) i ≡ get_elem? xs (p + i)
  get_elem?-drop zero xs i = ap (get_elem? xs) (omega arith)
  get_elem?-drop (suc p) [] i = refl
  get_elem?-drop (suc p) (x ∷ xs) i = ground (arith, get_elem?-drop p xs i)

  pub get_elem?-append :
      (xs ys : List A) (i : ℕ) → get_elem? (xs ++ ys) (length xs + i) ≡ get_elem? ys i
  get_elem?-append [] ys i = ap (get_elem? ys) (omega arith)
  get_elem?-append (x ∷ xs) ys i = ground (arith, get_elem?-append xs ys i)

  pub get_elem?-append_left :
      (xs ys : List A) (i : ℕ) → i < length xs → get_elem? (xs ++ ys) i ≡ get_elem? xs i
  get_elem?-append_left [] ys i h = elim h [ ]
  get_elem?-append_left (x ∷ xs) ys zero h = refl
  get_elem?-append_left (x ∷ xs) ys (suc i) h = get_elem?-append_left xs ys i (omega arith)

  -- Two lists that agree below `n` have the same first `n` elements.
  pub take-ext :
      (n : ℕ) (xs ys : List A)
      → ((i : ℕ) → i < n → get_elem? xs i ≡ get_elem? ys i)
      → take n xs ≡ take n ys
  take-ext zero xs ys h = refl
  take-ext (suc n) [] [] h = refl
  take-ext (suc n) [] (y ∷ ys) h = absurd (ground (arith, h 0))
  take-ext (suc n) (x ∷ xs) [] h = absurd (ground (arith, h 0))
  take-ext (suc n) (x ∷ xs) (y ∷ ys) h =
      ground (arith, h 0, take-ext n xs ys (λ i lt. h (suc i) (omega arith)))

  pub take-length : (xs ys : List A) → take (length xs) (xs ++ ys) ≡ xs
  take-length [] ys = refl
  take-length (x ∷ xs) ys = ap (◌∷◌ x) (take-length xs ys)

  pub take_all : (xs : List A) → take (length xs) xs ≡ xs
  take_all [] = refl
  take_all (x ∷ xs) = ap (◌∷◌ x) (take_all xs)
