-- ===== src/Request/Copies.antt =====
-- Copies of slices into a result's block, measured against the bytes that the block shall hold.
use prob_alimama_2023_a.Base.{
  ℕ, ◌+◌, ◌-◌, ◌≤◌, ◌<◌, ◌≡◌, refl, ◌∙◌, sym, ◌⊎◌, inl, inr, some, arith, dec_le, dec_lt, length,
  get_elem?, take, drop, Bytes, ltb, leb, ◌&&◌, if◌then◌else◌,
}
use prob_alimama_2023_a.Base.Buffer.{
  overlay_at, store, fetch, length-overlay_at, get_elem?-overlay_at, get_elem?-drop, take-ext,
}
use prob_alimama_2023_a.Request.{SliceData}

-- The part of the block that belongs to `sd` holds what `goal` holds there.
abbrev pub Right : (goal dst : Bytes) → SliceData → Type 0
Right goal dst sd = (i : ℕ) → i < sd.len → get_elem? dst (sd.pos + i) ≡ get_elem? goal (sd.pos + i)

-- A byte of the new block is the old one, or right.
pub record Follows (goal dst dst' : Bytes) : Type 0 where
  pub same_length : length dst' ≡ length dst
  pub each : (j : ℕ) → (get_elem? dst' j ≡ get_elem? dst j) ⊎ (get_elem? dst' j ≡ get_elem? goal j)

-- `src` is the part of `goal` that belongs to `sd`.
pub record Source (goal : Bytes) (sd : SliceData) (src : Bytes) : Type 0 where
  pub long : length src ≡ sd.len
  pub same : (i : ℕ) → i < sd.len → get_elem? src i ≡ get_elem? goal (sd.pos + i)

pub Follows-refl : (goal dst : Bytes) → Follows goal dst dst
Follows-refl goal dst = record { same_length = refl; each = λ j. inl refl }

pub Follows-trans : {goal a b c : Bytes} → Follows goal a b → Follows goal b c → Follows goal a c
Follows-trans f g = record {
  same_length = g.same_length ∙ f.same_length;
  each = λ j. ground (arith, f.each j, g.each j);
}

pub Right-Follows :
    (goal dst dst' : Bytes) (sd : SliceData)
    → Follows goal dst dst'
    → Right goal dst sd
    → Right goal dst' sd
Right-Follows goal dst dst' sd f r i lt = ground (arith, f.each (sd.pos + i), r i lt)

-- A copy within the block succeeds, makes its part right and spoils no other.
pub store-Source :
    {goal dst src : Bytes} (sd : SliceData)
    → sd.pos + sd.len ≤ length dst
    → Source goal sd src
    → (dst' : Bytes) × (store dst sd.pos src ≡ some dst')
      × Follows goal dst dst'
      × Right goal dst' sd
unfolding store
store-Source {goal} {dst} {src} sd fits s = (
  overlay_at sd.pos src dst,
  ground (arith, s.long),
  record { same_length = length-overlay_at sd.pos src dst; each = λ j. each_copied j },
  copied,
)
  where
    at :
        (j : ℕ)
        → get_elem? (overlay_at sd.pos src dst) j ≡ (
            if leb sd.pos j && ltb j (sd.pos + length src)
            then get_elem? src (j - sd.pos)
            else get_elem? dst j)
    at j = get_elem?-overlay_at sd.pos src dst j (omega (arith, s.long))

    copied : Right goal (overlay_at sd.pos src dst) sd
    copied i lt = ground (arith, at (sd.pos + i), s.same i lt, s.long, cancel i)
      where
        cancel : (i : ℕ) → sd.pos + i - sd.pos ≡ i
        cancel i = omega arith

    each_copied :
        (j : ℕ)
        → (get_elem? (overlay_at sd.pos src dst) j ≡ get_elem? dst j)
          ⊎ (get_elem? (overlay_at sd.pos src dst) j ≡ get_elem? goal j)
    each_copied j = elim (dec_le sd.pos j) [
      | no before ↦ inl (ground (arith, at j))
      | yes from ↦ elim (dec_lt j (sd.pos + sd.len)) [
        | no after ↦ inl (ground (arith, at j, s.long))
        | yes inside ↦
            let back : sd.pos + (j - sd.pos) ≡ j = omega arith in
            let room : j - sd.pos < sd.len = omega arith in
            inr (ground (arith, at j, s.long, s.same (j - sd.pos) room, back))
      ]
    ]

-- A part that is right reads back as the same part of `goal`.
pub fetch-Right :
    (goal dst : Bytes) (sd : SliceData)
    → sd.pos + sd.len ≤ length dst
    → Right goal dst sd
    → fetch dst sd.pos sd.len ≡ some (take sd.len (drop sd.pos goal))
unfolding fetch
fetch-Right goal dst sd fits r =
    ground (arith, take-ext sd.len (drop sd.pos dst) (drop sd.pos goal) (λ i lt. same i lt))
  where
    same : (i : ℕ) → i < sd.len → get_elem? (drop sd.pos dst) i ≡ get_elem? (drop sd.pos goal) i
    same i lt = get_elem?-drop sd.pos dst i ∙ r i lt ∙ sym (get_elem?-drop sd.pos goal i)
