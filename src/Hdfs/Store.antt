-- ===== src/Hdfs/Store.antt =====
-- Concrete data for the tests of code/src/hdfs_hander.cpp: files in a list, read piece by piece.
use prob_alimama_2023_a.Base.{
  ℕ, zero, suc, ◌<◌, ◌≤◌, ◌≡◌, refl, Bool, true, false, Option, none, some, List, [], ◌∷◌, ◌++◌,
  arith, length, take, drop, Bytes, equal, if◌then◌else◌, take-append-drop, length-take, ap, ap₂,
  subst, sym, ◌∙◌, ◌≢◌,
}
use prob_alimama_2023_a.Hdfs.{HdfsApi, ReadLaws, Readable, Read, eof, failed, chunk}

unfoldable pub find_file : List (Bytes × Bytes) → Bytes → Option Bytes
unfolding equal
find_file [] path = none
find_file ((name, content) ∷ rest) path =
    if equal name path then some content else find_file rest path

unfoldable pub read_piece : Bytes → ℕ → Read Bytes
read_piece [] size = eof
read_piece (c ∷ cs) zero = eof
read_piece (c ∷ cs) (suc n) = chunk (c ∷ take n cs) (drop n cs)

abbrev present : Option Bytes → Bool
present none = false
present (some content) = true

abbrev pub store : List (Bytes × Bytes) → List Bytes → HdfsApi
store files entries = record {
  File = Bytes;
  exists = λ path. present (find_file files path);
  open_file = λ path. find_file files path;
  read = read_piece;
  list_directory = λ path. entries;
  contents = λ file. file;
}

pub read_piece-eof : (file : Bytes) (size : ℕ) → 0 < size → read_piece file size ≡ eof → file ≡ []
unfolding read_piece
read_piece-eof [] size h e = refl
read_piece-eof (c ∷ cs) zero h e = absurd (omega (arith, h))
read_piece-eof (c ∷ cs) (suc n) h e = cc e

pieces-eq : {b n x y : Bytes} → chunk b n ≡ chunk x y → (b ≡ x) × (n ≡ y)
pieces-eq e = (cc e, cc e)

pub read_piece-chunk :
    (file next : Bytes) (size : ℕ) (bytes : Bytes)
    → read_piece file size ≡ chunk bytes next
    → (file ≡ bytes ++ next) × (0 < length bytes) × (length bytes ≤ size)
unfolding read_piece
read_piece-chunk [] next size bytes e = cc e
read_piece-chunk (c ∷ cs) next zero bytes e = cc e
read_piece-chunk (c ∷ cs) next (suc n) bytes e =
    let (x, y) = pieces-eq e in
    (
      sym (ap (λ z. c ∷ z) (take-append-drop n cs)) ∙ ap₂ (λ a b. a ++ b) x y,
      subst (λ z. 0 < length z) x (omega arith),
      subst (λ z. length z ≤ suc n) x (omega (arith, length-take n cs)),
    )

pub read_piece-failed : (file : Bytes) (size : ℕ) → read_piece file size ≢ failed
unfolding read_piece
read_piece-failed [] size e = cc e
read_piece-failed (c ∷ cs) zero e = cc e
read_piece-failed (c ∷ cs) (suc n) e = cc e

abbrev pub store-ReadLaws :
    (files : List (Bytes × Bytes)) (entries : List Bytes) → ReadLaws (store files entries)
store-ReadLaws files entries = record { read-eof = read_piece-eof; read-chunk = read_piece-chunk }

abbrev pub store-Readable :
    (files : List (Bytes × Bytes)) (entries : List Bytes) → Readable (store files entries)
store-Readable files entries = record { read-failed = read_piece-failed }
