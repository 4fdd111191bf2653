-- ===== src/Etcd/Table.antt =====
-- A key-value service in a list, for the tests of the code that calls etcd.
use prob_alimama_2023_a.Base.{
  subst, ◌≡◌, ◌≢◌, refl, sym, ap, ◌∙◌, inl, inr, Bool, Bool-cases, true, false, List, [], ◌∷◌, ◌++◌,
  arith, length, take, drop, take-append-drop, ◌==◌, ◌&&◌, not, if◌then◌else◌, All, Bytes, equal,
  equal_iff, equal_refl,
}
use prob_alimama_2023_a.Text.{has_prefix}
use prob_alimama_2023_a.Etcd.{Etcd, EtcdLaws, times}

no_slash : Bytes → Bool
no_slash [] = true
no_slash (c ∷ cs) = not (c == b'/') && no_slash cs

below : Bytes → Bytes → Bool
unfolding has_prefix no_slash
below folder key = has_prefix key folder && no_slash (drop (length folder) key)

unfoldable pub listing : List (Bytes × Bytes) → Bytes → List (Bytes × Bytes)
unfolding below
listing [] folder = []
listing ((k, v) ∷ rest) folder =
    if below folder k then (k, v) ∷ listing rest folder else listing rest folder

unfoldable pub without : Bytes → List (Bytes × Bytes) → List (Bytes × Bytes)
unfolding equal
without key [] = []
without key ((k, v) ∷ rest) = if equal k key then without key rest else (k, v) ∷ without key rest

abbrev pub table : Etcd
table = record {
  Store = List (Bytes × Bytes);
  set = λ store key value. (key, value) ∷ without key store;
  ls = listing;
}

times-without :
    (key other : Bytes) (store : List (Bytes × Bytes)) (folder : Bytes)
    → times table other (without key store) folder
      ≡ (if equal key other then 0 else times table other store folder)
unfolding without listing
times-without key other [] folder = ground arith
times-without key other ((k, v) ∷ rest) folder = ground (
  arith,
  times-without key other rest folder,
  equal_iff k key,
  equal_iff key other,
  equal_iff k other,
)

take-append : (xs ys : Bytes) → take (length xs) (xs ++ ys) ≡ xs
take-append [] ys = refl
take-append (x ∷ xs) ys = ap (λ z. x ∷ z) (take-append xs ys)

has_prefix-append : (folder name : Bytes) → has_prefix (folder ++ name) folder ≡ true
unfolding has_prefix
has_prefix-append folder name =
    (equal_iff (take (length folder) (folder ++ name)) folder).1 (take-append folder name)

drop-append : (folder name : Bytes) → drop (length folder) (folder ++ name) ≡ name
drop-append [] name = refl
drop-append (c ∷ folder) name = drop-append folder name

no_slash-of : (name : Bytes) → All (λ c. (c == b'/') ≡ false) name → no_slash name ≡ true
unfolding no_slash
no_slash-of [] h = refl
no_slash-of (c ∷ name) (d, h) = rw (d, no_slash-of name h)

below-append :
    (folder name : Bytes)
    → All (λ c. (c == b'/') ≡ false) name
    → below folder (folder ++ name) ≡ true
unfolding below
below-append folder name h =
    rw (below, has_prefix-append folder name, drop-append folder name, no_slash-of name h)

times_outside :
    (store : List (Bytes × Bytes)) (folder k : Bytes)
    → below folder k ≡ false
    → times table k store folder ≡ 0
unfolding listing
times_outside [] folder k h = refl
times_outside ((j, v) ∷ rest) folder k h =
    ground (arith, h, times_outside rest folder k h, equal_iff j k)

below_split :
    (folder key : Bytes) → below folder key ≡ true → key ≡ folder ++ drop (length folder) key
unfolding below has_prefix
below_split folder key e =
    sym (take-append-drop (length folder) key)
    ∙ ap (λ z. z ++ drop (length folder) key)
        ((equal_iff (take (length folder) key) folder).0 (ground (arith, e)))

not-below :
    (folder key : Bytes) → ((name : Bytes) → key ≢ folder ++ name) → below folder key ≡ false
unfolding below has_prefix
not-below folder key h = elim (Bool-cases (below folder key)) [
  | inr e ↦ e
  | inl e ↦ absurd (h (drop (length folder) key) (below_split folder key e))
]

set_inside :
    (store : List (Bytes × Bytes)) (folder name value other : Bytes)
    → All (λ c. (c == b'/') ≡ false) name
    → times table other ((folder ++ name, value) ∷ without (folder ++ name) store) folder
      ≡ (if equal (folder ++ name) other then 1 else times table other store folder)
unfolding listing
set_inside store folder name value other h =
    ground (arith, below-append folder name h, times-without (folder ++ name) other store folder)

set_outside :
    (store : List (Bytes × Bytes)) (folder key value other : Bytes)
    → ((name : Bytes) → key ≢ folder ++ name)
    → times table other ((key, value) ∷ without key store) folder ≡ times table other store folder
unfolding listing
set_outside store folder key value other h =
    let gone = not-below folder key h in
    elim (Bool-cases (equal key other)) [
      | inr e ↦ ground (arith, gone, e, times-without key other store folder)
      | inl e ↦
          subst
            (λ z.
              times table z ((key, value) ∷ without key store) folder ≡ times table z store folder)
            ((equal_iff key other).0 e)
            (ground (
              arith,
              gone,
              equal_refl key,
              times-without key key store folder,
              times_outside store folder key gone,
            ))
    ]

pub table-EtcdLaws : EtcdLaws table
table-EtcdLaws = record { set_inside = set_inside; set_outside = set_outside }
