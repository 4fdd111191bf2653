-- ===== src/Hdfs/Version.antt =====
-- code/src/hdfs_hander.cpp: the name that `getAvailableModelName` picks.
use prob_alimama_2023_a.Base.{
  append_assoc, ◌↔◌, Bool-cases, Option-cases, ◌≢◌, sym, subst, ap, ◌∙◌, ◌≡◌, refl, ◌⊎◌, inl, inr,
  true, false, none, some, List, [], ◌∷◌, ◌++◌, Bytes, codes, take, drop, length, All,
}
use prob_alimama_2023_a.Text.{has_prefix, after_slash}
use prob_alimama_2023_a.Hdfs.{
  HdfsApi, Read, eof, failed, chunk, c_string, is_available, rollback, rollback_name, latest_entry,
  get_available_model_name, reverse_onto, model_prefix, model_root_dir,
}

-- A model of this name and its model.done exist in the root folder.
abbrev pub Available : HdfsApi → Bytes → Type 0
Available api name =
    (api.exists (codes "/" ++ name) ≡ true)
    × (api.exists ((codes "/" ++ name) ++ codes "/model.done") ≡ true)

-- An entry whose name starts with "model_" and is available.
abbrev pub Chosen : HdfsApi → Bytes → Bytes → Type 0
Chosen api path name =
    (after_slash path ≡ name)
    × (has_prefix name (codes "model_") ≡ true)
    × (is_available api name ≡ true)

-- An entry that `latest_entry` passes over.
abbrev pub Passed : HdfsApi → Bytes → Type 0
Passed api path =
    (has_prefix (after_slash path) (codes "model_") ≡ false)
    ⊎ (is_available api (after_slash path) ≡ false)

-- What the buffer of 128 bytes holds from its start on, after the one read of 25 bytes: the bytes
-- that were read, in front of what the stack held behind them.
abbrev pub Held : (api : HdfsApi) → Bytes → api.File → Bytes → Type 0
Held api garbage file held =
    ((bytes : Bytes) × (next : api.File) × (api.read file 25 ≡ chunk bytes next)
      × (held ≡ bytes ++ drop (length bytes) garbage))
    ⊎ (((api.read file 25 ≡ eof) ⊎ (api.read file 25 ≡ failed)) × (held ≡ garbage))

-- The name that the file /rollback.version gives: the text of the first 25 bytes of that buffer, if
-- a model of this name and its model.done exist.
abbrev pub RolledBack : HdfsApi → Bytes → Bytes → Type 0
RolledBack api garbage name =
    (file : api.File) × (held : Bytes) × (api.exists (codes "/rollback.version") ≡ true)
    × (api.open_file (codes "/rollback.version") ≡ some file)
    × Held api garbage file held
    × (name ≡ c_string (take 25 held))
    × Available api name

-- The text that the code makes of the buffer, from the outcome of the read.
Held-read :
    (api : HdfsApi) (garbage : Bytes) (file : api.File) (r : Read api.File)
    → api.read file 25 ≡ r
    → (held : Bytes) × Held api garbage file held
      × (rollback_name api garbage file ≡ c_string (take 25 held))
unfolding rollback_name
Held-read api garbage file eof e = (garbage, inr (inl e, refl), rw (rollback_name, e) refl)
Held-read api garbage file failed e = (garbage, inr (inr e, refl), rw (rollback_name, e) refl)
Held-read api garbage file (chunk bytes next) e =
    (bytes ++ drop (length bytes) garbage, inl (bytes, next, e, refl), rw (rollback_name, e) refl)

rollback_name-Held :
    (api : HdfsApi) (garbage : Bytes) (file : api.File) (held : Bytes)
    → Held api garbage file held
    → rollback_name api garbage file ≡ c_string (take 25 held)
unfolding rollback_name
rollback_name-Held api garbage file held (inl (bytes, next, e, h)) = rw (rollback_name, e, h) refl
rollback_name-Held api garbage file held (inr (inl e, h)) = rw (rollback_name, e, h) refl
rollback_name-Held api garbage file held (inr (inr e, h)) = rw (rollback_name, e, h) refl

is_available_iff :
    (api : HdfsApi) (name : Bytes) → (is_available api name ≡ true) ↔ Available api name
unfolding is_available
is_available_iff api name = (
  (λ h. elim (Bool-cases (api.exists (codes "/" ++ name))) [
    | inl e ↦ (e, sym (rw e refl) ∙ h)
    | inr e ↦ cc (h, e)
  ]),
  (λ (e, d). rw (e, d) refl),
)

rollback-RolledBack :
    (api : HdfsApi) (garbage : Bytes) (name : Bytes)
    → RolledBack api garbage name
    → rollback api garbage ≡ some name
unfolding rollback
rollback-RolledBack api garbage name (file, held, there, opened, h, e, a) =
    let n = rollback_name-Held api garbage file held h ∙ sym e in
    rw (there, opened, n, (is_available_iff api name).1 a) refl

rollback-some :
    (api : HdfsApi) (garbage : Bytes) (name : Bytes)
    → rollback api garbage ≡ some name
    → RolledBack api garbage name
unfolding rollback
rollback-some api garbage name h = elim (Bool-cases (api.exists (codes "/rollback.version"))) [
  | inr there ↦ cc (h, there)
  | inl there ↦ elim (Option-cases (api.open_file (codes "/rollback.version"))) [
    | inl opened ↦ cc (h, there, opened)
    | inr (file, opened) ↦ elim (Bool-cases (is_available api (rollback_name api garbage file))) [
      | inr a ↦ cc (h, there, opened, a)
      | inl a ↦
          let (held, holds, e) = Held-read api garbage file (api.read file 25) refl in
          let same : rollback_name api garbage file ≡ name = cc (h, there, opened, a) in
          (
            file,
            held,
            there,
            opened,
            holds,
            sym same ∙ e,
            subst (Available api) same ((is_available_iff api _).0 a),
          )
    ]
  ]
]

latest_entry-skip :
    (api : HdfsApi) (path : Bytes) (paths : List Bytes)
    → Passed api path
    → latest_entry api (path ∷ paths) ≡ latest_entry api paths
unfolding latest_entry
latest_entry-skip api path paths (inl p) = rw p
latest_entry-skip api path paths (inr q) =
    elim (Bool-cases (has_prefix (after_slash path) model_prefix)) [
      | inl p ↦ rw (p, q)
      | inr p ↦ rw p
    ]

latest_entry-take :
    (api : HdfsApi) (path : Bytes) (paths : List Bytes)
    → has_prefix (after_slash path) model_prefix ≡ true
    → is_available api (after_slash path) ≡ true
    → latest_entry api (path ∷ paths) ≡ some (after_slash path)
unfolding latest_entry
latest_entry-take api path paths p q = rw (p, q)

-- An entry is passed over or chosen.
entry-cases : (api : HdfsApi) (path : Bytes) → Passed api path ⊎ Chosen api path (after_slash path)
entry-cases api path = elim (Bool-cases (has_prefix (after_slash path) model_prefix)) [
  | inr p ↦ inl (inl p)
  | inl p ↦ elim (Bool-cases (is_available api (after_slash path))) [
    | inr q ↦ inl (inr q)
    | inl q ↦ inr (refl, p, q)
  ]
]

latest_entry-nil : (api : HdfsApi) (name : Bytes) → latest_entry api [] ≢ some name
unfolding latest_entry
latest_entry-nil api name h = cc

some-inj : {a b : Bytes} → some a ≡ some b → a ≡ b
some-inj h = cc h

latest_entry-some :
    (api : HdfsApi) (paths : List Bytes) (name : Bytes)
    → latest_entry api paths ≡ some name
    → (later earlier : List Bytes) × (path : Bytes) × (paths ≡ later ++ path ∷ earlier)
      × All (Passed api) later
      × Chosen api path name
latest_entry-some api [] name h = elim (latest_entry-nil api name h) [ ]
latest_entry-some api (path ∷ paths) name h = elim (entry-cases api path) [
  | inl p ↦
      let (later, earlier, x, e, a, c) =
        latest_entry-some api paths name (sym (latest_entry-skip api path paths p) ∙ h) in
      (path ∷ later, earlier, x, ap (λ z. path ∷ z) e, (p, a), c)
  | inr (_, p, q) ↦
      let e = some-inj (sym (latest_entry-take api path paths p q) ∙ h) in
      ([], paths, path, refl, tt, subst (λ n. Chosen api path n) e (refl, p, q))
]

latest_entry-none :
    (api : HdfsApi) (paths : List Bytes) → latest_entry api paths ≡ none → All (Passed api) paths
latest_entry-none api [] h = tt
latest_entry-none api (path ∷ paths) h = elim (entry-cases api path) [
  | inl p ↦ (p, latest_entry-none api paths (sym (latest_entry-skip api path paths p) ∙ h))
  | inr (_, p, q) ↦ cc (latest_entry-take api path paths p q, h)
]

latest_entry-Passed :
    (api : HdfsApi) (paths : List Bytes) → All (Passed api) paths → latest_entry api paths ≡ none
unfolding latest_entry
latest_entry-Passed api [] h = refl
latest_entry-Passed api (path ∷ paths) (p, h) =
    latest_entry-skip api path paths p ∙ latest_entry-Passed api paths h

reverse_onto-append :
    (xs : List Bytes) (x : Bytes) (ys acc : List Bytes)
    → reverse_onto (xs ++ x ∷ ys) acc ≡ reverse_onto ys (x ∷ reverse_onto xs acc)
reverse_onto-append [] x ys acc = refl
reverse_onto-append (y ∷ xs) x ys acc = reverse_onto-append xs x ys (y ∷ acc)

reverse_onto-twice :
    (xs acc : List Bytes) → reverse_onto (reverse_onto xs acc) [] ≡ reverse_onto acc xs
reverse_onto-twice [] acc = refl
reverse_onto-twice (x ∷ xs) acc = reverse_onto-twice xs (x ∷ acc)

reverse_onto-acc : (xs acc : List Bytes) → reverse_onto xs acc ≡ reverse_onto xs [] ++ acc
reverse_onto-acc [] acc = refl
reverse_onto-acc (x ∷ xs) acc =
    reverse_onto-acc xs (x ∷ acc)
    ∙ sym (append_assoc (reverse_onto xs []) (x ∷ []) acc)
    ∙ ap (λ z. z ++ acc) (sym (reverse_onto-acc xs (x ∷ [])))

All-reverse_onto :
    (P : Bytes → Type 0) (xs acc : List Bytes) → All P xs → All P acc → All P (reverse_onto xs acc)
All-reverse_onto P [] acc h k = k
All-reverse_onto P (x ∷ xs) acc (p, h) k = All-reverse_onto P xs (x ∷ acc) h (p, k)

-- What a listing read from its end is, split at an entry.
reverse_onto-split :
    (paths later earlier : List Bytes) (path : Bytes)
    → reverse_onto paths [] ≡ later ++ path ∷ earlier
    → paths ≡ reverse_onto earlier [] ++ path ∷ reverse_onto later []
reverse_onto-split paths later earlier path e =
    sym (reverse_onto-twice paths [])
    ∙ ap (λ z. reverse_onto z []) e
    ∙ reverse_onto-append later path earlier []
    ∙ reverse_onto-acc earlier (path ∷ reverse_onto later [])

-- The last entry of a listing that is chosen.
abbrev pub LastOf : HdfsApi → List Bytes → Bytes → Type 0
LastOf api paths name =
    (earlier later : List Bytes) × (path : Bytes) × (paths ≡ earlier ++ path ∷ later)
    × All (Passed api) later
    × Chosen api path name

module _ (api : HdfsApi) (garbage : Bytes) where
  get_available_model_name-rollback :
      (name : Bytes)
      → rollback api garbage ≡ some name
      → get_available_model_name api garbage ≡ some name
  unfolding get_available_model_name
  get_available_model_name-rollback name e = cc e

  not_RolledBack : rollback api garbage ≡ none → (other : Bytes) → RolledBack api garbage other → ⊥
  not_RolledBack e other r = cc (e, rollback-RolledBack api garbage other r)

  get_available_model_name-latest :
      rollback api garbage ≡ none
      → get_available_model_name api garbage
        ≡ latest_entry api (reverse_onto (api.list_directory model_root_dir) [])
  unfolding get_available_model_name
  get_available_model_name-latest e = cc e

  get_available_model_name-some :
      (name : Bytes)
      → get_available_model_name api garbage ≡ some name
      → Available api name
        × (RolledBack api garbage name
            ⊎ ((other : Bytes) → RolledBack api garbage other → ⊥)
              × LastOf api (api.list_directory (codes "/")) name)
  get_available_model_name-some name h = elim (Option-cases (rollback api garbage)) [
    | inr (other, e) ↦
        let r =
          rollback-some api garbage name
            (e ∙ sym (get_available_model_name-rollback other e) ∙ h) in
        let (_, _, _, _, _, _, a) = r in (a, inl r)
    | inl e ↦
        let paths = api.list_directory model_root_dir in
        let (later, earlier, path, s, a, c) =
          latest_entry-some api (reverse_onto paths []) name
            (sym (get_available_model_name-latest e) ∙ h) in
        (
          (is_available_iff api name).0 c.2,
          inr (
            not_RolledBack e,
            (
              reverse_onto earlier [],
              reverse_onto later [],
              path,
              reverse_onto-split paths later earlier path s,
              All-reverse_onto (Passed api) later [] a tt,
              c,
            ),
          ),
        )
  ]

  get_available_model_name-none : (get_available_model_name api garbage ≡ none) ↔ (
      ((other : Bytes) → RolledBack api garbage other → ⊥)
      × All (Passed api) (api.list_directory (codes "/")))
  get_available_model_name-none = (
    (λ h. elim (Option-cases (rollback api garbage)) [
      | inr (other, e) ↦ cc (get_available_model_name-rollback other e, h)
      | inl e ↦
          let l =
            latest_entry-none api (reverse_onto (api.list_directory model_root_dir) [])
              (sym (get_available_model_name-latest e) ∙ h) in
          (
            not_RolledBack e,
            subst (λ z. All (Passed api) z)
                (reverse_onto-twice (api.list_directory model_root_dir) [])
                (All-reverse_onto (Passed api) (reverse_onto (api.list_directory model_root_dir) [])
                  [] l tt),
          )
    ]),
    (λ (no_rollback, a). elim (Option-cases (rollback api garbage)) [
      | inr (other, e) ↦ absurd (no_rollback other (rollback-some api garbage other e))
      | inl e ↦
          get_available_model_name-latest e
          ∙ latest_entry-Passed api (reverse_onto (api.list_directory model_root_dir) [])
              (All-reverse_onto (Passed api) (api.list_directory model_root_dir) [] a tt)
    ]),
  )

  -- A name that is returned is that of a model that is available, which is that /name and
  -- /name/model.done exist. It is the one that /rollback.version gives, which is the text of the
  -- first 25 bytes of the buffer after one read of 25 bytes, so that behind a shorter read what the
  -- stack held goes on; or, if that is no available model, it is the last entry of the root folder
  -- whose name starts with "model_" and is available. No name is returned if and only if
  -- /rollback.version gives no available model in this way and no entry of the root folder both
  -- starts with "model_" and is available.
  pub get_available_model_name_lem :
      ((name : Bytes)
        → get_available_model_name api garbage ≡ some name
        → Available api name
          × (RolledBack api garbage name
              ⊎ ((other : Bytes) → RolledBack api garbage other → ⊥)
                × LastOf api (api.list_directory (codes "/")) name))
      × ((get_available_model_name api garbage ≡ none) ↔ (
          ((other : Bytes) → RolledBack api garbage other → ⊥)
          × All (Passed api) (api.list_directory (codes "/"))))
  get_available_model_name_lem = (get_available_model_name-some, get_available_model_name-none)
