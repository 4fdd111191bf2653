-- ===== src/Hdfs/Latest/Kept.antt =====
-- code/src/hdfs_hander.cpp: `getLastestModel` keeps each model under its name, and answers with it
-- again.
use prob_alimama_2023_a.Base.{
  ℕ, ◌≡◌, ◌≢◌, refl, sym, ap, ◌∙◌, subst, ◌⊎◌, inl, inr, Bool-cases, Option-cases, Option, none,
  some, [], ◌∷◌, Bytes, All, equal, equal_iff, equal_refl,
}
use prob_alimama_2023_a.Model.{ModelMeta}
use prob_alimama_2023_a.Hdfs.{HdfsApi, Outcome, done, fault, running, get_available_model_name}
use prob_alimama_2023_a.Hdfs.Meta.{load_model_meta}
use prob_alimama_2023_a.Hdfs.MetaName.{outcome-cases, load_model_meta-model_name}
use prob_alimama_2023_a.Hdfs.Latest.{
  ModelTables, find_model, keep_model, latest_named, get_latest_model,
}

-- Each model is kept under its name.
abbrev pub Keyed : ModelTables → Type 0
Keyed tables = All (λ entry. entry.1.model_name ≡ entry.0) tables

find_model-Keyed :
    (tables : ModelTables) (name : Bytes) (model : ModelMeta)
    → Keyed tables
    → find_model tables name ≡ some model
    → model.model_name ≡ name
unfolding find_model
find_model-Keyed [] name model k h = cc h
find_model-Keyed ((key, m) ∷ rest) name model (k, ks) h = elim (Bool-cases (equal key name)) [
  | inl e ↦ cc (k, e, h, (equal_iff key name).0 e)
  | inr e ↦ find_model-Keyed rest name model ks (cc (e, h))
]

find_model-first :
    (tables : ModelTables) (name : Bytes) (model : ModelMeta)
    → find_model ((name, model) ∷ tables) name ≡ some model
unfolding find_model
find_model-first tables name model = rw (equal_refl name)

answer-eq :
    {a : Option ModelMeta} {tables next : ModelTables} {model : ModelMeta}
    → ◌≡◌ {A = Outcome (Option ModelMeta × ModelTables)}
        (done (a, tables))
        (done (some model, next))
    → (a ≡ some model) × (tables ≡ next)
answer-eq h = (cc h, cc h)

some-eq : {m n : ModelMeta} → some m ≡ some n → m ≡ n
some-eq h = cc h

latest_named-kept :
    (api : HdfsApi) (fuel : ℕ) (tables : ModelTables) (name : Bytes) (model : ModelMeta)
    → find_model tables name ≡ some model
    → latest_named api fuel tables name ≡ done (some model, tables)
unfolding latest_named
latest_named-kept api fuel tables name model f = cc f

latest_named-new :
    (api : HdfsApi) (fuel : ℕ) (tables : ModelTables) (name : Bytes) (answer : Option ModelMeta)
    → find_model tables name ≡ none
    → load_model_meta api fuel name ≡ done answer
    → latest_named api fuel tables name ≡ done (keep_model tables name answer)
unfolding latest_named
latest_named-new api fuel tables name answer f e = cc (f, e)

latest_named-stuck :
    (api : HdfsApi) (fuel : ℕ) (tables : ModelTables) (name : Bytes)
    → find_model tables name ≡ none
    → (load_model_meta api fuel name ≡ fault) ⊎ (load_model_meta api fuel name ≡ running)
    → (answer : Option ModelMeta × ModelTables) → latest_named api fuel tables name ≢ done answer
unfolding latest_named
latest_named-stuck api fuel tables name f (inl e) answer h = cc (f, e, h)
latest_named-stuck api fuel tables name f (inr e) answer h = cc (f, e, h)

-- What is kept after a name has been answered.
abbrev Kept : ModelTables → Bytes → ModelMeta → Type 0
Kept next name model = (model.model_name ≡ name) × Keyed next × (find_model next name ≡ some model)

keep_model-Kept :
    (tables next : ModelTables) (name : Bytes) (answer : Option ModelMeta) (model : ModelMeta)
    → Keyed tables
    → ((m : ModelMeta) → answer ≡ some m → m.model_name ≡ name)
    → ◌≡◌ {A = Outcome (Option ModelMeta × ModelTables)}
        (done (keep_model tables name answer))
        (done (some model, next))
    → Kept next name model
unfolding keep_model
keep_model-Kept tables next name none model k n h = cc (answer-eq h).0
keep_model-Kept tables next name (some m) model k n h =
    let (a, t) = answer-eq h in
    let e = some-eq a in
    (
      n model a,
      subst Keyed t (n m refl, k),
      subst (λ z. find_model z name ≡ some model) t (find_model-first tables name m ∙ a),
    )

latest_named-some :
    (api : HdfsApi) (fuel : ℕ) (tables next : ModelTables) (name : Bytes) (model : ModelMeta)
    → Keyed tables
    → latest_named api fuel tables name ≡ done (some model, next)
    → Kept next name model
latest_named-some api fuel tables next name model k h =
    elim (Option-cases (find_model tables name)) [
      | inr (m, f) ↦
          let (a, t) = answer-eq (sym (latest_named-kept api fuel tables name m f) ∙ h) in
          (
            find_model-Keyed tables name model k (f ∙ a),
            subst Keyed t k,
            subst (λ z. find_model z name ≡ some model) t (f ∙ a),
          )
      | inl f ↦ elim (outcome-cases (load_model_meta api fuel name)) [
        | inl e ↦ absurd (latest_named-stuck api fuel tables name f (inl e) (some model, next) h)
        | inr (inr e) ↦
            absurd (latest_named-stuck api fuel tables name f (inr e) (some model, next) h)
        | inr (inl (answer, e)) ↦
            keep_model-Kept tables next name answer model k
              (λ m a. load_model_meta-model_name api fuel name m (e ∙ ap done a))
              (sym (latest_named-new api fuel tables name answer f e) ∙ h)
      ]
    ]

module _ (api : HdfsApi) (garbage : Bytes) (fuel : ℕ) (tables : ModelTables) where
  get_latest_model-named :
      (c : ℕ) (cs : Bytes)
      → get_available_model_name api garbage ≡ some (c ∷ cs)
      → get_latest_model api garbage fuel tables ≡ latest_named api fuel tables (c ∷ cs)
  unfolding get_latest_model
  get_latest_model-named c cs e = cc e

  get_latest_model-nameless :
      (get_available_model_name api garbage ≡ none)
        ⊎ (get_available_model_name api garbage ≡ some [])
      → get_latest_model api garbage fuel tables ≡ done (none, tables)
  unfolding get_latest_model
  get_latest_model-nameless (inl e) = cc e
  get_latest_model-nameless (inr e) = cc e

name-cases :
    (o : Option Bytes)
    → ((o ≡ none) ⊎ (o ≡ some [])) ⊎ ((c : ℕ) × (cs : Bytes) × (o ≡ some (c ∷ cs)))
name-cases none = inl (inl refl)
name-cases (some []) = inl (inr refl)
name-cases (some (c ∷ cs)) = inr (c, cs, refl)

-- If each model of the table is kept under its name and `getLastestModel` returns a model, then it
-- is the available one, each is still kept under its name, and as long as the same name is the
-- available one every later call returns the same model, whatever its files have become.
pub get_latest_model-Keyed :
    (api : HdfsApi) (garbage : Bytes) (fuel : ℕ) (tables next : ModelTables) (model : ModelMeta)
    → Keyed tables
    → get_latest_model api garbage fuel tables ≡ done (some model, next)
    → (get_available_model_name api garbage ≡ some model.model_name)
      × Keyed next
      × ((later : HdfsApi) (other : Bytes) (more : ℕ)
          → get_available_model_name later other ≡ some model.model_name
          → get_latest_model later other more next ≡ done (some model, next))
get_latest_model-Keyed api garbage fuel tables next model k h =
    elim (name-cases (get_available_model_name api garbage)) [
      | inl e ↦ cc (answer-eq (sym (get_latest_model-nameless api garbage fuel tables e) ∙ h)).0
      | inr (c, cs, e) ↦
          let (n, keyed, f) =
            latest_named-some api fuel tables next (c ∷ cs) model k
              (sym (get_latest_model-named api garbage fuel tables c cs e) ∙ h) in
          (
            e ∙ ap some (sym n),
            keyed,
            (λ later other more g.
                get_latest_model-named later other more next c cs (g ∙ ap some n)
                ∙ latest_named-kept later more next (c ∷ cs) model f),
          )
    ]

no_answer :
    {a : Option ModelMeta} {tables next : ModelTables}
    → ◌≡◌ {A = Outcome (Option ModelMeta × ModelTables)} (done (a, tables)) (done (none, next))
    → (a ≡ none) × (tables ≡ next)
no_answer h = (cc h, cc h)

keep_model-none :
    (tables next : ModelTables) (name : Bytes) (answer : Option ModelMeta)
    → ◌≡◌ {A = Outcome (Option ModelMeta × ModelTables)}
        (done (keep_model tables name answer))
        (done (none, next))
    → tables ≡ next
unfolding keep_model
keep_model-none tables next name none h = (no_answer h).1
keep_model-none tables next name (some m) h = cc (no_answer h).0

latest_named-none :
    (api : HdfsApi) (fuel : ℕ) (tables next : ModelTables) (name : Bytes)
    → latest_named api fuel tables name ≡ done (none, next)
    → tables ≡ next
latest_named-none api fuel tables next name h = elim (Option-cases (find_model tables name)) [
  | inr (m, f) ↦ cc (no_answer (sym (latest_named-kept api fuel tables name m f) ∙ h)).0
  | inl f ↦ elim (outcome-cases (load_model_meta api fuel name)) [
    | inl e ↦ absurd (latest_named-stuck api fuel tables name f (inl e) (none, next) h)
    | inr (inr e) ↦ absurd (latest_named-stuck api fuel tables name f (inr e) (none, next) h)
    | inr (inl (answer, e)) ↦
        keep_model-none tables next name answer
          (sym (latest_named-new api fuel tables name answer f e) ∙ h)
  ]
]

-- A call that returns no model keeps none.
pub get_latest_model-none :
    (api : HdfsApi) (garbage : Bytes) (fuel : ℕ) (tables next : ModelTables)
    → get_latest_model api garbage fuel tables ≡ done (none, next)
    → tables ≡ next
get_latest_model-none api garbage fuel tables next h =
    elim (name-cases (get_available_model_name api garbage)) [
      | inl e ↦ (no_answer (sym (get_latest_model-nameless api garbage fuel tables e) ∙ h)).1
      | inr (c, cs, e) ↦
          latest_named-none api fuel tables next (c ∷ cs)
            (sym (get_latest_model-named api garbage fuel tables c cs e) ∙ h)
    ]
