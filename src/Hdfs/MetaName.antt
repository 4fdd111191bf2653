-- ===== src/Hdfs/MetaName.antt =====
-- code/src/hdfs_hander.cpp: the name of the model that `loadModelMeta` returns.
use prob_alimama_2023_a.Base.Words.{to_int, to_u64}
use prob_alimama_2023_a.Hdfs.RoundTrip.{with_slices, add_lines-slice}
use prob_alimama_2023_a.Base.{
  ◌++◌, suc, ℕ, ◌≡◌, refl, sym, ◌∙◌, subst, ◌⊎◌, inl, inr, Bool-cases, Option-cases, true, false,
  Option, none, some, List, [], ◌∷◌, Bytes, codes,
}
use prob_alimama_2023_a.Model.{ModelMeta}
use prob_alimama_2023_a.Text.{lines, has_prefix}
use prob_alimama_2023_a.Hdfs.{HdfsApi, Outcome, done, fault, running}
use prob_alimama_2023_a.Hdfs.Meta.{load_model_meta, read_meta, add_lines, new_model, slice_of_line}

add_lines-skip :
    (model : ModelMeta) (line : Bytes) (rest : List Bytes)
    → has_prefix line (codes "slice") ≡ false
    → add_lines model (line ∷ rest) ≡ add_lines model rest
unfolding add_lines
add_lines-skip model line rest p = rw (add_lines, p)

add_lines-bad :
    (model : ModelMeta) (line : Bytes) (rest : List Bytes)
    → has_prefix line (codes "slice") ≡ true
    → slice_of_line model.hdfs_model_path model.local_model_path model.slice_num line ≡ none
    → add_lines model (line ∷ rest) ≡ none
unfolding add_lines
add_lines-bad model line rest p e = rw (add_lines, p, e)

add_lines-model_name :
    (model result : ModelMeta) (text : List Bytes)
    → add_lines model text ≡ some result
    → result.model_name ≡ model.model_name
unfolding add_lines
add_lines-model_name model result [] h = cc h
add_lines-model_name model result (line ∷ rest) h =
    elim (Bool-cases (has_prefix line (codes "slice"))) [
      | inr p ↦ add_lines-model_name model result rest (sym (add_lines-skip model line rest p) ∙ h)
      | inl p ↦
          elim (Option-cases
            (slice_of_line model.hdfs_model_path model.local_model_path model.slice_num line)) [
              | inl e ↦ cc (add_lines-bad model line rest p e, h)
              | inr (slice, e) ↦
                  add_lines-model_name
                    (with_slices model (suc model.slice_num) (to_u64 (to_int slice.size))
                      (model.slices ++ slice ∷ []))
                    result rest (sym (add_lines-slice model line rest slice p e) ∙ h)
            ]
    ]

pub outcome-cases {ℓ} :
    {A : Type ℓ} (r : Outcome A) → (r ≡ fault) ⊎ ((a : A) × (r ≡ done a)) ⊎ (r ≡ running)
outcome-cases (done a) = inr (inl (a, refl))
outcome-cases fault = inl refl
outcome-cases running = inr (inr refl)

loaded_eq :
    {m n : ModelMeta} → ◌≡◌ {A = Outcome (Option ModelMeta)} (done (some m)) (done (some n)) → m ≡ n
loaded_eq h = cc h

load_model_meta-parsed :
    (api : HdfsApi) (fuel : ℕ) (name text : Bytes) (result : ModelMeta)
    → read_meta api fuel name ≡ done (some text)
    → add_lines (new_model name) (lines text) ≡ some result
    → load_model_meta api fuel name ≡ done (some result)
unfolding load_model_meta
load_model_meta-parsed api fuel name text result e a = cc (e, a)

pub load_model_meta-model_name :
    (api : HdfsApi) (fuel : ℕ) (name : Bytes) (model : ModelMeta)
    → load_model_meta api fuel name ≡ done (some model)
    → model.model_name ≡ name
unfolding load_model_meta
load_model_meta-model_name api fuel name model h = elim (outcome-cases (read_meta api fuel name)) [
  | inl e ↦ cc (e, h)
  | inr (inl (none, e)) ↦ cc (e, h)
  | inr (inl (some text, e)) ↦ elim (Option-cases (add_lines (new_model name) (lines text))) [
    | inl a ↦ cc (e, a, h)
    | inr (result, a) ↦
        subst (λ (m : ModelMeta). m.model_name ≡ result.model_name)
          (loaded_eq (sym (load_model_meta-parsed api fuel name text result e a) ∙ h)) refl
        ∙ add_lines-model_name (new_model name) result (lines text) a
  ]
  | inr (inr e) ↦ cc (e, h)
]
