-- ===== src/Manager/Barrier.antt =====
-- code/src/model_manger.cpp: the barrier in `loadNewModel`. Each node that has loaded the next
-- model sets a key in the folder of its version, waits until the folder lists every node, and goes
-- on to the next version.
mod Names
pub mod Near
mod Examples
use prob_alimama_2023_a.Base.{
  ℕ, zero, suc, ◌+◌, ◌<◌, ◌≡◌, Bool, true, false, List, [], ◌∷◌, ◌++◌, length, ◌==◌, Bytes, codes,
}
use prob_alimama_2023_a.Base.Threads.{update}
use prob_alimama_2023_a.Text.{to_string}
use prob_alimama_2023_a.Etcd.{Etcd}

abbrev pub version_dir : Bytes
version_dir = codes "/services/version/"

unfoldable pub target_dir : (version : ℕ) → Bytes
target_dir version = version_dir ++ (to_string version ++ codes "/")

unfoldable pub node_key : (version node_id : ℕ) → Bytes
node_key version node_id = target_dir version ++ to_string node_id

-- A node loads a model, or has set its key and waits for the others.
pub record Node : Type 0 where
  pub version : ℕ
  pub registered : Bool

module _ (etcd : Etcd) where
  pub record Cluster : Type 0 where
    pub store : etcd.Store
    pub nodes : ℕ → Node

  -- `etcd_->set(key, std::to_string(options_.node_id))`, once it succeeds
  unfoldable pub register : (node_id version : ℕ) → etcd.Store → etcd.Store
  unfolding node_key
  register node_id version store = etcd.set store (node_key version node_id) (to_string node_id)

  -- `resp.keys().size() == options_.node_num`
  unfoldable pub all_registered : (node_num version : ℕ) → etcd.Store → Bool
  unfolding target_dir
  all_registered node_num version store = length (etcd.ls store (target_dir version)) == node_num

  pub data Step (node_num : ℕ) (s : Cluster) : Cluster → Type 0 where
    registers :
        (i : ℕ)
        → i < node_num
        → (s.nodes i).registered ≡ false
        → Step node_num s (record {
          store = register i (s.nodes i).version s.store;
          nodes = update s.nodes i (record (s.nodes i) { registered = true });
        })
    passes :
        (i : ℕ)
        → i < node_num
        → (s.nodes i).registered ≡ true
        → all_registered node_num (s.nodes i).version s.store ≡ true
        → Step node_num s (record s {
          nodes =
              update s.nodes i (record { version = suc (s.nodes i).version; registered = false });
        })

  pub data Reach (node_num : ℕ) (s : Cluster) : Cluster → Type 0 where
    here : Reach node_num s s
    later : {t u : Cluster} → Reach node_num s t → Step node_num t u → Reach node_num s u

  -- Every node at version 0.
  abbrev pub fresh : etcd.Store → Cluster
  fresh store = record { store = store; nodes = λ _. record { version = 0; registered = false } }
