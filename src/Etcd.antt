-- ===== src/Etcd.antt =====
-- etcd::Client, which model_manger.cpp and model_service.cpp call: `set` of a key and `ls` of a
-- folder, whose name ends with a slash. The service is a parameter; a call that fails leaves it as
-- it is.
pub mod Table
use prob_alimama_2023_a.Base.{
  ℕ, ◌≤◌, ◌≡◌, ◌≢◌, Bool, false, List, ◌++◌, map, ◌==◌, if◌then◌else◌, All, Bytes, equal,
}
use prob_alimama_2023_a.Base.Pigeonhole.{count}

pub record Etcd : Type 1 where
  pub Store : Type 0
  pub set : Store → (key value : Bytes) → Store
  -- the keys right below the folder, with their values
  pub ls : Store → (folder : Bytes) → List (Bytes × Bytes)

module _ (etcd : Etcd) where
  abbrev pub keys : etcd.Store → Bytes → List Bytes
  keys store folder = map (λ entry. entry.0) (etcd.ls store folder)

  abbrev pub times : Bytes → etcd.Store → Bytes → ℕ
  times key store folder = count equal key (keys store folder)

  -- After `set`, a key right below a folder is listed there once; no other listing changes.
  pub record EtcdLaws : Type 0 where
    pub set_inside :
        (store : etcd.Store) (folder name value other : Bytes)
        → All (λ c. (c == b'/') ≡ false) name
        → times other (etcd.set store (folder ++ name) value) folder
          ≡ (if equal (folder ++ name) other then 1 else times other store folder)
    pub set_outside :
        (store : etcd.Store) (folder key value other : Bytes)
        → ((name : Bytes) → key ≢ folder ++ name)
        → times other (etcd.set store key value) folder ≡ times other store folder
