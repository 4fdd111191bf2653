-- ===== src/Discovery/Examples.antt =====
-- The thread of `init` of the first of two nodes: it sees its own key alone, then both.
use prob_alimama_2023_a.Base.{
  ℕ, zero, suc, ◌<◌, ◌≡◌, refl, true, some, [], ◌∷◌, ◌++◌, Bytes, codes, arith, get_elem?,
}
use prob_alimama_2023_a.Text.{to_string, int_to_string, stoi, substr_from}
use prob_alimama_2023_a.Discovery.{
  internalservice_dir, modelservice_dir, Stubs, find_stub, add_stub, connect, connect_keys, Round,
  found, discover_round, discover, init,
}
use prob_alimama_2023_a.Discovery.Keys.{Entry}
use prob_alimama_2023_a.Discovery.Complete.{Complete, init-find_stub, init-both_keys}

abbrev addresses : ℕ → Bytes
addresses zero = codes "10.0.0.1:50051"
addresses (suc k) = codes "10.0.0.2:50051"

abbrev key_of : ℕ → Bytes × Bytes
key_of k = (internalservice_dir ++ addresses k, to_string k)

abbrev alone : Round
alone = record { listing = some (key_of 0 ∷ []); reachable = λ a. true }

abbrev both : Round
both = record { listing = some (key_of 0 ∷ key_of 1 ∷ []); reachable = λ a. true }

entry : (k : ℕ) → k < 2 → Entry 0 2 addresses (key_of k)
entry k lt = record { node = k; known = lt; key = refl; value = refl }

listed : (j : ℕ) → j < 2 → (k : ℕ) × (get_elem? (key_of 0 ∷ key_of 1 ∷ []) k ≡ some (key_of j))
listed zero lt = (0, refl)
listed (suc zero) lt = (1, refl)
listed (suc (suc j)) lt = absurd (omega (arith, lt))

both-Complete : Complete 0 2 addresses both
both-Complete = record {
  keys = key_of 0 ∷ key_of 1 ∷ [];
  listed = refl;
  size = refl;
  each = listed;
  up = λ j lt. refl;
}

init-both_keys_example :
    (init 0 2 (codes "10.0.0.1:50051") (alone ∷ both ∷ [])).0
    ≡ (internalservice_dir ++ codes "10.0.0.1:50051", to_string 0)
      ∷ (modelservice_dir ++ codes "10.0.0.1:50051", to_string 0)
      ∷ []
init-both_keys_example =
    init-both_keys 0 2 addresses (codes "10.0.0.1:50051") (alone ∷ []) both (omega arith)
      (omega arith) ((entry 0 (omega arith), tt), tt)
      (entry 0 (omega arith), (entry 1 (omega arith), tt)) both-Complete

init-find_stub_example :
    (last : Stubs) × ((init 0 2 (codes "10.0.0.1:50051") (alone ∷ both ∷ [])).1 ≡ found last)
    × (find_stub 1 last ≡ some (codes "10.0.0.2:50051"))
unfolding init discover discover_round connect_keys connect add_stub find_stub stoi substr_from
    to_string int_to_string
init-find_stub_example =
    init-find_stub 0 2 addresses (codes "10.0.0.1:50051") (alone ∷ both ∷ [])
      (internalservice_dir ++ codes "10.0.0.1:50051", to_string 0)
      (modelservice_dir ++ codes "10.0.0.1:50051", to_string 0) 1 (omega arith) (omega arith)
      ((entry 0 (omega arith), tt), ((entry 0 (omega arith), (entry 1 (omega arith), tt)), tt)) refl
      (omega arith) (λ e. omega (arith, e))
