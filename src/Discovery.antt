-- ===== src/Discovery.antt =====
-- code/src/model_service.cpp: the thread that `init` starts. It registers the node, connects to
-- every other node that etcd lists, and then registers the service for the clients. etcd and the
-- channels are what each round of the loop gets to see.
mod Keys
mod Complete
mod Examples
use prob_alimama_2023_a.Base.{
  ℕ, suc, Bool, true, false, Option, none, some, ◌>>=◌, List, [], ◌∷◌, ◌++◌, length, ◌==◌,
  if◌then◌else◌, Bytes, codes,
}
use prob_alimama_2023_a.Text.{stoi, substr_from, int_to_string}

abbrev pub internalservice_dir : Bytes
internalservice_dir = codes "/services/tmpservice/"

abbrev pub modelservice_dir : Bytes
modelservice_dir = codes "/services/modelservice/"

-- `model_service_stubs`: the address behind the stub of each node.
abbrev pub Stubs : Type 0
Stubs = List (ℕ × Bytes)

unfoldable pub find_stub : ℕ → Stubs → Option Bytes
find_stub node [] = none
find_stub node ((k, server_address) ∷ rest) =
    if k == node then some server_address else find_stub node rest

-- The stub for a node other than this one, if there is none yet and `WaitForConnected` answers
-- true.
unfoldable pub add_stub :
    (reachable : Bytes → Bool) (node_id node : ℕ) (server_address : Bytes) → Stubs → Stubs
unfolding find_stub
add_stub reachable node_id node server_address stubs =
    if node == node_id then stubs else elim (find_stub node stubs) [
      | some old ↦ stubs
      | none ↦ if reachable server_address then stubs ++ (node, server_address) ∷ [] else stubs
    ]

-- One key of a listing, with its value. `none` is an exception of `stoi` or `substr`.
unfoldable pub connect :
    (reachable : Bytes → Bool) (node_id : ℕ) (key value : Bytes) → Stubs → Option Stubs
unfolding add_stub
connect reachable node_id key value stubs = do
  node ← stoi value
  server_address ← substr_from key (length internalservice_dir)
  some (add_stub reachable node_id node server_address stubs)

unfoldable pub connect_keys :
    (reachable : Bytes → Bool) (node_id : ℕ) → List (Bytes × Bytes) → Stubs → Option Stubs
unfolding connect
connect_keys reachable node_id [] stubs = some stubs
connect_keys reachable node_id ((key, value) ∷ rest) stubs = do
  next ← connect reachable node_id key value stubs
  connect_keys reachable node_id rest next

-- What a round sees: the listing, if the call succeeds, and which addresses can be connected to.
pub record Round : Type 0 where
  pub listing : Option (List (Bytes × Bytes))
  pub reachable : Bytes → Bool

-- Whether the loop ends after the round, and the stubs. `stubs.size() == node_num - 1` is false for
-- a `node_num` of 0.
unfoldable pub discover_round : (node_id node_num : ℕ) → Round → Stubs → Option (Bool × Stubs)
unfolding connect_keys
discover_round node_id node_num round stubs = elim round.listing [
  | none ↦ some (false, stubs)
  | some keys ↦
      if length keys == node_num
      then (do
        next ← connect_keys round.reachable node_id keys stubs
        some (suc (length next) == node_num, next))
      else some (false, stubs)
]

pub data Discovery : Type 0 where
  found searching : Stubs → Discovery
  thrown : Discovery

-- The loop, over the rounds so far.
unfoldable pub discover : (node_id node_num : ℕ) → List Round → Stubs → Discovery
unfolding discover_round
discover node_id node_num [] stubs = searching stubs
discover node_id node_num (round ∷ rounds) stubs =
    elim (discover_round node_id node_num round stubs) [
      | none ↦ thrown
      | some (true, next) ↦ found next
      | some (false, next) ↦ discover node_id node_num rounds next
    ]

-- The thread: the keys that it has set, with their values, and the state of the loop. Each `set` is
-- repeated until it succeeds.
unfoldable pub init :
    (node_id node_num : ℕ) (server_address : Bytes) → List Round → List (Bytes × Bytes) × Discovery
unfolding discover
init node_id node_num server_address rounds =
    let internal : Bytes × Bytes = (internalservice_dir ++ server_address, int_to_string node_id) in
    let client : Bytes × Bytes = (modelservice_dir ++ server_address, int_to_string node_id) in
    elim (discover node_id node_num rounds []) [
      | found stubs ↦ (internal ∷ client ∷ [], found stubs)
      | searching stubs ↦ (internal ∷ [], searching stubs)
      | thrown ↦ (internal ∷ [], thrown)
    ]
