-- ===== src/Options.antt =====
-- code/src/utils.cpp: the options of a node from its environment, and its address.
pub mod Env
mod Examples
use prob_alimama_2023_a.Base.{
  ℕ, ◌+◌, ◌-◌, ◌*◌, ◌%◌, ◌^◌, Bool, true, false, Option, none, some, ◌>>=◌, List, [], ◌∷◌, ◌==◌,
  ◌||◌, if◌then◌else◌, Bytes, codes, equal,
}
use prob_alimama_2023_a.Base.Words.{to_u64}
use prob_alimama_2023_a.Text.{stoi, stoull}

-- Each int is its bit pattern.
pub record Options : Type 0 where
  pub node_id : ℕ
  pub node_num : ℕ
  pub cpu : ℕ
  pub mempry : ℕ

-- `std::stoi(env_p)`, or the default where the variable is not set.
unfoldable pub int_or : Option Bytes → ℕ → Option ℕ
int_or none default = some default
int_or (some text) default = stoi text

-- `std::stoi(env_p) - 1`; below the least int there is none.
unfoldable pub id_or_zero : Option Bytes → Option ℕ
id_or_zero none = some 0
id_or_zero (some text) = do
  n ← stoi text
  if n == 2 ^ 31 then none else some ((n + (2 ^ 32 - 1)) % 2 ^ 32)

-- `std::stoull(env_p) << 30`, and the int `2 << 30` made a uint64_t.
unfoldable pub memory_or_default : Option Bytes → Option ℕ
memory_or_default none = some (to_u64 (2 * 2 ^ 30 % 2 ^ 32))
memory_or_default (some text) = do n ← stoull text; some (n * 2 ^ 30 % 2 ^ 64)

unfoldable pub load_env : (getenv : Bytes → Option Bytes) → Option Options
unfolding int_or id_or_zero memory_or_default
load_env getenv = do
  node_id ← id_or_zero (getenv (codes "NODE_ID"))
  node_num ← int_or (getenv (codes "NODE_NUM")) 1
  mempry ← memory_or_default (getenv (codes "MEMORY"))
  cpu ← int_or (getenv (codes "CPU")) 2
  some (record { node_id = node_id; node_num = node_num; cpu = cpu; mempry = mempry })

-- An entry of getifaddrs: its name, and its family with the address bytes, or a null pointer.
pub record IfAddrs : Type 0 where
  pub ifa_name : Bytes
  pub ifa_addr : Option (ℕ × Bytes)

abbrev pub af_inet : ℕ
af_inet = 2

unfoldable pub is_local : Bytes → Bool
is_local name = equal name (codes "en0") || equal name (codes "eth0")

-- The loop over the list; a null `ifa_addr` is a fault. `inet_ntop` is the system's.
unfoldable pub get_local_ip : (inet_ntop : Bytes → Bytes) → List IfAddrs → Option Bytes
unfolding is_local
get_local_ip inet_ntop [] = some []
get_local_ip inet_ntop (entry ∷ rest) =
    let others = get_local_ip inet_ntop rest in
    elim entry.ifa_addr [
      | none ↦ none
      | some (family, address) ↦
          if family == af_inet
          then if is_local entry.ifa_name then some (inet_ntop address) else others
          else others
    ]
