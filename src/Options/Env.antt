-- ===== src/Options/Env.antt =====
-- code/src/utils.cpp: `loadENV` and `getLocalIP` on the values that a deployment sets.
use prob_alimama_2023_a.Base.{
  ℕ, ◌+◌, ◌*◌, ◌^◌, ◌<◌, ◌≡◌, sym, ap, ◌∙◌, ◌⊎◌, inl, inr, Bool-cases, true, false, Option, some,
  List, [], ◌∷◌, ◌++◌, ◌==◌, All, arith, Bytes, codes, append-nil,
}
use prob_alimama_2023_a.Text.{stoi, stoull, to_string}
use prob_alimama_2023_a.Text.Numbers.{stoi-to_string, stoull-to_string}
use prob_alimama_2023_a.Options.{
  int_or, id_or_zero, memory_or_default, load_env, IfAddrs, af_inet, is_local, get_local_ip,
}

stoi-whole : (n : ℕ) → n < 2 ^ 31 → stoi (to_string n) ≡ some n
stoi-whole n h = ap stoi (sym (append-nil (to_string n))) ∙ stoi-to_string n [] h tt

stoull-whole : (n : ℕ) → n < 2 ^ 64 → stoull (to_string n) ≡ some n
stoull-whole n h = ap stoull (sym (append-nil (to_string n))) ∙ stoull-to_string n [] h tt

id_or_zero-to_string : (n : ℕ) → n + 1 < 2 ^ 31 → id_or_zero (some (to_string (n + 1))) ≡ some n
unfolding id_or_zero
id_or_zero-to_string n h = rw (stoi-whole (n + 1) h) (ground arith)

memory_or_default-to_string :
    (n : ℕ) → n < 2 ^ 34 → memory_or_default (some (to_string n)) ≡ some (n * 2 ^ 30)
unfolding memory_or_default
memory_or_default-to_string n h =
    rw (stoull-whole n (omega (arith, h))) (ap some (omega (arith, h)))

-- With NODE_ID, counted from 1, NODE_NUM and CPU below 2 ^ 31, and MEMORY, in gigabytes, below
-- 2 ^ 34, all set in decimal, `loadENV` gives the number counted from 0, the same counts, and the
-- memory in bytes.
pub load_env-to_string :
    (getenv : Bytes → Option Bytes) (node_id node_num memory cpu : ℕ)
    → getenv (codes "NODE_ID") ≡ some (to_string (node_id + 1))
    → getenv (codes "NODE_NUM") ≡ some (to_string node_num)
    → getenv (codes "MEMORY") ≡ some (to_string memory)
    → getenv (codes "CPU") ≡ some (to_string cpu)
    → node_id + 1 < 2 ^ 31
    → node_num < 2 ^ 31
    → memory < 2 ^ 34
    → cpu < 2 ^ 31
    → load_env getenv
      ≡ some
          (record { node_id = node_id; node_num = node_num; cpu = cpu; mempry = memory * 2 ^ 30 })
unfolding load_env int_or
load_env-to_string getenv node_id node_num memory cpu a b c d p q r s = rw (
  load_env,
  a,
  b,
  c,
  d,
  id_or_zero-to_string node_id p,
  stoi-whole node_num q,
  memory_or_default-to_string memory r,
  stoi-whole cpu s,
)

-- An entry that the loop passes over: not IPv4, or not the interface en0 or eth0.
abbrev pub Other : IfAddrs → Type 0
Other entry =
    (family : ℕ) × (address : Bytes) × (entry.ifa_addr ≡ some (family, address))
    × (((family == af_inet) ≡ false) ⊎ (is_local entry.ifa_name ≡ false))

get_local_ip-Other :
    (inet_ntop : Bytes → Bytes) (entry : IfAddrs) (rest : List IfAddrs)
    → Other entry
    → get_local_ip inet_ntop (entry ∷ rest) ≡ get_local_ip inet_ntop rest
unfolding get_local_ip
get_local_ip-Other inet_ntop entry rest (family, address, a, inl f) = rw (get_local_ip, a, f)
get_local_ip-Other inet_ntop entry rest (family, address, a, inr n) =
    elim (Bool-cases (family == af_inet)) [
      | inl f ↦ rw (get_local_ip, a, f, n)
      | inr f ↦ rw (get_local_ip, a, f)
    ]

get_local_ip-local :
    (inet_ntop : Bytes → Bytes) (entry : IfAddrs) (rest : List IfAddrs) (address : Bytes)
    → entry.ifa_addr ≡ some (af_inet, address)
    → is_local entry.ifa_name ≡ true
    → get_local_ip inet_ntop (entry ∷ rest) ≡ some (inet_ntop address)
unfolding get_local_ip
get_local_ip-local inet_ntop entry rest address a n = rw (get_local_ip, a, n)

-- With every entry before it passed over, the IPv4 address of the first interface named en0 or eth0
-- is the answer, whatever comes after it.
pub get_local_ip-first :
    (inet_ntop : Bytes → Bytes) (before after : List IfAddrs) (entry : IfAddrs) (address : Bytes)
    → All Other before
    → entry.ifa_addr ≡ some (af_inet, address)
    → is_local entry.ifa_name ≡ true
    → get_local_ip inet_ntop (before ++ entry ∷ after) ≡ some (inet_ntop address)
get_local_ip-first inet_ntop [] after entry address h a n =
    get_local_ip-local inet_ntop entry after address a n
get_local_ip-first inet_ntop (x ∷ before) after entry address (o, h) a n =
    get_local_ip-Other inet_ntop x (before ++ entry ∷ after) o
    ∙ get_local_ip-first inet_ntop before after entry address h a n
