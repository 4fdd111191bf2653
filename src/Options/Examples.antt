-- ===== src/Options/Examples.antt =====
-- code/src/utils.cpp: the options of a node of a small cluster.
use prob_alimama_2023_a.Base.{
  ◌*◌, ◌^◌, ◌≡◌, refl, Option, none, some, arith, Bytes, codes, equal, if◌then◌else◌,
}
use prob_alimama_2023_a.Text.{to_string}
use prob_alimama_2023_a.Options.{load_env}
use prob_alimama_2023_a.Options.Env.{load_env-to_string}

-- Node 2 of 6, with 4 gigabytes and 8 threads.
sample_env : Bytes → Option Bytes
unfolding equal
sample_env name =
    if equal name (codes "NODE_ID")
    then some (to_string 2)
    else if equal name (codes "NODE_NUM")
    then some (to_string 6)
    else if equal name (codes "MEMORY")
    then some (to_string 4)
    else if equal name (codes "CPU")
    then some (to_string 8)
    else none

load_env-to_string_example :
    load_env sample_env ≡ some (record { node_id = 1; node_num = 6; cpu = 8; mempry = 4 * 2 ^ 30 })
unfolding sample_env
load_env-to_string_example =
    load_env-to_string sample_env 1 6 4 8 refl refl refl refl (omega arith) (omega arith)
      (omega arith) (omega arith)
