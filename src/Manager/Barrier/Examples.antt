-- ===== src/Manager/Barrier/Examples.antt =====
-- code/src/model_manger.cpp: two nodes that have set their keys, and the second one ahead.
use prob_alimama_2023_a.Base.{ℕ_discrete, ℕ, ◌+◌, ◌≤◌, ◌<◌, ◌≡◌, ◌↔◌, refl, true, false, [], arith}
use prob_alimama_2023_a.Base.Threads.{update}
use prob_alimama_2023_a.Etcd.Table.{table, table-EtcdLaws, listing, without}
use prob_alimama_2023_a.Text.{to_string}
use prob_alimama_2023_a.Manager.Barrier.{
  Cluster, registers, passes, Reach, here, later, fresh, register, all_registered,
}
use prob_alimama_2023_a.Manager.Barrier.Near.{past, Blank, versions_near, barrier_opens}

empty-Blank : Blank table table-EtcdLaws 2 []
unfolding listing
empty-Blank v k = refl

-- Both nodes have set their keys.
abbrev both : Cluster table
both = record {
  store = register table 1 0 (register table 0 0 []);
  nodes =
      update
        (update (λ _. record { version = 0; registered = false }) 0
          (record { version = 0; registered = true }))
        1 (record { version = 0; registered = true });
}

both-Reach : Reach table 2 (fresh table []) both
unfolding ℕ_discrete
both-Reach = later (later here (registers 0 (omega arith) refl)) (registers 1 (omega arith) refl)

barrier_opens_example :
    (all_registered table 2 0 both.store ≡ true) ↔ ((i : ℕ) → i < 2 → past 0 (both.nodes i) ≡ true)
barrier_opens_example = barrier_opens table table-EtcdLaws 2 0 empty-Blank both-Reach

-- The second node has gone on.
abbrev ahead : Cluster table
ahead = record both { nodes = update both.nodes 1 (record { version = 1; registered = false }) }

ahead-Reach : Reach table 2 (fresh table []) ahead
unfolding ℕ_discrete all_registered register listing without to_string
ahead-Reach = later both-Reach (passes 1 (omega arith) refl refl)

versions_near_example : (ahead.nodes 1).version ≤ (ahead.nodes 0).version + 1
versions_near_example =
    versions_near table table-EtcdLaws 2 1 0 empty-Blank ahead-Reach (omega arith) (omega arith)
