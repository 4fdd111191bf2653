-- ===== src/Export.antt =====
-- testbench/export_to_hdfs.cpp: the shell commands that it runs. A thread starts a command when the
-- one before it has ended, whatever its result; the threads of the three versions run side by side.
mod Order
mod Examples
use prob_alimama_2023_a.Base.{
  ℕ, ◌≡◌, Option, some, ◌>>=◌, List, [], ◌∷◌, ◌++◌, get_elem?, set, All, Bytes, codes,
}
use prob_alimama_2023_a.Config.{Version}

abbrev hdfs_dfs : Bytes
hdfs_dfs = codes "hdfs dfs -fs hdfs://namenode:9000/  "

-- The commands before the threads, and after them.
abbrev pub clear_backup : List Bytes
clear_backup = (hdfs_dfs ++ codes "-rm -r -f /backup") ∷ (hdfs_dfs ++ codes "-mkdir /backup") ∷ []

abbrev pub clear_rollback : List Bytes
clear_rollback = codes "hdfs dfs  -fs hdfs://namenode:9000/  -rm -f /rollback.version" ∷ []

-- The body of a thread.
abbrev pub export_version : Version → List Bytes
export_version v =
    (hdfs_dfs ++ (codes "-rm -r -f /" ++ v.name))
    ∷ (hdfs_dfs ++ (codes "-put -f " ++ (v.name ++ codes "  /backup/")))
    ∷ (hdfs_dfs ++ (codes "-touch /backup/" ++ (v.name ++ codes "/model.done")))
    ∷ []

-- The loop over the first three versions; an index past the vector is `none`.
unfoldable pub export_versions : List Version → Option (List (List Bytes))
export_versions versions = do
  first ← get_elem? versions 0
  second ← get_elem? versions 1
  third ← get_elem? versions 2
  some (export_version first ∷ export_version second ∷ export_version third ∷ [])

-- The commands that are left to each thread, and an order in which they start, up to the joins.
pub data Threads : List (List Bytes) → List Bytes → Type 0 where
  joined : {threads : List (List Bytes)} → All (λ left. left ≡ []) threads → Threads threads []
  runs :
      {threads : List (List Bytes)} {trace : List Bytes} (i : ℕ) (command : Bytes)
      (left : List Bytes)
      → get_elem? threads i ≡ some (command ∷ left)
      → Threads (set threads i left) trace
      → Threads threads (command ∷ trace)

-- A run of the program.
pub data Export (versions : List Version) : List Bytes → Type 0 where
  exports :
      {threads : List (List Bytes)} {trace : List Bytes}
      → export_versions versions ≡ some threads
      → Threads threads trace
      → Export versions (clear_backup ++ (trace ++ clear_rollback))
