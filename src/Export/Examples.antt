-- ===== src/Export/Examples.antt =====
-- testbench/export_to_hdfs.cpp: three versions, whose threads run one after the other.
use prob_alimama_2023_a.Base.{◌≡◌, refl, List, [], ◌∷◌, ◌++◌, length, Bytes, codes, arith}
use prob_alimama_2023_a.Config.{Version}
use prob_alimama_2023_a.Export.{
  clear_backup, clear_rollback, export_version, export_versions, joined, runs, Export, exports,
}
use prob_alimama_2023_a.Export.Order.{Ordered, Export-Ordered}

abbrev version_a : Version
version_a = record { name = codes "a"; slices = [] }

abbrev version_b : Version
version_b = record { name = codes "b"; slices = [] }

abbrev version_c : Version
version_c = record { name = codes "c"; slices = [] }

abbrev three_versions : List Version
three_versions = version_a ∷ version_b ∷ version_c ∷ []

abbrev one_by_one : List Bytes
one_by_one = export_version version_a ++ (export_version version_b ++ export_version version_c)

one_by_one-Export : Export three_versions (clear_backup ++ (one_by_one ++ clear_rollback))
unfolding export_versions
one_by_one-Export = exports refl (
    runs 0 _ _ refl (
      runs 0 _ _ refl (
        runs 0 _ _ refl (
          runs 1 _ _ refl (
            runs 1 _ _ refl (
              runs 1 _ _ refl (
                runs 2 _ _ refl
                  (runs 2 _ _ refl (runs 2 _ _ refl (joined (refl, (refl, (refl, tt)))))))))))))

Export-Ordered_example :
    Ordered
      (codes "hdfs dfs -fs hdfs://namenode:9000/  -rm -r -f /backup"
        ∷ codes "hdfs dfs -fs hdfs://namenode:9000/  -mkdir /backup"
        ∷ (codes "hdfs dfs -fs hdfs://namenode:9000/  -rm -r -f /" ++ codes "b")
        ∷ (codes "hdfs dfs -fs hdfs://namenode:9000/  -put -f "
            ++ (codes "b" ++ codes "  /backup/"))
        ∷ (codes "hdfs dfs -fs hdfs://namenode:9000/  -touch /backup/"
            ++ (codes "b" ++ codes "/model.done"))
        ∷ codes "hdfs dfs  -fs hdfs://namenode:9000/  -rm -f /rollback.version"
        ∷ [])
      (clear_backup ++ (one_by_one ++ clear_rollback))
    × (length (clear_backup ++ (one_by_one ++ clear_rollback)) ≡ 12)
Export-Ordered_example = Export-Ordered 1 version_b one_by_one-Export (omega arith) refl
