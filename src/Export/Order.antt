-- ===== src/Export/Order.antt =====
-- testbench/export_to_hdfs.cpp: the order of the commands, however the threads interleave.
use prob_alimama_2023_a.Base.{
  ℕ, zero, suc, ◌+◌, ◌<◌, ◌≡◌, refl, sym, subst, ap, ◌∙◌, some, List, [], ◌∷◌, ◌++◌, length,
  length-append, get_elem?, set, get_elem?-set_self, get_elem?-set_ne, All, Bytes, codes, arith,
  ℕ_discrete,
}
use prob_alimama_2023_a.Config.{Version}
use prob_alimama_2023_a.Export.{
  clear_backup, clear_rollback, export_version, export_versions, Threads, joined, runs, Export,
  exports,
}

-- The commands of the first list stand in the second, in this order.
pub data Ordered : List Bytes → List Bytes → Type 0 where
  nothing : {ys : List Bytes} → Ordered [] ys
  next : {xs ys : List Bytes} (x : Bytes) → Ordered xs ys → Ordered (x ∷ xs) (x ∷ ys)
  other : {xs ys : List Bytes} (y : Bytes) → Ordered xs ys → Ordered xs (y ∷ ys)

Ordered-append :
    {xs ys : List Bytes} (before after : List Bytes)
    → Ordered xs ys
    → Ordered (before ++ (xs ++ after)) (before ++ (ys ++ after))
Ordered-append {xs} {ys} (x ∷ before) after o = next x (Ordered-append before after o)
Ordered-append [] after (next x o) = next x (Ordered-append [] after o)
Ordered-append [] after (other y o) = other y (Ordered-append [] after o)
Ordered-append {ys = ys} [] after nothing = at_end ys after
  where
    at_end : (zs ws : List Bytes) → Ordered ws (zs ++ ws)
    at_end [] [] = nothing
    at_end [] (w ∷ ws) = next w (at_end [] ws)
    at_end (z ∷ zs) ws = other z (at_end zs ws)

same_some : {A : Type 0} {a b : A} → some a ≡ some b → a ≡ b
same_some e = cc e

All-get_elem? :
    (threads : List (List Bytes)) (i : ℕ) (xs : List Bytes)
    → All (λ left. left ≡ []) threads
    → get_elem? threads i ≡ some xs
    → xs ≡ []
All-get_elem? [] i xs h e = cc e
All-get_elem? (t ∷ threads) zero xs (h, hs) e = sym (same_some e) ∙ h
All-get_elem? (t ∷ threads) (suc i) xs (h, hs) e = All-get_elem? threads i xs hs e

get_elem?-lt :
    (threads : List (List Bytes)) (i : ℕ) (xs : List Bytes)
    → get_elem? threads i ≡ some xs
    → i < length threads
get_elem?-lt [] i xs e = cc e
get_elem?-lt (t ∷ threads) zero xs e = omega arith
get_elem?-lt (t ∷ threads) (suc i) xs e = omega (arith, get_elem?-lt threads i xs e)

-- The commands of a thread start in its order.
Threads-Ordered :
    {threads : List (List Bytes)} {trace : List Bytes} (i : ℕ) (xs : List Bytes)
    → Threads threads trace
    → get_elem? threads i ≡ some xs
    → Ordered xs trace
Threads-Ordered {threads} i xs (joined h) e =
    subst (λ z. Ordered z []) (sym (All-get_elem? threads i xs h e)) nothing
Threads-Ordered {threads} i xs (runs {trace = later} j command left at_j more) e =
    elim (ℕ_discrete i j) [
      | yes same ↦
          subst (λ z. Ordered z (command ∷ later))
            (same_some (sym at_j ∙ ap (get_elem? threads) (sym same) ∙ e))
            (next command (
              Threads-Ordered i left more (
                ap (get_elem? (set threads j left)) same
                ∙ get_elem?-set_self threads j left
                    (get_elem?-lt threads j (command ∷ left) at_j))))
      | no differ ↦
          other command
            (Threads-Ordered i xs more (get_elem?-set_ne threads left (λ p. differ (sym p)) ∙ e))
    ]

abbrev commands : List (List Bytes) → ℕ
commands [] = 0
commands (t ∷ threads) = length t + commands threads

commands-joined :
    (threads : List (List Bytes)) → All (λ left. left ≡ []) threads → commands threads ≡ 0
commands-joined [] h = refl
commands-joined (t ∷ threads) (h, hs) = omega (arith, ap length h, commands-joined threads hs)

commands-set :
    (threads : List (List Bytes)) (i : ℕ) (command : Bytes) (left : List Bytes)
    → get_elem? threads i ≡ some (command ∷ left)
    → commands threads ≡ suc (commands (set threads i left))
commands-set [] i command left e = cc e
commands-set (t ∷ threads) zero command left e = omega (arith, ap length (same_some e))
commands-set (t ∷ threads) (suc i) command left e =
    omega (arith, commands-set threads i command left e)

length-Threads :
    {threads : List (List Bytes)} {trace : List Bytes}
    → Threads threads trace
    → length trace ≡ commands threads
length-Threads {threads} (joined h) = sym (commands-joined threads h)
length-Threads {threads} (runs i command left at_i more) =
    omega (arith, length-Threads more, commands-set threads i command left at_i)

export_versions-at :
    (versions : List Version) (threads : List (List Bytes)) (i : ℕ) (v : Version)
    → export_versions versions ≡ some threads
    → i < 3
    → get_elem? versions i ≡ some v
    → (get_elem? threads i ≡ some (export_version v)) × (commands threads ≡ 9)
unfolding export_versions
export_versions-at [] threads i v e lt at_i = cc e
export_versions-at (a ∷ []) threads i v e lt at_i = cc e
export_versions-at (a ∷ b ∷ []) threads i v e lt at_i = cc e
export_versions-at (a ∷ b ∷ c ∷ more) threads zero v e lt at_i = (
  ap (λ z. get_elem? z 0) (sym (same_some e)) ∙ ap (λ w. some (export_version w)) (same_some at_i),
  ap commands (sym (same_some e)),
)
export_versions-at (a ∷ b ∷ c ∷ more) threads (suc zero) v e lt at_i = (
  ap (λ z. get_elem? z 1) (sym (same_some e)) ∙ ap (λ w. some (export_version w)) (same_some at_i),
  ap commands (sym (same_some e)),
)
export_versions-at (a ∷ b ∷ c ∷ more) threads (suc (suc zero)) v e lt at_i = (
  ap (λ z. get_elem? z 2) (sym (same_some e)) ∙ ap (λ w. some (export_version w)) (same_some at_i),
  ap commands (sym (same_some e)),
)
export_versions-at (a ∷ b ∷ c ∷ more) threads (suc (suc (suc i))) v e lt at_i =
    absurd (omega (arith, lt))

-- However the threads interleave, 12 commands start, and for each of the first three versions its
-- own come in this order: /backup is made anew, the version is removed, it is put into /backup, it
-- is marked as done there, and rollback.version is removed, each by one command of `hdfs dfs`.
pub Export-Ordered :
    {versions : List Version} {trace : List Bytes} (i : ℕ) (v : Version)
    → Export versions trace
    → i < 3
    → get_elem? versions i ≡ some v
    → Ordered
        (codes "hdfs dfs -fs hdfs://namenode:9000/  -rm -r -f /backup"
          ∷ codes "hdfs dfs -fs hdfs://namenode:9000/  -mkdir /backup"
          ∷ (codes "hdfs dfs -fs hdfs://namenode:9000/  -rm -r -f /" ++ v.name)
          ∷ (codes "hdfs dfs -fs hdfs://namenode:9000/  -put -f " ++ (v.name ++ codes "  /backup/"))
          ∷ (codes "hdfs dfs -fs hdfs://namenode:9000/  -touch /backup/"
              ++ (v.name ++ codes "/model.done"))
          ∷ codes "hdfs dfs  -fs hdfs://namenode:9000/  -rm -f /rollback.version"
          ∷ [])
        trace
      × (length trace ≡ 12)
Export-Ordered {versions} i v (exports {threads} {trace} e more) lt at_i =
    let (at_thread, count) = export_versions-at versions threads i v e lt at_i in
    (
      Ordered-append clear_backup clear_rollback
          (Threads-Ordered i (export_version v) more at_thread),
      omega (arith, length-append trace clear_rollback, length-Threads more, count),
    )
