-- ===== src/Server/Built.antt =====
-- code/src/main.cpp: what a server that listens has been built from.
use prob_alimama_2023_a.Base.{
  ℕ, ◌≡◌, refl, subst, inl, inr, true, Bool-cases, Option, some, Option-cases, List, [], ◌++◌,
  get_elem?, Bytes, codes, ◌==◌,
}
use prob_alimama_2023_a.Text.{int_to_string}
use prob_alimama_2023_a.Options.{Options, load_env, get_local_ip}
use prob_alimama_2023_a.Handler.{SliceReader}
use prob_alimama_2023_a.Hdfs.{HdfsApi, Outcome, done, fault, running, model_root_dir}
use prob_alimama_2023_a.Hdfs.Connect.{hdfs_address, hdfs_hander}
use prob_alimama_2023_a.Hdfs.Connect
use prob_alimama_2023_a.Hdfs.Local.{Disk}
use prob_alimama_2023_a.Manager.Switch.{NodeState}
use prob_alimama_2023_a.Manager.Start.{Seen, Start, failed, ready, waiting, new_node, init_rounds}
use prob_alimama_2023_a.Manager.Start
use prob_alimama_2023_a.Manager.Start.Ready.{Chosen, init_rounds-Chosen, init-init_rounds}
use prob_alimama_2023_a.Discovery.{internalservice_dir, Discovery}
use prob_alimama_2023_a.Discovery
use prob_alimama_2023_a.Server.{Listening, Server, listening, World, serve, start_node, run_server}

-- HDFS can be reached and has the root folder.
abbrev pub Connected : (Bytes → Option HdfsApi) → Type 1
Connected connect =
    (fs : HdfsApi) × (connect hdfs_address ≡ some fs) × (fs.exists model_root_dir ≡ true)

module _ (connect : Bytes → Option HdfsApi) where
  hdfs_init-Connected :
      ((Connect.init connect (hdfs_hander hdfs_address)).0 == 0) ≡ true → Connected connect
  unfolding Connect.init
  hdfs_init-Connected e = elim (Option-cases (connect hdfs_address)) [
    | inl c ↦ cc (rw (Connect.init, c) at e)
    | inr (fs, c) ↦ elim (Bool-cases (fs.exists model_root_dir)) [
      | inl x ↦ (fs, c, x)
      | inr x ↦ cc (rw (Connect.init, c, x) at e)
    ]
  ]

  pub Connected-hdfs_init :
      Connected connect → ((Connect.init connect (hdfs_hander hdfs_address)).0 == 0) ≡ true
  unfolding Connect.init
  Connected-hdfs_init (fs, c, x) = rw (Connect.init, c, x) refl

module _ (reader : SliceReader) (fuel : ℕ) (options : Options) (connect : Bytes → Option HdfsApi)
    (rounds : List Seen) (disk : Disk) where
  init-Chosen :
      (t : NodeState reader)
      → Start.init reader fuel options connect rounds (new_node reader disk) ≡ done (ready t)
      → Connected connect × Chosen reader fuel options rounds t
  init-Chosen t e =
      let (c, r) = init-init_rounds reader fuel options connect rounds (new_node reader disk) t e in
      let (chosen, _) =
        init_rounds-Chosen reader fuel options rounds (new_node reader disk) t tt r in
      (hdfs_init-Connected connect c, chosen)

same_listening :
    {reader : SliceReader} {l m : Listening reader}
    → ◌≡◌ {A = Outcome (Server reader)} (done (listening l)) (done (listening m))
    → l ≡ m
same_listening e = cc e

init-first_key :
    (node_id node_num : ℕ) (server_address : Bytes) (rounds : List Discovery.Round)
    → get_elem? (Discovery.init node_id node_num server_address rounds).0 0
      ≡ some (internalservice_dir ++ server_address, int_to_string node_id)
unfolding Discovery.init
init-first_key node_id node_num server_address rounds =
    by_end (Discovery.discover node_id node_num rounds []) refl
  where
    by_end :
        (d : Discovery)
        → Discovery.discover node_id node_num rounds [] ≡ d
        → get_elem? (Discovery.init node_id node_num server_address rounds).0 0
          ≡ some (internalservice_dir ++ server_address, int_to_string node_id)
    by_end (Discovery.found stubs) e = rw (Discovery.init, e) refl
    by_end (Discovery.searching stubs) e = rw (Discovery.init, e) refl
    by_end Discovery.thrown e = rw (Discovery.init, e) refl

module _ (reader : SliceReader) (fuel : ℕ) (world : World) where
  open world use {getenv, inet_ntop, interfaces, connect, build_and_start, disk, seen, rounds}

  -- What a server that listens has been built from.
  pub record Built (l : Listening reader) : Type 1 where
    pub from_env : load_env getenv ≡ some l.options
    pub ip : Bytes
    pub local : get_local_ip inet_ntop interfaces ≡ some ip
    pub address : l.server_address ≡ ip ++ codes ":50051"
    pub store : Connected connect
    pub chosen : Chosen reader fuel l.options seen l.node
    pub announced :
        get_elem? l.keys 0
        ≡ some (codes "/services/tmpservice/" ++ l.server_address, int_to_string l.options.node_id)

  serve-Built :
      (options : Options) (ip : Bytes) (node : NodeState reader) (l : Listening reader)
      → load_env getenv ≡ some options
      → get_local_ip inet_ntop interfaces ≡ some ip
      → Connected connect
      → Chosen reader fuel options seen node
      → serve reader fuel world options (ip ++ codes ":50051") node ≡ done (listening l)
      → Built l
  unfolding serve
  serve-Built options ip node l env local store chosen e =
      elim (Bool-cases (build_and_start (ip ++ codes ":50051"))) [
        | inr b ↦ cc (rw (serve, b) at e)
        | inl b ↦ subst Built (same_listening (rw (serve, b) at e)) (record {
          from_env = env;
          ip = ip;
          local = local;
          address = refl;
          store = store;
          chosen = chosen;
          announced = init-first_key options.node_id options.node_num (ip ++ codes ":50051") rounds;
        })
      ]

  start_node-Built :
      (options : Options) (ip : Bytes) (o : Outcome (Start reader)) (l : Listening reader)
      → load_env getenv ≡ some options
      → get_local_ip inet_ntop interfaces ≡ some ip
      → Start.init reader fuel options connect seen (new_node reader disk) ≡ o
      → start_node reader fuel world options (ip ++ codes ":50051") o ≡ done (listening l)
      → Built l
  unfolding start_node
  start_node-Built options ip (done (ready node)) l env local q e =
      let (store, chosen) = init-Chosen reader fuel options connect seen disk node q in
      serve-Built options ip node l env local store chosen e
  start_node-Built options ip (done failed) l env local q e = cc e
  start_node-Built options ip (done waiting) l env local q e = cc e
  start_node-Built options ip fault l env local q e = cc e
  start_node-Built options ip running l env local q e = cc e

  -- If `RunServer` comes to listen: the options are those of the environment, the address is the
  -- local one with the port, HDFS was reached and had the root folder, the node serves the model
  -- that was available in one of the rounds of `init`, with the handler that `loadNewModel` made of
  -- it, and the first key that the service sets is its address below /services/tmpservice/, with
  -- the text of `node_id`, an int that is written with its sign.
  pub run_server-Built :
      (l : Listening reader) → run_server reader fuel world ≡ done (listening l) → Built l
  unfolding run_server
  run_server-Built l e = elim (Option-cases (load_env getenv)) [
    | inl env ↦ cc (rw (run_server, env) at e)
    | inr (options, env) ↦ elim (Option-cases (get_local_ip inet_ntop interfaces)) [
      | inl local ↦ cc (rw (run_server, env, local) at e)
      | inr (ip, local) ↦
          start_node-Built options ip
            (Start.init reader fuel options connect seen (new_node reader disk)) l env local refl
            (rw (run_server, env, local) at e)
    ]
  ]
