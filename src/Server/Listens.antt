-- ===== src/Server/Listens.antt =====
-- code/src/main.cpp: when a node comes to listen.
use prob_alimama_2023_a.Base.{
  ℕ, ◌+◌, ◌*◌, ◌^◌, ◌<◌, ◌≡◌, refl, ap, ◌∙◌, true, ◌-◌, none, some, List, [], ◌∷◌, ◌++◌, get_elem?,
  Bytes, codes, All,
}
use prob_alimama_2023_a.Model.{SliceMeta, ModelMeta}
use prob_alimama_2023_a.Options.{Options, load_env, IfAddrs, get_local_ip, af_inet, is_local}
use prob_alimama_2023_a.Options.Env.{Other, get_local_ip-first}
use prob_alimama_2023_a.Handler.{SliceReader, reader_at}
use prob_alimama_2023_a.Hdfs.{ReadLaws, Readable, done, get_available_model_name}
use prob_alimama_2023_a.Hdfs.Latest.{ModelTables, get_latest_model}
use prob_alimama_2023_a.Hdfs.Local.{Disk, with_directory}
use prob_alimama_2023_a.Shard.{slice_num_per_node, shard_range, InShard}
use prob_alimama_2023_a.Manager.Load.{ModelHander}
use prob_alimama_2023_a.Manager.Load.Copied.{AllLoadable}
use prob_alimama_2023_a.Manager.Load.Served.{Numbered, load_new_model-reader}
use prob_alimama_2023_a.Manager.Switch.{NodeState}
use prob_alimama_2023_a.Manager.Start.{Seen, Start, failed, ready, waiting, new_node, init_rounds}
use prob_alimama_2023_a.Manager.Start
use prob_alimama_2023_a.Manager.Start.Ready.{init_rounds-idle, init_rounds-loaded}
use prob_alimama_2023_a.Discovery.{internalservice_dir, Discovery}
use prob_alimama_2023_a.Discovery
use prob_alimama_2023_a.Server.{Listening, listening, World, serve, start_node, run_server}
use prob_alimama_2023_a.Server.Built.{Connected, Connected-hdfs_init}

module _ (reader : SliceReader) (fuel : ℕ) (world : World) where
  open world use {getenv, inet_ntop, interfaces, connect, build_and_start, disk, seen, rounds}

  -- A round that finds a model which this node can load, in `int`s that are not negative and do not
  -- overflow, and whose barrier opens, after rounds that found none.
  pub record Loads (options : Options) (model : ModelMeta) : Type 1 where
    pub before : List Seen
    pub now : Seen
    pub after : List Seen
    pub each_round : seen ≡ before ++ now ∷ after
    pub nothing_before : All (λ (s : Seen). get_available_model_name s.api s.garbage ≡ none) before
    pub opens : now.barrier_opens ≡ true
    pub laws : ReadLaws now.api
    pub sane : Readable now.api
    pub tables : ModelTables
    pub latest : get_latest_model now.api now.garbage fuel [] ≡ done (some model, tables)
    pub per : ℕ
    pub split : slice_num_per_node model.slice_num options.node_num ≡ some per
    pub small : per * options.node_id + per + per < 2 ^ 31
    pub ready_disk : Disk
    pub folder : with_directory disk model.local_model_path ≡ some ready_disk
    pub numbered : Numbered model.slices
    pub loadable :
        AllLoadable now.api laws sane fuel model.local_model_path
          ((shard_range model.slice_num per options.node_id).1
            - (shard_range model.slice_num per options.node_id).0)
          (shard_range model.slice_num per options.node_id).0
          disk
          model.slices

  -- The first interface of the two names with an IPv4 address gives the address.
  pub record Addressed (ip : Bytes) : Type 0 where
    pub passed : List IfAddrs
    pub entry : IfAddrs
    pub others : List IfAddrs
    pub number : Bytes
    pub each_interface : interfaces ≡ passed ++ entry ∷ others
    pub nothing_local : All Other passed
    pub v4 : entry.ifa_addr ≡ some (af_inet, number)
    pub named : is_local entry.ifa_name ≡ true
    pub shown : inet_ntop number ≡ ip

  Addressed-get_local_ip : (ip : Bytes) → Addressed ip → get_local_ip inet_ntop interfaces ≡ some ip
  Addressed-get_local_ip ip a =
      ap (get_local_ip inet_ntop) a.each_interface
      ∙ get_local_ip-first inet_ntop a.passed a.others a.entry a.number a.nothing_local a.v4 a.named
      ∙ ap some a.shown

  start_node-ready :
      (options : Options) (server_address : Bytes) (node : NodeState reader)
      → build_and_start server_address ≡ true
      → (l : Listening reader) × (start_node reader fuel world options server_address
            (done (ready node))
          ≡ done (listening l))
        × (l.options ≡ options)
        × (l.node ≡ node)
  unfolding start_node serve
  start_node-ready options server_address node b =
      let (keys, stubs) = Discovery.init options.node_id options.node_num server_address rounds in
      (
        record {
          options = options;
          server_address = server_address;
          node = node;
          keys = keys;
          stubs = stubs;
        },
        rw (start_node, serve, b) refl,
        refl,
        refl,
      )

  run_server-start_node :
      (options : Options) (ip : Bytes)
      → load_env getenv ≡ some options
      → get_local_ip inet_ntop interfaces ≡ some ip
      → Connected connect
      → run_server reader fuel world
        ≡ start_node reader fuel world options
            (ip ++ codes ":50051")
            (init_rounds reader fuel options seen (new_node reader disk))
  unfolding run_server Start.init
  run_server-start_node options ip env local store =
      rw (run_server, env, local, Start.init, Connected-hdfs_init connect store) refl

  -- With options, an interface en0 or eth0 whose IPv4 address is the first, an HDFS that can be
  -- reached and has the root folder, a server that can be built at the address, and a round that
  -- finds a model whose shard this node can load and whose barrier opens, after rounds that found
  -- none, at a node that is not negative and whose sum `end + slice_num_per_node` is below 2 ^ 31:
  -- `RunServer` comes to listen, and for each slice of the shard the reader has loaded exactly the
  -- content of the slice's file.
  pub run_server_listens :
      (options : Options) (ip : Bytes) (model : ModelMeta)
      → load_env getenv ≡ some options
      → Addressed ip
      → Connected connect
      → build_and_start (ip ++ codes ":50051") ≡ true
      → (loads : Loads options model)
      → (l : Listening reader) × (hander : ModelHander reader) × (run_server reader fuel world
          ≡ done (listening l))
        × (l.node.hander ≡ some hander)
        × ((n : ℕ) (slice : SliceMeta)
            → InShard model.slice_num loads.per options.node_id n
            → get_elem? model.slices n ≡ some slice
            → (file : loads.now.api.File) × (loads.now.api.open_file slice.hdfs_slice_path
                ≡ some file)
              × (reader_at reader n hander.slice_readers
                  ≡ reader.load (some (loads.now.api.contents file)) reader.fresh))
  run_server_listens options ip model env local store built loads =
      let (hander, last, marked, ran, readers) =
        load_new_model-reader loads.now.api loads.laws loads.sane reader fuel options disk
          loads.ready_disk model loads.per loads.split loads.small loads.folder loads.numbered
          loads.loadable in
      let (l, e, _, node) = start_node-ready options (ip ++ codes ":50051") _ built in
      (
        l,
        hander,
        run_server-start_node options ip env (Addressed-get_local_ip ip local) store
            ∙ ap (start_node reader fuel world options (ip ++ codes ":50051")) (
                ap (λ z. init_rounds reader fuel options z (new_node reader disk)) loads.each_round
                ∙ init_rounds-idle reader fuel options loads.before (loads.now ∷ loads.after)
                    (new_node reader disk) loads.nothing_before
                ∙ init_rounds-loaded reader fuel options loads.now loads.after
                    (new_node reader disk) model marked loads.tables hander last loads.latest ran
                    loads.opens)
            ∙ e,
        ap (λ (z : NodeState reader). z.hander) node,
        readers,
      )
