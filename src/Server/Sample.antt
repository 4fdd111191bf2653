-- ===== src/Server/Sample.antt =====
-- code/src/main.cpp: a node alone, which finds a model of one slice in its second round.
use prob_alimama_2023_a.Base.{
  ℕ, zero, suc, ◌+◌, ◌<◌, ◌≡◌, inr, refl, true, none, some, List, [], ◌∷◌, get_elem?, arith, Bytes,
  codes, equal,
}
use prob_alimama_2023_a.Text.{find_first_of, to_string}
use prob_alimama_2023_a.Model.{SliceMeta, ModelMeta}
use prob_alimama_2023_a.Options.{
  Options, load_env, is_local, IfAddrs, af_inet, id_or_zero, int_or, memory_or_default,
}
use prob_alimama_2023_a.Options.Env.{Other}
use prob_alimama_2023_a.Samples.{memory_reader}
use prob_alimama_2023_a.GenData.{write_meta, slice_file_name}
use prob_alimama_2023_a.Hdfs.{done, get_available_model_name}
use prob_alimama_2023_a.Hdfs.Latest.{get_latest_model, latest_named, find_model, keep_model}
use prob_alimama_2023_a.Hdfs.Local.{with_directory}
use prob_alimama_2023_a.Hdfs.Meta.{load_model_meta}
use prob_alimama_2023_a.Hdfs.RoundTrip.{written_model, load_model_meta-write_meta}
use prob_alimama_2023_a.Hdfs.Store.{find_file, store, store-ReadLaws, store-Readable}
use prob_alimama_2023_a.Shard.{slice_num_per_node, shard_range}
use prob_alimama_2023_a.Manager.Load.Sample.{empty_disk}
use prob_alimama_2023_a.Manager.Load.Copied.{Loadable, AllLoadable}
use prob_alimama_2023_a.Manager.Load.Served.{Numbered}
use prob_alimama_2023_a.Hdfs.Local.{Disk}
use prob_alimama_2023_a.Manager.Start.{Seen}
use prob_alimama_2023_a.Server.{World}
use prob_alimama_2023_a.Server.Built.{Connected}
use prob_alimama_2023_a.Server.Listens.{Loads, Addressed}

abbrev meta_text : Bytes
meta_text = write_meta (codes "model_a") 1 4

abbrev pub files : List (Bytes × Bytes)
files =
    (codes "/", [])
    ∷ (codes "/model_a", [])
    ∷ (codes "/model_a/model.done", [])
    ∷ (codes "/model_a/model.meta", meta_text)
    ∷ (codes "/model_a/model_slice.0", 1 ∷ 2 ∷ 3 ∷ 4 ∷ [])
    ∷ []

abbrev pub entries : List Bytes
entries = codes "/model_a" ∷ []

abbrev pub model_a : ModelMeta
model_a = written_model (codes "model_a") 1 4

abbrev ethernet : IfAddrs
ethernet = record { ifa_name = codes "eth0"; ifa_addr = some (af_inet, 49 ∷ []) }

abbrev loopback : IfAddrs
loopback = record { ifa_name = codes "lo"; ifa_addr = some (af_inet, 127 ∷ 0 ∷ 0 ∷ 1 ∷ []) }

abbrev pub no_model : Seen
no_model = record { api = store ((codes "/", []) ∷ []) []; garbage = []; barrier_opens = true }

abbrev pub with_model : Seen
with_model = record { api = store files entries; garbage = []; barrier_opens = true }

abbrev pub lone_node : World
lone_node = record {
  getenv = λ name. none;
  inet_ntop = λ address. address;
  interfaces = loopback ∷ ethernet ∷ [];
  connect = λ address. some (store ((codes "/", []) ∷ []) []);
  build_and_start = λ address. true;
  disk = empty_disk;
  seen = no_model ∷ with_model ∷ [];
  rounds = [];
}

-- The options without an environment.
abbrev pub default_options : Options
default_options = record { node_id = 0; node_num = 1; cpu = 2; mempry = 18446744071562067968 }

pub default_options-load_env : load_env (λ name. none) ≡ some default_options
unfolding load_env id_or_zero int_or memory_or_default
default_options-load_env = refl

loopback-Other : Other loopback
unfolding is_local equal
loopback-Other = (2, 127 ∷ 0 ∷ 0 ∷ 1 ∷ [], refl, inr refl)

pub lone_ip : Addressed memory_reader 200 lone_node (49 ∷ [])
unfolding is_local equal
lone_ip = record {
  passed = loopback ∷ [];
  entry = ethernet;
  others = [];
  number = 49 ∷ [];
  each_interface = refl;
  nothing_local = (loopback-Other, tt);
  v4 = refl;
  named = refl;
  shown = refl;
}

pub lone_connected : Connected lone_node.connect
unfolding find_file equal
lone_connected = (store ((codes "/", []) ∷ []) [], refl, refl)

pub no_available : get_available_model_name no_model.api [] ≡ none
unfolding get_available_model_name find_file equal
no_available = refl

model_a_available : get_available_model_name with_model.api [] ≡ some (codes "model_a")
unfolding get_available_model_name find_file find_first_of
model_a_available = refl

meta_a : load_model_meta with_model.api 200 (codes "model_a") ≡ done (some model_a)
unfolding find_file write_meta to_string
meta_a =
    load_model_meta-write_meta with_model.api (store-ReadLaws files entries)
      (store-Readable files entries) 200 (codes "model_a") (codes "model_a") 1 4 meta_text refl refl
      (omega arith) (refl, (refl, (refl, (refl, (refl, (refl, (refl, tt))))))) (omega arith)

pub latest_a :
    get_latest_model with_model.api [] 200 [] ≡ done (some model_a, (codes "model_a", model_a) ∷ [])
unfolding get_latest_model latest_named find_model keep_model
latest_a = rw (get_latest_model, model_a_available, latest_named, meta_a) refl

unfoldable pub made_disk :
    (ready : Disk) × (with_directory empty_disk (codes "/tmp/model_a") ≡ some ready)
unfolding with_directory
made_disk = (_, refl)

pub model_a-Numbered : Numbered model_a.slices
unfolding to_string
model_a-Numbered zero slice e = same e
  where
    same : {a slice : SliceMeta} → some a ≡ some slice → slice.slice_no ≡ a.slice_no
    same e = cc e
model_a-Numbered (suc k) slice e = cc e

pub model_a-AllLoadable :
    AllLoadable with_model.api
      (store-ReadLaws files entries)
      (store-Readable files entries)
      200
      (codes "/tmp/model_a")
      1
      0
      empty_disk
      model_a.slices
unfolding find_file find_first_of to_string equal slice_file_name
model_a-AllLoadable = record {
  each = λ k lt. only k lt;
  apart = λ j k a b jl kl n x y. absurd (n (omega (arith, jl, kl)));
}
  where
    only :
        (k : ℕ)
        → k < 1
        → (slice : SliceMeta) × (get_elem? model_a.slices (0 + k) ≡ some slice)
          × Loadable with_model.api
              (store-ReadLaws files entries)
              (store-Readable files entries)
              200
              (codes "/tmp/model_a")
              empty_disk
              slice
    only zero lt = (
      _,
      refl,
      record {
        fresh = refl;
        content = 1 ∷ 2 ∷ 3 ∷ 4 ∷ [];
        source = (1 ∷ 2 ∷ 3 ∷ 4 ∷ [], refl, refl, omega arith);
        writable = refl;
      },
    )
    only (suc k) lt = absurd (omega (arith, lt))

unfoldable pub lone_node-Loads : Loads memory_reader 200 lone_node default_options model_a
unfolding slice_num_per_node shard_range
lone_node-Loads = record {
  before = no_model ∷ [];
  now = with_model;
  opens = refl;
  after = [];
  each_round = refl;
  nothing_before = (no_available, tt);
  laws = store-ReadLaws files entries;
  sane = store-Readable files entries;
  tables = (codes "model_a", model_a) ∷ [];
  latest = latest_a;
  per = 1;
  split = refl;
  small = omega arith;
  ready_disk = made_disk.0;
  folder = made_disk.1;
  numbered = model_a-Numbered;
  loadable = model_a-AllLoadable;
}
