-- ===== src/Server.antt =====
-- code/src/main.cpp: `RunServer`, which builds the parts of a node and starts them.
mod Built
mod Listens
mod Sample
mod Examples
use prob_alimama_2023_a.Base.{
  ℕ, Bool, Option, none, some, List, ◌++◌, ◌∷◌, if◌then◌else◌, Bytes, codes,
}
use prob_alimama_2023_a.Options.{Options, load_env, IfAddrs, get_local_ip}
use prob_alimama_2023_a.Handler.{SliceReader}
use prob_alimama_2023_a.Hdfs.{HdfsApi, Outcome, done, fault, running}
use prob_alimama_2023_a.Hdfs.Local.{Disk}
use prob_alimama_2023_a.Manager.Switch.{NodeState}
use prob_alimama_2023_a.Manager.Start.{Seen, Start, failed, ready, waiting, new_node}
use prob_alimama_2023_a.Manager.Start
use prob_alimama_2023_a.Discovery.{Round, Discovery}
use prob_alimama_2023_a.Discovery

-- A server that waits for requests: what it was built from, and what the thread of the service has
-- done so far.
pub record Listening (reader : SliceReader) : Type 0 where
  pub options : Options
  pub server_address : Bytes
  pub node : NodeState reader
  pub keys : List (Bytes × Bytes)
  pub stubs : Discovery

-- `RunServer` has returned; it still waits for a model; or it listens.
pub data Server (reader : SliceReader) : Type 0 where
  stopped starting : Server reader
  listening : Listening reader → Server reader

-- What the program finds: the environment, the interfaces, HDFS, whether a server can be built at
-- an address, the disk, and what the rounds of its loops get to see.
pub record World : Type 1 where
  pub getenv : Bytes → Option Bytes
  pub inet_ntop : Bytes → Bytes
  pub interfaces : List IfAddrs
  pub connect : Bytes → Option HdfsApi
  pub build_and_start : Bytes → Bool
  pub disk : Disk
  pub seen : List Seen
  pub rounds : List Round

module _ (reader : SliceReader) (fuel : ℕ) (world : World) where
  open world use {getenv, inet_ntop, interfaces, connect, build_and_start, disk, seen, rounds}

  -- The rest of `RunServer` once the model manager has its model. `init` of the service starts its
  -- thread and returns 0. `Wait` on the null pointer that `BuildAndStart` may give is a fault.
  unfoldable pub serve :
      Options → (server_address : Bytes) → NodeState reader → Outcome (Server reader)
  unfolding Discovery.init
  serve options server_address node =
      let (keys, stubs) = Discovery.init options.node_id options.node_num server_address rounds in
      if build_and_start server_address
      then done (
          listening (record {
            options = options;
            server_address = server_address;
            node = node;
            keys = keys;
            stubs = stubs;
          }))
      else fault

  unfoldable pub start_node :
      Options → (server_address : Bytes) → Outcome (Start reader) → Outcome (Server reader)
  unfolding serve
  start_node options server_address (done failed) = done stopped
  start_node options server_address (done waiting) = done starting
  start_node options server_address (done (ready node)) = serve options server_address node
  start_node options server_address fault = fault
  start_node options server_address running = running

  -- An exception that nothing catches ends the program: a fault, as is a null `ifa_addr`.
  unfoldable pub run_server : Outcome (Server reader)
  unfolding load_env get_local_ip Start.init start_node
  run_server = elim (load_env getenv) [
    | none ↦ fault
    | some options ↦ elim (get_local_ip inet_ntop interfaces) [
      | none ↦ fault
      | some ip ↦
          start_node options (ip ++ codes ":50051")
            (Start.init reader fuel options connect seen (new_node reader disk))
    ]
  ]
