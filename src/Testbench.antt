-- ===== src/Testbench.antt =====
-- testbench/testbench.cc, testbench/testbench2.cc (the same but for two constants), and the request
-- of code/src/model_service_test.cc: the requests, the client of a benchmark, the services that it
-- asks, and the search for the largest rate. A double is a value of the record Double.
mod Turns
pub mod Pieces
pub mod MaxQps
mod Examples
use prob_alimama_2023_a.Base.{
  ℕ, zero, suc, ◌+◌, ◌%◌, ◌^◌, Bool, true, false, Option, none, some, ◌>>=◌, List, [], ◌∷◌, ◌++◌,
  length, get_elem?, take, drop, ◌==◌, if◌then◌else◌, Bytes, codes,
}
use prob_alimama_2023_a.Text.{substr_from}
use prob_alimama_2023_a.Request.{SliceRequest}
use prob_alimama_2023_a.Benchmark.Summary.{Status}

-- The loop that fills a request, from slice `i` on, with `n` to go; `partition` is `i % 20` in
-- testbench.cc and model_service_test.cc, and `i` in testbench2.cc.
unfoldable pub add_slice_requests : (partition : ℕ → ℕ) (i n : ℕ) → List SliceRequest
add_slice_requests partition i zero = []
add_slice_requests partition i (suc n) =
    record { slice_partition = partition i; data_start = i; data_len = 16 }
    ∷ add_slice_requests partition (suc i) n

unfoldable pub load_request : (partition : ℕ → ℕ) → List SliceRequest
unfolding add_slice_requests
load_request partition = add_slice_requests partition 0 1000

abbrev pub service_prefix : Bytes
service_prefix = codes "/services/modelservice/"

-- The loop of `setupModelService`; `none` is the exception of `substr`.
unfoldable pub server_addresses : (keys : List Bytes) → Option (List Bytes)
server_addresses [] = some []
server_addresses (key ∷ keys) = do
  server_address ← substr_from key (length service_prefix)
  services ← server_addresses keys
  some (server_address ∷ services)

-- `setupModelService`, with the keys of etcd below the prefix, if the call succeeds.
unfoldable pub setup_model_service : Option (List Bytes) → Option (List Bytes)
unfolding server_addresses
setup_model_service none = some []
setup_model_service (some keys) = server_addresses keys

-- The comparison that the benchmark is made with; its summary is `total_num`, the bit pattern of an
-- int.
abbrev pub compare_result_dummy : {Resp Ref : Type 0} → Resp → Ref → ℕ → Bool × ℕ
compare_result_dummy resp ref total_num = (true, total_num)

-- The one that counts, which no call uses; `none` is a null pointer.
abbrev pub compare_result : {Resp Ref : Type 0} → Option Resp → Option Ref → ℕ → Bool × ℕ
compare_result none ref total_num = (true, total_num)
compare_result (some resp) none total_num = (true, total_num)
compare_result (some resp) (some ref) total_num = (true, (total_num + 1) % 2 ^ 32)

-- What was asked of a stub, and is with the completion queue; `obj` is the caller's.
pub record RequestItem (Req Obj : Type 0) : Type 0 where
  pub service : Bytes
  pub req : Req
  pub obj : Obj

-- `ModelServiceGprcClient`: the addresses stand for the stubs.
pub record ModelServiceGrpcClient (Req Obj : Type 0) : Type 0 where
  pub stubs : List Bytes
  pub req_idx : ℕ
  pub enable : Bool
  pub items : List (RequestItem Req Obj)

-- `Next` of the completion queue: it is shut down and empty; or the item at a place has come back,
-- with what gRPC has put into it. A place without an item is a null pointer.
pub data Event (Resp : Type 0) : Type 0 where
  shut_down : Event Resp
  completed : (ok : Bool) (place : ℕ) (resp : Resp) (status : Status) → Event Resp

-- The loop of `Init`; `new_stub` is whether `NewStub` gives a stub.
unfoldable pub add_stubs : (new_stub : Bytes → Bool) (services : List Bytes) → Bool × List Bytes
add_stubs new_stub [] = (true, [])
add_stubs new_stub (svc ∷ services) =
    let (good, stubs) = add_stubs new_stub services in
    if new_stub svc then (good, svc ∷ stubs) else (false, [])

abbrev pub without {ℓ} : {A : Type ℓ} → ℕ → List A → List A
without i xs = take i xs ++ drop (suc i) xs

module _ {Req Obj : Type 0} where
  -- The constructor and `Init`.
  unfoldable pub init :
      (new_stub : Bytes → Bool) (services : List Bytes) → Bool × ModelServiceGrpcClient Req Obj
  unfolding add_stubs
  init new_stub services =
      let (good, stubs) = add_stubs new_stub services in
      (good, record { stubs = stubs; req_idx = 0; enable = good; items = [] })

  -- `Request`; with no stubs the code divides by zero.
  unfoldable pub request :
      Req → Obj → ModelServiceGrpcClient Req Obj → Option (Bool × ModelServiceGrpcClient Req Obj)
  request req obj client =
      if client.enable
      then (do
        service ← get_elem? client.stubs (client.req_idx % length client.stubs)
        some (
          true,
          record client {
            req_idx = (client.req_idx + 1) % 2 ^ 64;
            items = client.items ++ record { service = service; req = req; obj = obj } ∷ [];
          },
        ))
      else some (false, client)

  -- `WaitResponse`: what it answers, if it returns true. The queue is made with the first stub, so
  -- with no stubs the pointer to it is null.
  unfoldable pub wait_response :
      {Resp : Type 0}
      → Event Resp
      → ModelServiceGrpcClient Req Obj
      → Option (Option (Resp × Status × Obj) × ModelServiceGrpcClient Req Obj)
  wait_response event client = if length client.stubs == 0 then none else elim event [
    | shut_down ↦ some (none, client)
    | completed good place resp status ↦
        let left = record client { items = without place client.items } in
        elim (get_elem? client.items place) [
          | none ↦ some (none, client)
          | some item ↦ some (if good then some (resp, status, item.obj) else none, left)
        ]
  ]

  -- `Close`, also with a null pointer where there are no stubs.
  unfoldable pub close :
      ModelServiceGrpcClient Req Obj → Option (Bool × ModelServiceGrpcClient Req Obj)
  close client =
      if length client.stubs == 0 then none else some (true, record client { enable = false })

  -- `CreateClients`: all clients, or none at all if one fails.
  unfoldable pub create_clients :
      (new_stub : ℕ → Bytes → Bool) (services : List Bytes) (threads : ℕ)
      → List (ModelServiceGrpcClient Req Obj)
  unfolding init
  create_clients new_stub services threads = elim (made threads) [
    | none ↦ []
    | some clients ↦ clients
  ]
    where
      made : ℕ → Option (List (ModelServiceGrpcClient Req Obj))
      made zero = some []
      made (suc n) = do
        clients ← made n
        let (good, client) = init (new_stub n) services
        if good then some (clients ++ client ∷ []) else none
