-- ===== src/Lib.antt =====
-- A model of the distributed slice store under code/src. Nodes share the slices of a model; a
-- client asks any node for pieces of slices (`Get`), which that node reads itself or asks of the
-- other nodes. The parts and their files:
--
-- Request.antt: the messages (code/src/alimama.proto, internal.proto), a request's RequestTask and
-- RequestResult (code/src/model_hander.h), and the pieces of `Get` that both services share:
-- `locate`, `add_size` (code/src/model_service.cpp), `count_finished` (code/src/model_hander.cpp)
-- and `wait`.
--
-- Handler.antt: the readers of a node's slices and `processTask` (code/src/model_hander.cpp);
-- Workers.antt: the queue of tasks and the threads that take from it, as a step relation. The
-- ModelSliceReader that the build links is a parameter, the record SliceReader.
--
-- Internal.antt: `Get` of the service for the other nodes (code/src/model_internal_server.cpp).
--
-- Client.antt: `Push` and `HandleResponse` of the stub for another node
-- (code/src/model_async_client.cpp). gRPC is the reply that a step of Service delivers.
--
-- Service.antt: `Get` of the service for clients (code/src/model_service.cpp): the loops that route
-- and dispatch, then a step relation in which the tasks end in any order and calls may fail, then
-- the response.
--
-- Cluster.antt: the nodes together, each with the readers that `loadNewModel` gave it, and the
-- abstract view of the cluster: the model in HDFS. What `Read` of a ModelSliceReader gives after
-- `Load` is the record ReadsFile, after its header in code/demo_model_slice_reader.
--
-- Discovery.antt: the thread that `init` of the service starts (code/src/model_service.cpp): the
-- keys in etcd, the other nodes and their stubs. What etcd lists and which addresses answer are
-- given for each round of the loop.
--
-- Shard.antt: the split of the slices over the nodes and the routing of a slice
-- (code/src/model_manger.cpp).
--
-- Manager.antt: the switch to a new model (code/src/model_manger.cpp). Manager/Load.antt:
-- `loadNewModel` up to the barrier, on the disk of Hdfs/Local.antt; Manager/Barrier.antt: the
-- barrier, as a step relation of all nodes over etcd; Manager/Handlers.antt: the table of handlers,
-- both `getModelHander` and the thread that unloads old handlers, as a step relation with n
-- requests; Manager/Switch.antt: a round of the loops in `init` and `run`; Manager/Start.antt:
-- `init` and `run`, over the rounds of their loops; whether the barrier of a round opens is given
-- there. etcd is a parameter, the record Etcd of Etcd.antt, whose laws state what `set` does to the
-- listings; Etcd/Table.antt is a table that has them.
--
-- Allocator.antt: the blocks for the results (code/src/memory_allocator.cpp). A step of the
-- relation is the piece of a call between two releases of the mutex, for one of n requests.
--
-- Hdfs.antt: which model is served (`getAvailableModelName`); Hdfs/Meta.antt: `loadModelMeta`;
-- Hdfs/Latest.antt: `getLastestModel` with the models it keeps; Hdfs/Local.antt: the local copies;
-- Hdfs/Connect.antt: `init` (code/src/hdfs_hander.cpp). libhdfs is a parameter, the record HdfsApi;
-- ReadLaws states what its documentation says of hdfsRead, and Readable that no read fails.
--
-- Options.antt: the options and the address of a node (code/src/utils.cpp).
--
-- Benchmark.antt: the benchmark (testbench/grpc_benchmark.h) as a step relation over its client
-- threads, collectors, calculator and calls, on queues of ConcurrentQueue.antt;
-- Benchmark/Summary.antt: its counters and `Summary`. A double is a value of the record Double; the
-- order of an iterator over the heap of latencies is a parameter.
--
-- Testbench.antt: the requests, the services and the client of testbench/testbench.cc;
-- Testbench/MaxQps.antt: the search for the largest rate, over what its iterations measure.
--
-- Server.antt: `RunServer` (code/src/main.cpp), which builds the parts of a node and starts them.
-- What the program finds is the record World; gRPC's `BuildAndStart` is a parameter.
--
-- ServiceTest.antt: the client of code/src/model_service_test.cc. Export.antt: the commands of
-- testbench/export_to_hdfs.cpp and the interleavings of its threads.
--
-- TokenBucket.antt and ConcurrentQueue.antt: the rate limit and the queue of the benchmark
-- (testbench/token_bucket.h, concurent_queue.h). The one-token calls of a bucket are a sequence,
-- with the time at which each returns; the operations of the queue are the steps of a relation.
--
-- GenData.antt: the text of model.meta that testbench/gen_data.cpp writes; GenData/Content.antt:
-- the content of the slices (with testbench/hash.hpp) and the check of the seeds before them.
-- Config.antt: `LoadConfig` (testbench/config.hpp), where the JSON library is a parameter, the
-- record Json. Model.antt: SliceMeta and ModelMeta (code/src/hdfs_hander.h). Text.antt: the
-- functions of std::string that the sources use. Base.antt and its children: shared names, lists,
-- byte strings, machine words, buffers, and sums over threads, counting. Samples.antt: data of the
-- examples.
--
-- Integers. An int is its bit pattern, a number below 2 ^ 32, and where its sign matters the
-- pattern is tested, as for the node_id in Manager/Load.antt and Discovery.antt; uint64_t is a
-- number below 2 ^ 64; conversions between them are in Base/Words.antt. A write or read outside a
-- buffer, a division by zero and an exception are `none`, or `fault` where a loop may also still be
-- running.
--
-- Loops. The loops over messages and lists are structural. The two loops that read a file run on
-- fuel; more fuel than the file has bytes is enough, since every read gives a byte or ends the
-- loop. The wait for the end of a request is a step relation.
--
-- Not modelled: printing and logs, destructors that free memory, the composition of the client and
-- the benchmark in one iteration of testbench.cc, and the demonstrations, which use libraries
-- alone.
pub mod Allocator
pub mod Base
pub mod Benchmark
pub mod Client
pub mod Cluster
pub mod ConcurrentQueue
pub mod Config
pub mod Discovery
pub mod Etcd
pub mod Export
pub mod GenData
pub mod Handler
pub mod Hdfs
pub mod Internal
pub mod Manager
pub mod Model
pub mod Options
pub mod Request
pub mod Samples
pub mod Server
pub mod Service
pub mod ServiceTest
pub mod Shard
pub mod Testbench
pub mod Text
pub mod TokenBucket
pub mod Workers
