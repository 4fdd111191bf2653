-- ===== src/Manager.antt =====
-- code/src/model_manger.cpp: the node's part of a switch to a new model. `Shard` has the split of
-- the slices and the routing; the children have the barrier between the nodes and the handlers in
-- use.
pub mod Barrier
pub mod Handlers
pub mod Load
pub mod Switch
pub mod Start
