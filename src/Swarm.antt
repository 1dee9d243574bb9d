-- ===== src/Swarm.antt =====
-- src/swarm: the queue of subtasks and the parts of the coordinator round it.
pub mod Queue
pub mod PowerPolicy
pub mod SubtaskDeps
