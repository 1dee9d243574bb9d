-- ===== src/Robot.antt =====
-- src/swarm/robot-types.ts and src/swarm/robot-queue.ts: tasks for robots, paid out of an escrow.
pub mod Types
pub mod Queue
