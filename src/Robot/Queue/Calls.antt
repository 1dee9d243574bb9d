-- ===== src/Robot/Queue/Calls.antt =====
-- src/swarm/robot-queue.ts: histories of calls, and the change that each call makes to the tasks.
use Prim.Native.String.{String}
use edgecoder.Prelude.{ℕ, List, [], ◌∷◌, Ident, Result, ok, err}
use edgecoder.Robot.Queue.{
  RobotQueue, Error, TaskInput, register_agent, heartbeat, create_task, mark_funded, claim_task,
  submit_proof, settle_task, dispute_task, expire_stale, mark_swept,
}

pub data Call : Type 0 where
  registers : Ident → Ident → List Ident → Ident → ℕ → Call
  beats : Ident → ℕ → Call
  creates : TaskInput → Ident → ℕ → Call
  funds : Ident → Call
  claims : Ident → Ident → ℕ → Call
  submits : Ident → Ident → String → ℕ → Call
  settles : Ident → Ident → ℕ → ℕ → Call
  disputes : Ident → String → Call
  expires : ℕ → Call
  sweeps : Ident → Ident → Call

-- A call that throws leaves the queue as it was.
abbrev pub after : {A : Type 0} → RobotQueue → Result Error (RobotQueue × A) → RobotQueue
after q (ok r) = r.0
after q (err e) = q

unfoldable pub step : Call → RobotQueue → RobotQueue
step (registers a p cs k now) q = after q (register_agent a p cs k now q)
step (beats a now) q = heartbeat a now q
step (creates input fresh now) q = (create_task input fresh now q).0
step (funds i) q = after q (mark_funded i q)
step (claims i a now) q = after q (claim_task i a now q)
step (submits i a p now) q = after q (submit_proof i a p now q)
step (settles i fresh now entered) q = after q (settle_task i fresh now entered q)
step (disputes i reason) q = after q (dispute_task i reason q)
step (expires now) q = (expire_stale now q).0
step (sweeps a txid) q = mark_swept a txid q

unfoldable pub run : List Call → RobotQueue → RobotQueue
run [] q = q
run (c ∷ cs) q = run cs (step c q)
