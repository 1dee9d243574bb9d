-- ===== src/Coordinator/Pull/Tests.antt =====
-- The theorems on `POST /pull` of src/swarm/coordinator.ts at concrete coordinators.
use edgecoder.Prelude.{◌+◌, ◌≡◌, ◌≢◌, refl, true, none, some, [], ◌∷◌, ◌==◌, Ident, if◌then◌else◌}
use edgecoder.Types.{Subtask}
use edgecoder.Ledger.Crypto.{Crypto}
use edgecoder.Security.BehaviorTracker.{new_tracker}
use edgecoder.Swarm.PowerPolicy.{other_os, evaluate_agent_power_policy, evaluate_desktop}
use edgecoder.Swarm.Queue.{claim, pool, matching, best, prefer, completed}
use edgecoder.Swarm.Queue.Board.{board, granted}
use edgecoder.Swarm.Queue.Board
use edgecoder.Swarm.Queue.Tests.{subtask, waiting, queue}
use edgecoder.Coordinator.Register.{new_register, active_blacklist_record}
use edgecoder.Coordinator.Pull.{
  Coordinator, unsigned, signed_by, sandbox_required, task, no_sandbox, docker, power_decision,
  hand_out, pull_powered, pull_allowed, pull,
}
use edgecoder.Coordinator.Pull.Guards.{MayHave, pull_guarded}
use edgecoder.Coordinator.Pull.Kept.{pull_kept}

abbrev toy : Crypto
toy = record { sign = λ payload key. payload + key; verify = λ payload key signature. some true }

abbrev coordinator : Coordinator
coordinator = record {
  agent_capabilities =
      (
        8,
        record {
          os = other_os 4;
          power_telemetry = none;
          active_model = none;
          sandbox_mode = docker;
        },
      )
      ∷ (
        9,
        record {
          os = other_os 4;
          power_telemetry = none;
          active_model = none;
          sandbox_mode = no_sandbox;
        },
      )
      ∷ [];
  register = new_register 99;
  queue = queue;
  last_task_assigned_by_agent = [];
  behavior_tracker = new_tracker none;
  ordering = record { records = []; signer_peer_id = 1; signer_private_key = 2 };
  battery_pull_min_interval_ms = 600000;
  battery_task_stop_level_pct = 20;
}

reply_of_8 :
    (pull toy (λ payload. payload.sequence) (signed_by 8) 8 100 70 coordinator).1
    ≡ task (subtask 13 6 50 4)
unfolding pull pull_allowed pull_powered hand_out power_decision active_blacklist_record
    evaluate_agent_power_policy evaluate_desktop claim pool matching best prefer completed
reply_of_8 = refl

pull_guarded_example :
    MayHave 8 100 coordinator (subtask 13 6 50 4)
    × (board queue 13 ≡ Board.waiting)
    × ((i : Ident)
        → board
            (pull toy (λ payload. payload.sequence) (signed_by 8) 8 100 70 coordinator).0.queue
            i
          ≡ (if 13 == i then granted 8 else board queue i))
pull_guarded_example =
    pull_guarded toy (λ payload. payload.sequence) 8 100 70 (signed_by 8) coordinator
      (subtask 13 6 50 4) (refl, (refl, (refl, tt))) reply_of_8

-- The only subtask left is a tenant's, and the agent runs without a sandbox.
abbrev tenants : Subtask
tenants =
    let s = subtask 14 7 1 3 in
    record s { project_meta = record s.project_meta { tenant_id = some 55 } }

abbrev tenant_coordinator : Coordinator
tenant_coordinator = record coordinator { queue = record queue { tasks = waiting tenants ∷ [] } }

reply_of_9 :
    (pull toy (λ payload. payload.sequence) unsigned 9 100 70 tenant_coordinator).1
    ≡ sandbox_required
unfolding pull pull_allowed pull_powered hand_out power_decision active_blacklist_record
    evaluate_agent_power_policy evaluate_desktop claim pool matching best prefer completed
reply_of_9 = refl

no_task_for_9 :
    (s : Subtask)
    → (pull toy (λ payload. payload.sequence) unsigned 9 100 70 tenant_coordinator).1 ≢ task s
no_task_for_9 s h = let no_task = rw reply_of_9 at h in cc

pull_kept_example :
    board (pull toy (λ payload. payload.sequence) unsigned 9 100 70 tenant_coordinator).0.queue 14
    ≡ board tenant_coordinator.queue 14
pull_kept_example =
    pull_kept toy (λ payload. payload.sequence) 9 100 70 unsigned tenant_coordinator (refl, tt)
      no_task_for_9 14
