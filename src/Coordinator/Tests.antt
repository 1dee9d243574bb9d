-- ===== src/Coordinator/Tests.antt =====
-- The theorems on what src/swarm/coordinator.ts joins, at concrete inputs.
use edgecoder.Prelude.{◌≡◌, refl, true, some, List, [], ◌∷◌, arith, is_some}
use edgecoder.Security.AnomalyDetector.{default_anomaly_config}
use edgecoder.Security.BehaviorTracker.{new_tracker}
use edgecoder.Security.BehaviorTracker.Calls.{run}
use edgecoder.Security.BehaviorTracker.Tests.{hash, size, calls, figures, asked, sha, no_strikes}
use edgecoder.Coordinator.Register.{new_register, active_blacklist_record}
use edgecoder.Coordinator.Register.AuditLog.{looks_up}
use edgecoder.Coordinator.Register.Expiry.{RegisterCall, does, ingests, run_any}
use edgecoder.Coordinator.Register.Tests.{me, reported, reported-agent_id}
use edgecoder.Coordinator.Enforcement.{Monitor, evaluate_and_enforce, abuser_refused}

abbrev monitor : Monitor
monitor = record {
  tracker = run hash size calls (new_tracker (some 100));
  config = default_anomaly_config;
  blacklister = no_strikes;
  register = new_register 99;
}

-- The coordinator looks the agent up, and a peer reports another agent.
abbrev history : List RegisterCall
history = does (looks_up 3 300) ∷ ingests reported 2 5 320 ∷ []

abuser_refused_example :
    is_some
      (active_blacklist_record 3 500
        (run_any me history (evaluate_and_enforce me sha 3 77 200 monitor).register)).1
    ≡ true
abuser_refused_example =
    abuser_refused hash size sha me (some 100) calls 3 77 200 500 figures monitor history refl
      (omega arith) asked (omega arith)
      ((λ e. omega arith), ((λ e. omega (arith, e, reported-agent_id)), tt))
