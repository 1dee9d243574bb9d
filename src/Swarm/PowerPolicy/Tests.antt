-- ===== src/Swarm/PowerPolicy/Tests.antt =====
-- The theorems on the power policy at concrete inputs.
use edgecoder.Prelude.{◌≡◌, refl, true, false, some, none}
use edgecoder.Swarm.PowerPolicy.{
  AgentPowerTelemetry, PowerPolicyInput, ios, other_os, laptop, evaluate_agent_power_policy,
  evaluate_ios, evaluate_desktop, no_telemetry,
}
use edgecoder.Swarm.PowerPolicy.Charge.{charged_to}

abbrev unplugged_laptop : AgentPowerTelemetry
unplugged_laptop = record no_telemetry {
  on_ac_power = some false;
  battery_pct = some 9;
  device_type = some laptop;
}

abbrev phone_input : PowerPolicyInput
phone_input = record {
  os = ios;
  telemetry = none;
  now_ms = 900000;
  last_task_assigned_at_ms = some 1000;
  battery_pull_min_interval_ms = 600000;
  battery_task_stop_level_pct = 20;
  task_timeout_ms = none;
}

phone_allowed :
    (evaluate_agent_power_policy (record phone_input {
      telemetry = some (charged_to 25 no_telemetry);
    })).allow_coordinator_tasks
    ≡ true
unfolding evaluate_agent_power_policy evaluate_ios
phone_allowed = refl

abbrev plugged_laptop : AgentPowerTelemetry
plugged_laptop = record unplugged_laptop { on_ac_power = some true }

abbrev laptop_input : PowerPolicyInput
laptop_input = record phone_input { os = other_os 4 }

laptop_serves_peers :
    (evaluate_agent_power_policy
      (record laptop_input { telemetry = some plugged_laptop })).allow_peer_direct_work
    ≡ true
unfolding evaluate_agent_power_policy evaluate_desktop
laptop_serves_peers = refl
