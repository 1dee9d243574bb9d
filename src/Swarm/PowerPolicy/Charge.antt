-- ===== src/Swarm/PowerPolicy/Charge.antt =====
-- src/swarm/power-policy.ts: how a decision depends on the charge and on the supply.
use edgecoder.Prelude.{ℕ, ◌≤◌, ◌≡◌, true, false, some, arith, min, ◌⊎◌, ◌↔◌, Ident}
use edgecoder.Swarm.PowerPolicy.{
  AgentPowerTelemetry, PowerPolicyInput, other_os, evaluate_ios, on_battery, evaluate_desktop,
  evaluate_agent_power_policy, is_hot, is_true, above, is_server, is_desktop, on_mains, at_most,
}

-- The same report with another charge of the battery.
abbrev pub charged_to : ℕ → AgentPowerTelemetry → AgentPowerTelemetry
charged_to pct telemetry = record telemetry { battery_level_pct = some pct; battery_pct = some pct }

on_battery-monotone :
    (low high : ℕ)
    → low ≤ high
    → (on_battery (some (min 100 low))).allow_coordinator_tasks ≡ true
    → (on_battery (some (min 100 high))).allow_coordinator_tasks ≡ true
unfolding on_battery
on_battery-monotone low high le e = ground arith

-- A battery with more charge never costs an agent its work: what is allowed at one level is allowed
-- at every higher level, all else of the report being the same.
pub more_charge_keeps_work :
    (input : PowerPolicyInput) (telemetry : AgentPowerTelemetry) (low high : ℕ)
    → low ≤ high
    → (evaluate_agent_power_policy
        (record input { telemetry = some (charged_to low telemetry) })).allow_coordinator_tasks
      ≡ true
    → (evaluate_agent_power_policy
        (record input { telemetry = some (charged_to high telemetry) })).allow_coordinator_tasks
      ≡ true
unfolding evaluate_agent_power_policy evaluate_ios evaluate_desktop
more_charge_keeps_work input telemetry low high le e =
    ground (arith, on_battery-monotone low high le)

-- Off iOS an agent gets no work exactly when it is no server, its processor is not above 85 percent,
-- and it is hot, or it is no desktop, runs on its battery, and reports a charge under 15 percent.
pub refused_iff :
    (name : Ident) (input : PowerPolicyInput) (telemetry : AgentPowerTelemetry)
    → ((evaluate_agent_power_policy
          (record input { os = other_os name; telemetry = some telemetry })).allow_coordinator_tasks
        ≡ false)
      ↔ ((is_server telemetry.device_type ≡ false)
          × (above 85 telemetry.cpu_usage_pct ≡ false)
          × ((is_hot telemetry.thermal_state ≡ true)
              ⊎ ((is_desktop telemetry.device_type ≡ false)
                  × (on_mains telemetry.on_ac_power telemetry.battery_pct ≡ false)
                  × (at_most 14 telemetry.battery_pct ≡ true))))
unfolding evaluate_agent_power_policy evaluate_desktop on_battery
refused_iff name input telemetry = ground arith

-- Who may work for its peers directly may take tasks of the coordinator, and no device does so while
-- it reports a battery and no supply, but for servers, desktops and a processor above 85 percent.
pub peer_work_supplied :
    (input : PowerPolicyInput) (telemetry : AgentPowerTelemetry)
    → (evaluate_agent_power_policy
        (record input { telemetry = some telemetry })).allow_peer_direct_work
      ≡ true
    → ((evaluate_agent_power_policy
          (record input { telemetry = some telemetry })).allow_coordinator_tasks
        ≡ true)
      × ((is_true telemetry.on_external_power ≡ true)
          ⊎ ((is_server telemetry.device_type ≡ true)
              ⊎ ((above 85 telemetry.cpu_usage_pct ≡ true)
                  ⊎ ((is_desktop telemetry.device_type ≡ true)
                      ⊎ (on_mains telemetry.on_ac_power telemetry.battery_pct ≡ true)))))
unfolding evaluate_agent_power_policy evaluate_ios evaluate_desktop on_battery
peer_work_supplied input telemetry e = ground arith
