-- ===== src/Swarm/PowerPolicy.antt =====
-- src/swarm/power-policy.ts: may an agent be given work, by what it reports of its power supply.
-- Levels and times are natural numbers; a missing field is `none`.
pub mod Charge
mod Tests
use edgecoder.Prelude.{
  ℕ, ◌+◌, Bool, true, false, ◌&&◌, ◌||◌, Option, none, some, ltb, leb, if◌then◌else◌, Ident,
  or_else, min, is_some, not,
}
use mathlib.Core.Option

pub data ThermalState : Type 0 where
  nominal fair serious critical : ThermalState

pub data DeviceType : Type 0 where
  desktop laptop phone tablet server : DeviceType

pub record AgentPowerTelemetry : Type 0 where
  pub on_external_power : Option Bool
  pub battery_level_pct : Option ℕ
  pub low_power_mode : Option Bool
  pub updated_at_ms : Option ℕ
  pub on_ac_power : Option Bool
  pub battery_pct : Option ℕ
  pub thermal_state : Option ThermalState
  pub cpu_usage_pct : Option ℕ
  pub memory_usage_pct : Option ℕ
  pub device_type : Option DeviceType

-- The policy tells iOS from every other system.
pub data Os : Type 0 where
  ios : Os
  other_os : Ident → Os

pub record PowerPolicyInput : Type 0 where
  pub os : Os
  pub telemetry : Option AgentPowerTelemetry
  pub now_ms : ℕ
  pub last_task_assigned_at_ms : Option ℕ
  pub battery_pull_min_interval_ms : ℕ
  pub battery_task_stop_level_pct : ℕ
  pub task_timeout_ms : Option ℕ

pub data PolicyReason : Type 0 where
  server_unlimited high_cpu_defer thermal_throttle desktop_ac_power : PolicyReason
  laptop_battery_critical laptop_battery_low laptop_battery_high : PolicyReason
  ios_low_power_mode ios_external_power ios_battery_critical : PolicyReason
  ios_on_battery_throttled ios_on_battery_lite_mode : PolicyReason

pub record PowerPolicyDecision : Type 0 where
  pub allow_coordinator_tasks : Bool
  pub allow_peer_direct_work : Bool
  pub allow_small_tasks_only : Option Bool
  pub defer_ms : Option ℕ
  pub reason : PolicyReason

-- `{}`
abbrev pub no_telemetry : AgentPowerTelemetry
no_telemetry = record {
  on_external_power = none;
  battery_level_pct = none;
  low_power_mode = none;
  updated_at_ms = none;
  on_ac_power = none;
  battery_pct = none;
  thermal_state = none;
  cpu_usage_pct = none;
  memory_usage_pct = none;
  device_type = none;
}

-- A decision without the optional fields.
abbrev decide : Bool → Bool → PolicyReason → PowerPolicyDecision
decide coordinator peer why = record {
  allow_coordinator_tasks = coordinator;
  allow_peer_direct_work = peer;
  allow_small_tasks_only = none;
  defer_ms = none;
  reason = why;
}

abbrev pub is_true : Option Bool → Bool
is_true none = false
is_true (some b) = b

-- `Math.max(0, Math.min(100, level))`, where there is a level.
abbrev clamped : Option ℕ → Option ℕ
clamped none = none
clamped (some level) = some (min 100 level)

-- The number is there and at most, or greater than, the bound.
abbrev pub at_most : ℕ → Option ℕ → Bool
at_most bound none = false
at_most bound (some n) = leb n bound

abbrev pub above : ℕ → Option ℕ → Bool
above bound none = false
above bound (some n) = ltb bound n

abbrev pub is_server : Option DeviceType → Bool
is_server (some server) = true
is_server _ = false

abbrev pub is_desktop : Option DeviceType → Bool
is_desktop (some desktop) = true
is_desktop _ = false

abbrev pub is_hot : Option ThermalState → Bool
is_hot (some serious) = true
is_hot (some critical) = true
is_hot _ = false

-- `now - last < interval`, which holds too where the clock was set back behind `last`.
pub evaluate_ios : PowerPolicyInput → AgentPowerTelemetry → PowerPolicyDecision
evaluate_ios input telemetry =
    if is_true telemetry.low_power_mode
    then decide false false ios_low_power_mode
    else if is_true telemetry.on_external_power
    then decide true true ios_external_power
    else if at_most input.battery_task_stop_level_pct (clamped telemetry.battery_level_pct)
    then decide false false ios_battery_critical
    else if ltb input.now_ms
        (or_else input.last_task_assigned_at_ms 0 + input.battery_pull_min_interval_ms)
    then decide false false ios_on_battery_throttled
    else decide true false ios_on_battery_lite_mode

-- The branches for a device on battery, by its charge.
pub on_battery : Option ℕ → PowerPolicyDecision
on_battery none = decide true false laptop_battery_high
on_battery (some pct) =
    if ltb pct 15
    then decide false false laptop_battery_critical
    else if leb pct 40
    then record (decide true false laptop_battery_low) { allow_small_tasks_only = some true }
    else decide true false laptop_battery_high

-- `onAC === true || (onAC === undefined && batteryPct === undefined)`
abbrev pub on_mains : Option Bool → Option ℕ → Bool
on_mains (some b) pct = b
on_mains none pct = not (is_some pct)

unfoldable pub evaluate_desktop : AgentPowerTelemetry → PowerPolicyDecision
evaluate_desktop telemetry =
    if is_server telemetry.device_type
    then decide true true server_unlimited
    else if above 85 telemetry.cpu_usage_pct
    then record (decide true true high_cpu_defer) { defer_ms = some 5000 }
    else if is_hot telemetry.thermal_state
    then decide false false thermal_throttle
    else if is_desktop telemetry.device_type
        || on_mains telemetry.on_ac_power (clamped telemetry.battery_pct)
    then decide true true desktop_ac_power
    else on_battery (clamped telemetry.battery_pct)

unfoldable pub evaluate_agent_power_policy : PowerPolicyInput → PowerPolicyDecision
evaluate_agent_power_policy input =
    let telemetry = or_else input.telemetry no_telemetry in
    elim input.os [
      | ios ↦ evaluate_ios input telemetry
      | other_os name ↦ evaluate_desktop telemetry
    ]
