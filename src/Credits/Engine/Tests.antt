-- ===== src/Credits/Engine/Tests.antt =====
-- Runs of src/credits/engine.ts, and its theorems at concrete histories.
use edgecoder.Prelude.{ℕ, ◌*◌, ◌/◌, ◌≤◌, ◌≡◌, refl, true, none, List, [], ◌∷◌}
use edgecoder.Types.{ResourceClass}
use edgecoder.Credits.Engine.{
  ComputeContributionReport, LoadSnapshot, new_engine, balance, accrue, spend, adjust, add_tx,
  earned_credits, load_multiplier, model_cost_credits,
}
use edgecoder.Credits.Engine.Histories.{Call, accrues, pays, grants, run, step, never_overdrawn}

abbrev report : ComputeContributionReport
report = record {
  report_id = 5;
  agent_id = 1;
  source_agent_id = none;
  task_id = 9;
  resource_class = ResourceClass.gpu;
  cpu_seconds = 100;
  gpu_seconds = 2500;
  success = true;
  quality_score = 1100;
  timestamp_ms = 100;
}

abbrev load : LoadSnapshot
load = record { queued_tasks = 3; active_agents = 2 }

-- Cut off where the code rounds.
abbrev cut : ℕ → ℕ → ℕ → ℕ → ℕ
cut seconds rate quality multiplier = seconds * rate * quality * multiplier / 100000

earned : earned_credits cut report load ≡ 13750
unfolding earned_credits load_multiplier
earned = refl

cost : model_cost_credits 300 ≡ 500
unfolding model_cost_credits
cost = refl

abbrev calls : List Call
calls =
    accrues report load 40 100
    ∷ pays 1 9000 3 none 41 110
    ∷ pays 1 9000 3 none 42 120
    ∷ grants 1 500 4 43 130
    ∷ []

paid_once : balance 1 (run cut calls new_engine) ≡ (14250, 9000)
unfolding run step accrue spend adjust add_tx earned_credits load_multiplier
paid_once = refl

never_overdrawn_example :
    (balance 1 (run cut calls new_engine)).1 ≤ (balance 1 (run cut calls new_engine)).0
never_overdrawn_example = never_overdrawn cut calls 1
