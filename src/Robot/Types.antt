-- ===== src/Robot/Types.antt =====
-- src/swarm/robot-types.ts. Sums of money are whole satoshis.
use Prim.Native.String.{String}
use edgecoder.Prelude.{ℕ, Option, List, Ident}

pub data RobotTaskKind : Type 0 where
  physical compute hybrid : RobotTaskKind

pub data RobotTaskStatus : Type 0 where
  pending_funding funded claimed proof_submitted settled disputed expired : RobotTaskStatus

-- The JSON values of the proof and of its schema are carried as text and never read.
pub record RobotTask : Type 0 where
  pub task_id : Ident
  pub client_account_id : Ident
  pub title : String
  pub description : String
  pub task_kind : RobotTaskKind
  pub resource_requirements : List Ident
  pub escrow_sats : ℕ
  pub reward_sats : ℕ
  pub coordinator_fee_sats : ℕ
  pub coordinator_fee_bps : ℕ
  pub status : RobotTaskStatus
  pub timeout_ms : ℕ
  pub proof_schema : Option String
  pub invoice_ref : Ident
  pub claimed_by : Option Ident
  pub claimed_at_ms : Option ℕ
  pub proof_payload : Option String
  pub proof_submitted_at_ms : Option ℕ
  pub dispute_reason : Option String
  pub created_at_ms : ℕ
  pub settled_at_ms : Option ℕ

pub record RobotAgent : Type 0 where
  pub agent_id : Ident
  pub payout_address : Ident
  pub capabilities : List Ident
  pub robot_kind : Ident
  pub last_seen_ms : ℕ
  pub success_count : ℕ
  pub failure_count : ℕ

pub data EarningsStatus : Type 0 where
  accrued swept : EarningsStatus

-- The agent is `undefined` if a task without a claimant is settled.
pub record RobotEarningsEntry : Type 0 where
  pub entry_id : Ident
  pub agent_id : Option Ident
  pub task_id : Ident
  pub earned_sats : ℕ
  pub status : EarningsStatus
  pub sweep_tx_id : Option Ident
  pub created_at_ms : ℕ

pub record RobotSweepPayout : Type 0 where
  pub agent_id : Ident
  pub address : Ident
  pub amount_sats : ℕ

pub data BitcoinNetwork : Type 0 where
  bitcoin testnet signet : BitcoinNetwork

pub record RobotQueueConfig : Type 0 where
  pub coordinator_fee_bps : ℕ
  pub default_timeout_ms : ℕ
  pub auto_settle_delay_ms : ℕ
  pub sweep_interval_ms : ℕ
  pub min_sweep_sats : ℕ
  pub bitcoin_network : BitcoinNetwork
