-- ===== src/Credits/Engine.antt =====
-- src/credits/pricing.ts and src/credits/engine.ts: the class `CreditEngine`. Credits, seconds and
-- quality scores are whole thousandths, and not negative but for `adjust`. How a product of doubles is
-- rounded is a parameter. A balance is the pair of what was earned and spent, since it may be negative.
pub mod Histories
mod Tests
use edgecoder.Prelude.{
  ℕ, ◌+◌, ◌*◌, ◌/◌, Bool, true, false, Option, none, some, List, [], ◌∷◌, ◌++◌, ltb, leb, ◌==◌,
  if◌then◌else◌, Ident, or_else, min, max, contains, Dict, lookup, insert, Result, ok, err,
}
use edgecoder.Types.{ResourceClass, cpu, gpu}

pub record LoadSnapshot : Type 0 where
  pub queued_tasks : ℕ
  pub active_agents : ℕ

-- In hundredths. Without agents the pressure is 2; otherwise it is compared by multiplying with the agents.
unfoldable pub load_multiplier : LoadSnapshot → ℕ
load_multiplier load =
    let queued = load.queued_tasks in
    let agents = load.active_agents in
    if agents == 0
    then 125
    else if leb (2 * queued) agents
    then 80
    else if leb queued agents
    then 100
    else if leb queued (2 * agents)
    then 125
    else 160

abbrev pub base_rate_per_second : ResourceClass → ℕ
base_rate_per_second gpu = 4
base_rate_per_second cpu = 1

-- In thousandths, of a size in thousandths of a billion parameters.
unfoldable pub model_cost_credits : ℕ → ℕ
model_cost_credits param_size = max 500 param_size

pub record ComputeContributionReport : Type 0 where
  pub report_id : Ident
  pub agent_id : Ident
  pub source_agent_id : Option Ident
  pub task_id : Ident
  pub resource_class : ResourceClass
  pub cpu_seconds : ℕ
  pub gpu_seconds : ℕ
  pub success : Bool
  pub quality_score : ℕ
  pub timestamp_ms : ℕ

pub data TxType : Type 0 where
  earn spends adjusts held : TxType

pub data TxReason : Type 0 where
  compute_contribution : TxReason
  given : Ident → TxReason

pub record CreditTransaction : Type 0 where
  pub tx_id : Ident
  pub account_id : Ident
  pub type : TxType
  pub credits : ℕ
  pub reason : TxReason
  pub related_task_id : Option Ident
  pub timestamp_ms : ℕ

pub record CreditEngine : Type 0 where
  pub tx_by_account : Dict (List CreditTransaction)
  pub seen_reports : List Ident

abbrev pub new_engine : CreditEngine
new_engine = record { tx_by_account = []; seen_reports = [] }

abbrev pub history : Ident → CreditEngine → List CreditTransaction
history account_id e = or_else (lookup account_id e.tx_by_account) []

abbrev pub earned_in : List CreditTransaction → ℕ
earned_in [] = 0
earned_in (tx ∷ txs) = elim tx.type [ spends ↦ earned_in txs | _ ↦ tx.credits + earned_in txs ]

abbrev pub spent_in : List CreditTransaction → ℕ
spent_in [] = 0
spent_in (tx ∷ txs) = elim tx.type [ spends ↦ tx.credits + spent_in txs | _ ↦ spent_in txs ]

-- What was earned, and what was spent; the balance is their difference.
abbrev pub balance : Ident → CreditEngine → ℕ × ℕ
balance account_id e = (earned_in (history account_id e), spent_in (history account_id e))

-- The identifier drawn and the clock come with each call.
unfoldable pub add_tx :
    Ident
    → TxType
    → ℕ
    → TxReason
    → Option Ident
    → Ident
    → ℕ
    → CreditEngine
    → CreditEngine × CreditTransaction
add_tx account_id type credits reason related_task_id fresh now e =
    let tx : CreditTransaction = record {
      tx_id = fresh;
      account_id = account_id;
      type = type;
      credits = credits;
      reason = reason;
      related_task_id = related_task_id;
      timestamp_ms = now;
    } in
    (
      record e {
        tx_by_account = insert account_id (history account_id e ++ tx ∷ []) e.tx_by_account;
      },
      tx,
    )

pub data CreditFault : Type 0 where
  duplicate_contribution_report : CreditFault
  insufficient_credits : ℕ × ℕ → ℕ → CreditFault

-- `to_fixed a b c d` is `Number((a * b * c * d).toFixed(3))` in thousandths, where `a` and `c` are in
-- thousandths and `d` is in hundredths; the platform multiplies and rounds doubles.
module _ (to_fixed : ℕ → ℕ → ℕ → ℕ → ℕ) where
  unfoldable pub earned_credits : ComputeContributionReport → LoadSnapshot → ℕ
  earned_credits report load =
      let compute_seconds : ℕ = elim report.resource_class [
        | gpu ↦ report.gpu_seconds
        | cpu ↦ report.cpu_seconds
      ] in
      let quality_multiplier = max 500 (min 1500 report.quality_score) in
      to_fixed compute_seconds (base_rate_per_second report.resource_class) quality_multiplier
        (load_multiplier load)

  unfoldable pub accrue :
      ComputeContributionReport
      → LoadSnapshot
      → Ident
      → ℕ
      → CreditEngine
      → CreditEngine × Result CreditFault CreditTransaction
  accrue report load fresh now e =
      if contains report.report_id e.seen_reports
      then (e, err duplicate_contribution_report)
      else (let (e', tx) =
            add_tx report.agent_id earn (earned_credits report load) compute_contribution
              (some report.task_id) fresh now
              (record e { seen_reports = report.report_id ∷ e.seen_reports }) in
          (e', ok tx))

unfoldable pub spend :
    Ident
    → ℕ
    → Ident
    → Option Ident
    → Ident
    → ℕ
    → CreditEngine
    → CreditEngine × Result CreditFault CreditTransaction
spend account_id credits reason related_task_id fresh now e =
    let current = balance account_id e in
    if ltb current.0 (current.1 + credits)
    then (e, err (insufficient_credits current credits))
    else (let (e', tx) =
          add_tx account_id spends credits (given reason) related_task_id fresh now e in
        (e', ok tx))

-- The credits of an adjustment: not negative, or the absolute value of a negative number.
pub data Amount : Type 0 where
  gain : ℕ → Amount
  loss : ℕ → Amount

unfoldable pub adjust :
    Ident → Amount → Ident → Ident → ℕ → CreditEngine → CreditEngine × CreditTransaction
adjust account_id (gain credits) reason fresh now e =
    add_tx account_id earn credits (given reason) none fresh now e
adjust account_id (loss credits) reason fresh now e =
    add_tx account_id spends credits (given reason) none fresh now e
