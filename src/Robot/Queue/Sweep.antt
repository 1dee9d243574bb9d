-- ===== src/Robot/Queue/Sweep.antt =====
-- src/swarm/robot-queue.ts: what a sweep pays out, and that it pays nothing twice.
use edgecoder.Prelude.{
  ℕ, ◌+◌, ◌≤◌, ◌<◌, ◌≡◌, refl, inl, inr, false, Option, none, some, same, List, [], ◌∷◌, arith,
  Ident, lookup, Dict, Option-cases, Bool-cases, ap, if◌then◌else◌, sym, ◌∙◌, ◌==◌, lookup-insert,
  ltb, or_else, ◌&&◌, In, here, there, In-cons, DistinctKeys, insert-DistinctKeys, lookup_of_In,
  In-of_lookup, map, sum_by, ltb→le,
}
use edgecoder.Robot.Types.{RobotAgent, RobotEarningsEntry, RobotSweepPayout}
use edgecoder.Robot.Queue.{
  RobotQueue, is_accrued, add_total, total_by_agent, payouts, pending_sweep_payouts, mark_swept,
  sweep_entry,
}

-- What an agent has earned and was not yet paid.
abbrev pub owed_entry : Ident → RobotEarningsEntry → ℕ
owed_entry a e = if same e.agent_id (some a) && is_accrued e then e.earned_sats else 0

abbrev pub owed : Ident → RobotQueue → ℕ
owed a q = sum_by (owed_entry a) q.earnings

add_total_lem :
    (a : Ident) (b : Option Ident) (sats : ℕ) (d : Dict ℕ)
    → or_else (lookup a (add_total b sats d)) 0
      ≡ or_else (lookup a d) 0 + (if same b (some a) then sats else 0)
add_total_lem a none sats d = omega arith
add_total_lem a (some b) sats d =
    ground (arith, lookup-insert b a (or_else (lookup b d) 0 + sats) d)

total_by_agent_lem :
    (a : Ident) (es : List RobotEarningsEntry) (d : Dict ℕ)
    → or_else (lookup a (total_by_agent es d)) 0 ≡ or_else (lookup a d) 0 + sum_by (owed_entry a) es
unfolding total_by_agent
total_by_agent_lem a [] d = omega arith
total_by_agent_lem a (e ∷ es) d =
    let d' = if is_accrued e then add_total e.agent_id e.earned_sats d else d in
    ground (arith, total_by_agent_lem a es d', add_total_lem a e.agent_id e.earned_sats d)

add_total-DistinctKeys :
    (b : Option Ident) (sats : ℕ) (d : Dict ℕ) → DistinctKeys d → DistinctKeys (add_total b sats d)
add_total-DistinctKeys none sats d h = h
add_total-DistinctKeys (some b) sats d h = insert-DistinctKeys b (or_else (lookup b d) 0 + sats) d h

total_by_agent-DistinctKeys :
    (es : List RobotEarningsEntry) (d : Dict ℕ)
    → DistinctKeys d
    → DistinctKeys (total_by_agent es d)
unfolding total_by_agent
total_by_agent-DistinctKeys [] d h = h
total_by_agent-DistinctKeys (e ∷ es) d h =
    let d' = if is_accrued e then add_total e.agent_id e.earned_sats d else d in
    total_by_agent-DistinctKeys es d'
      (ground (arith, add_total-DistinctKeys e.agent_id e.earned_sats d h))

module _ (min_sweep : ℕ) (agents : Dict RobotAgent) where
  -- The payout is for a total that is large enough, to the address of a registered agent.
  abbrev Pays : RobotSweepPayout → Type 0
  Pays p =
      (min_sweep ≤ p.amount_sats)
      × ((agent : RobotAgent) × (lookup p.agent_id agents ≡ some agent)
          × (p.address ≡ agent.payout_address))

  payouts_sound :
      (ds : Dict ℕ) (p : RobotSweepPayout)
      → In p (payouts min_sweep agents ds)
      → In (p.agent_id, p.amount_sats) ds × Pays p
  unfolding payouts
  payouts_sound [] p m = elim m [ ]
  payouts_sound ((a, total) ∷ ds) p m = elim (Bool-cases (ltb total min_sweep)) [
    | inl small ↦ later (payouts_sound ds p (rw small at m))
    | inr large ↦ elim (Option-cases (lookup a agents)) [
      | inl e ↦ later (payouts_sound ds p (rw (large, e, payouts) at m))
      | inr (agent, e) ↦ elim (In-cons (rw (large, e, payouts) at m)) [
        | inl h ↦ rw h (here, (ltb→le total min_sweep large, (agent, e, refl)))
        | inr n ↦ later (payouts_sound ds p n)
      ]
    ]
  ]
    where
      later :
          In (p.agent_id, p.amount_sats) ds × Pays p
          → In (p.agent_id, p.amount_sats) ((a, total) ∷ ds) × Pays p
      later h = (there h.0, h.1)

  keep_paid :
      (b n : ℕ) (ds : Dict ℕ) (a : ℕ)
      → (p : RobotSweepPayout) × In p (payouts min_sweep agents ds) × (p.agent_id ≡ a)
      → (p : RobotSweepPayout) × In p (payouts min_sweep agents ((b, n) ∷ ds)) × (p.agent_id ≡ a)
  unfolding payouts
  keep_paid b n ds a (p, m, e) = elim (Bool-cases (ltb n min_sweep)) [
    | inl small ↦ (p, rw small m, e)
    | inr large ↦ elim (Option-cases (lookup b agents)) [
      | inl f ↦ (p, rw (large, f, payouts) m, e)
      | inr (agent, f) ↦ (p, rw (large, f, payouts) (there m), e)
    ]
  ]

  head_paid :
      (b n : ℕ) (ds : Dict ℕ) (a total : ℕ) (agent : RobotAgent)
      → ◌≡◌ {A = ℕ × ℕ} (a, total) (b, n)
      → min_sweep ≤ total
      → lookup a agents ≡ some agent
      → (p : RobotSweepPayout) × In p (payouts min_sweep agents ((b, n) ∷ ds)) × (p.agent_id ≡ a)
  unfolding payouts
  head_paid b n ds a total agent same h e =
      let large : ltb n min_sweep ≡ false = ground arith in
      let f : lookup b agents ≡ some agent = ap (λ (c : ℕ × ℕ). lookup c.0 agents) (sym same) ∙ e in
      (
        record { agent_id = b; address = agent.payout_address; amount_sats = n },
        rw (large, f, payouts) here,
        ap (λ (c : ℕ × ℕ). c.0) (sym same),
      )

  payouts_complete :
      (ds : Dict ℕ) (a total : ℕ) (agent : RobotAgent)
      → In (a, total) ds
      → min_sweep ≤ total
      → lookup a agents ≡ some agent
      → (p : RobotSweepPayout) × In p (payouts min_sweep agents ds) × (p.agent_id ≡ a)
  unfolding payouts
  payouts_complete [] a total agent m h e = elim m [ ]
  payouts_complete ((b, n) ∷ ds) a total agent m h e = elim (In-cons m) [
    | inl same ↦ head_paid b n ds a total agent same h e
    | inr m' ↦ keep_paid b n ds a (payouts_complete ds a total agent m' h e)
  ]

-- Every payout of a sweep is the whole of what an agent has earned and was not yet paid, is at least
-- the least sum that is swept, and goes to the address of a registered agent.
pub payouts_exact :
    (q : RobotQueue) (p : RobotSweepPayout)
    → In p (pending_sweep_payouts q)
    → (p.amount_sats ≡ owed p.agent_id q)
      × (q.config.min_sweep_sats ≤ p.amount_sats)
      × ((agent : RobotAgent) × (lookup p.agent_id q.agents ≡ some agent)
          × (p.address ≡ agent.payout_address))
unfolding pending_sweep_payouts
payouts_exact q p m =
    let totals = total_by_agent q.earnings [] in
    let (n, pays) = payouts_sound q.config.min_sweep_sats q.agents totals p m in
    let found =
      lookup_of_In p.agent_id p.amount_sats totals (total_by_agent-DistinctKeys q.earnings [] tt)
        n in
    (ground (arith, total_by_agent_lem p.agent_id q.earnings []), pays.0, pays.1)

-- No agent that is registered and is owed enough is left out of a sweep.
pub payouts_reach :
    (q : RobotQueue) (a : Ident) (agent : RobotAgent)
    → lookup a q.agents ≡ some agent
    → q.config.min_sweep_sats ≤ owed a q
    → 0 < owed a q
    → (p : RobotSweepPayout) × In p (pending_sweep_payouts q) × (p.agent_id ≡ a)
unfolding pending_sweep_payouts
payouts_reach q a agent f least pos =
    let totals = total_by_agent q.earnings [] in
    payouts_complete q.config.min_sweep_sats q.agents totals a (owed a q) agent
      (In-of_lookup a (owed a q) totals (ground (arith, total_by_agent_lem a q.earnings []))) least
      f

sweep_entry-owed :
    (a b txid : Ident) (es : List RobotEarningsEntry)
    → sum_by (owed_entry b) (map (sweep_entry a txid) es)
      ≡ (if a == b then 0 else sum_by (owed_entry b) es)
sweep_entry-owed a b txid [] = ground arith
sweep_entry-owed a b txid (e ∷ es) = ground (arith, sweep_entry-owed a b txid es)

-- Once its payout is marked as swept an agent is owed nothing, and what the others are owed stays.
pub owed-mark_swept :
    (q : RobotQueue) (a b txid : Ident)
    → owed b (mark_swept a txid q) ≡ (if a == b then 0 else owed b q)
unfolding mark_swept
owed-mark_swept q a b txid = sweep_entry-owed a b txid q.earnings
