-- ===== src/Coordinator/Pull/Kept.antt =====
-- src/swarm/coordinator.ts: what `POST /pull` leaves of the queue when it hands out nothing.
use edgecoder.Prelude.{
  ℕ, ◌≡◌, ◌≢◌, inl, inr, refl, ap, ◌∙◌, some, arith, ◌==◌, ==→eq, Option, Ident, truthy, lookup,
  Bool-cases, Option-cases,
}
use edgecoder.Types.{Subtask}
use edgecoder.Ledger.Crypto.{Crypto}
use edgecoder.Ledger.Chain.{Payload}
use edgecoder.Swarm.PowerPolicy.{PowerPolicyDecision}
use edgecoder.Swarm.Queue.{SwarmQueue, claim, requeue}
use edgecoder.Swarm.Queue.Steps.{ids, AllDistinct}
use edgecoder.Swarm.Queue.Claims.{claim-none}
use edgecoder.Swarm.Queue.Board.{board, granted, waiting, put_back}
use edgecoder.Swarm.Queue.Refinement.{claim-grants, requeue-Allowed}
use edgecoder.Coordinator.Register.{active_blacklist_record}
use edgecoder.Coordinator.Pull.{
  AgentCapability, Coordinator, Verified, rejected, unsigned, signed_by, PullReply, task,
  power_decision, lacks_sandbox, too_large, hand_out, pull_powered, pull_allowed, pull,
}

put_back-granted : (agent : Ident) → put_back (granted agent) ≡ waiting
put_back-granted agent = ground arith

-- A claim that is put back at once.
claim_then_requeue :
    (agent : Ident) (model : Option Ident) (now : ℕ) (q : SwarmQueue) (s : Subtask) (i : Ident)
    → AllDistinct (ids q.tasks)
    → (claim agent model now now q).1 ≡ some s
    → board (requeue s.id (claim agent model now now q).0).0 i ≡ board q i
claim_then_requeue agent model now q s i d e =
    let (waited, rest) = claim-grants agent model now now q s d e in
    let back = requeue-Allowed s.id (claim agent model now now q).0 i in
    elim (Bool-cases (s.id == i)) [
      | inl same ↦
          let here = ==→eq s.id i same in
          back ∙ rw (rest i, same, put_back-granted agent, ← here, waited) refl
      | inr other ↦ back ∙ rw (rest i, other) refl
    ]

module _ (crypto : Crypto) (digest : Payload → Ident) (agent : Ident) (now : ℕ)
    (fresh : Ident) where
  -- A handler that starts from `m` and hands out nothing keeps every phase.
  abbrev Keeps : Coordinator → (Coordinator × PullReply) → Type 0
  Keeps m (m', reply) =
      ((s : Subtask) → reply ≢ task s) → (i : Ident) → board m'.queue i ≡ board m.queue i

  hand_out-Keeps :
      (capability : AgentCapability) (decision : PowerPolicyDecision) (m : Coordinator)
      → AllDistinct (ids m.queue.tasks)
      → Keeps m (hand_out crypto digest agent now fresh capability decision m)
  unfolding hand_out
  hand_out-Keeps capability decision m d h i =
      elim (Option-cases (claim agent capability.active_model now now m.queue).1) [
        | inl e ↦
            let same =
              claim-none agent capability.active_model now now m.queue
                (ap (λ o. ((claim agent capability.active_model now now m.queue).0, o)) e) in
            rw (e, hand_out, same) refl
        | inr (t, e) ↦
            let back = claim_then_requeue agent capability.active_model now m.queue t i d e in
            elim (Bool-cases (lacks_sandbox t capability)) [
              | inl l ↦ rw (e, l, hand_out) back
              | inr l ↦ elim (Bool-cases (too_large t decision)) [
                | inl b ↦ rw (e, l, b, hand_out) back
                | inr b ↦ let replied = rw (e, l, b, hand_out) at h in absurd (replied t refl)
              ]
            ]
      ]

  pull_powered-Keeps :
      (capability : AgentCapability) (m : Coordinator)
      → AllDistinct (ids m.queue.tasks)
      → Keeps m (pull_powered crypto digest agent now fresh capability m)
  unfolding pull_powered
  pull_powered-Keeps capability m d h i =
      let decision = power_decision agent now capability m in
      elim (Bool-cases decision.allow_coordinator_tasks) [
        | inr a ↦ rw (a, pull_powered) refl
        | inl a ↦ elim (Bool-cases (truthy decision.defer_ms)) [
          | inl f ↦ rw (a, f, pull_powered) refl
          | inr f ↦
              let same : pull_powered crypto digest agent now fresh capability m
                  ≡ hand_out crypto digest agent now fresh capability decision m =
                rw (a, f, pull_powered) refl in
              rw same (hand_out-Keeps capability decision m d (rw same at h) i)
        ]
      ]

  pull_allowed-Keeps :
      (capability : AgentCapability) (m : Coordinator)
      → AllDistinct (ids m.queue.tasks)
      → Keeps m (pull_allowed crypto digest agent now fresh capability m)
  unfolding pull_allowed
  pull_allowed-Keeps capability m d h i =
      elim (Option-cases (active_blacklist_record agent now m.register).1) [
        | inr (r, e) ↦ rw (e, pull_allowed) refl
        | inl e ↦
            let m' : Coordinator = record m {
              register = (active_blacklist_record agent now m.register).0;
            } in
            rw (e, pull_allowed) (pull_powered-Keeps capability m' d (rw (e, pull_allowed) at h) i)
      ]

  -- A request that is answered without a subtask, whatever it is refused for, leaves every subtask
  -- in the phase it was in: one that was claimed for the agent on the way waits again.
  pub pull_kept :
      (v : Verified) (m : Coordinator)
      → AllDistinct (ids m.queue.tasks)
      → ((s : Subtask) → (pull crypto digest v agent now fresh m).1 ≢ task s)
      → (i : Ident) → board (pull crypto digest v agent now fresh m).0.queue i ≡ board m.queue i
  unfolding pull
  pull_kept rejected m d h i = refl
  pull_kept unsigned m d h i = elim (Option-cases (lookup agent m.agent_capabilities)) [
    | inl e ↦ rw (e, pull) refl
    | inr (capability, e) ↦ rw (e, pull) (pull_allowed-Keeps capability m d (rw (e, pull) at h) i)
  ]
  pull_kept (signed_by signer) m d h i = elim (Bool-cases (signer == agent)) [
    | inr other ↦ rw (other, pull) refl
    | inl same ↦ elim (Option-cases (lookup agent m.agent_capabilities)) [
      | inl e ↦ rw (same, e, pull) refl
      | inr (capability, e) ↦
          rw (same, e, pull) (pull_allowed-Keeps capability m d (rw (same, e, pull) at h) i)
    ]
  ]
