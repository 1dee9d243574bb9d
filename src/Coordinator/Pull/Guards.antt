-- ===== src/Coordinator/Pull/Guards.antt =====
-- src/swarm/coordinator.ts: to whom `POST /pull` hands out a subtask.
use edgecoder.Prelude.{
  ℕ, ◌≡◌, inl, inr, refl, sym, ap, ◌∙◌, true, false, none, some, ◌==◌, if◌then◌else◌, Ident, truthy,
  lookup, Bool-cases, Option-cases,
}
use edgecoder.Types.{Subtask}
use edgecoder.Ledger.Crypto.{Crypto}
use edgecoder.Ledger.Chain.{Payload}
use edgecoder.Swarm.PowerPolicy.{PowerPolicyDecision}
use edgecoder.Swarm.Queue.{claim}
use edgecoder.Swarm.Queue.Steps.{ids, AllDistinct}
use edgecoder.Swarm.Queue.Board.{board, granted, waiting}
use edgecoder.Swarm.Queue.Refinement.{claim-grants}
use edgecoder.Coordinator.Register.{active_blacklist_record}
use edgecoder.Coordinator.Pull.{
  AgentCapability, Coordinator, Verified, rejected, unsigned, signed_by, PullReply, task,
  power_decision, lacks_sandbox, too_large, hand_out, pull_powered, pull_allowed, pull,
}

-- What lets an agent have a subtask: it is registered and not blacklisted, the power policy lets it
-- work now, the subtask is not too large for it and needs no sandbox that it lacks.
pub record MayHave (agent : Ident) (now : ℕ) (m : Coordinator) (s : Subtask) : Type 0 where
  pub capability : AgentCapability
  pub registered : lookup agent m.agent_capabilities ≡ some capability
  pub not_blacklisted : (active_blacklist_record agent now m.register).1 ≡ none
  pub powered : (power_decision agent now capability m).allow_coordinator_tasks ≡ true
  pub not_deferred : truthy (power_decision agent now capability m).defer_ms ≡ false
  pub sandboxed : lacks_sandbox s capability ≡ false
  pub small_enough : too_large s (power_decision agent now capability m) ≡ false

module _ (crypto : Crypto) (digest : Payload → Ident) (agent : Ident) (now : ℕ)
    (fresh : Ident) where
  hand_out_lem :
      (capability : AgentCapability) (decision : PowerPolicyDecision) (m : Coordinator)
      (s : Subtask)
      → (hand_out crypto digest agent now fresh capability decision m).1 ≡ task s
      → (lacks_sandbox s capability ≡ false)
        × (too_large s decision ≡ false)
        × ((claim agent capability.active_model now now m.queue).1 ≡ some s)
        × ((hand_out crypto digest agent now fresh capability decision m).0.queue
            ≡ (claim agent capability.active_model now now m.queue).0)
  unfolding hand_out
  hand_out_lem capability decision m s h =
      elim (Option-cases (claim agent capability.active_model now now m.queue).1) [
        | inl e ↦ let no_reply = rw (e, hand_out) at h in cc
        | inr (t, e) ↦ elim (Bool-cases (lacks_sandbox t capability)) [
          | inl l ↦ let no_reply = rw (e, l, hand_out) at h in cc
          | inr l ↦ elim (Bool-cases (too_large t decision)) [
            | inl b ↦ let no_reply = rw (e, l, b, hand_out) at h in cc
            | inr b ↦
                let same : t ≡ s = (let replied = rw (e, l, b, hand_out) at h in cc) in
                (rw (← same) l, rw (← same) b, rw (← same) e, rw (e, l, b, hand_out) refl)
          ]
        ]
      ]

  -- What a handler that starts from `m` and ends in `m'` with a reply has done.
  abbrev HandsOut : Coordinator → (Coordinator × PullReply) → Subtask → Type 0
  HandsOut m (m', reply) s =
      (board m.queue s.id ≡ waiting)
      × ((i : Ident) → board m'.queue i ≡ (if s.id == i then granted agent else board m.queue i))

  hand_out-HandsOut :
      (capability : AgentCapability) (decision : PowerPolicyDecision) (m : Coordinator)
      (s : Subtask)
      → AllDistinct (ids m.queue.tasks)
      → (hand_out crypto digest agent now fresh capability decision m).1 ≡ task s
      → HandsOut m (hand_out crypto digest agent now fresh capability decision m) s
  hand_out-HandsOut capability decision m s d h =
      let (l, b, e, q) = hand_out_lem capability decision m s h in
      let (waited, rest) = claim-grants agent capability.active_model now now m.queue s d e in
      (waited, λ i. rw q (rest i))

  pull_powered_lem :
      (capability : AgentCapability) (m : Coordinator) (s : Subtask)
      → AllDistinct (ids m.queue.tasks)
      → (pull_powered crypto digest agent now fresh capability m).1 ≡ task s
      → ((power_decision agent now capability m).allow_coordinator_tasks ≡ true)
        × (truthy (power_decision agent now capability m).defer_ms ≡ false)
        × (lacks_sandbox s capability ≡ false)
        × (too_large s (power_decision agent now capability m) ≡ false)
        × HandsOut m (pull_powered crypto digest agent now fresh capability m) s
  unfolding pull_powered
  pull_powered_lem capability m s d h =
      let decision = power_decision agent now capability m in
      elim (Bool-cases decision.allow_coordinator_tasks) [
        | inr a ↦ let no_reply = rw (a, pull_powered) at h in cc
        | inl a ↦ elim (Bool-cases (truthy decision.defer_ms)) [
          | inl f ↦ let no_reply = rw (a, f, pull_powered) at h in cc
          | inr f ↦
              let same : pull_powered crypto digest agent now fresh capability m
                  ≡ hand_out crypto digest agent now fresh capability decision m =
                rw (a, f, pull_powered) refl in
              let claimed = sym (ap (λ r. r.1) same) ∙ h in
              let (l, b, e, q) = hand_out_lem capability decision m s claimed in
              (a, f, l, b, rw same (hand_out-HandsOut capability decision m s d claimed))
        ]
      ]

  pull_allowed_lem :
      (capability : AgentCapability) (m : Coordinator) (s : Subtask)
      → AllDistinct (ids m.queue.tasks)
      → lookup agent m.agent_capabilities ≡ some capability
      → (pull_allowed crypto digest agent now fresh capability m).1 ≡ task s
      → MayHave agent now m s
        × HandsOut m (pull_allowed crypto digest agent now fresh capability m) s
  unfolding pull_allowed power_decision
  pull_allowed_lem capability m s d known h =
      elim (Option-cases (active_blacklist_record agent now m.register).1) [
        | inr (r, e) ↦ let no_reply = rw (e, pull_allowed) at h in cc
        | inl e ↦
            let m' : Coordinator = record m {
              register = (active_blacklist_record agent now m.register).0;
            } in
            let (a, f, l, b, out) =
              pull_powered_lem capability m' s d (rw (e, pull_allowed) at h) in
            (
              record {
                capability = capability;
                registered = known;
                not_blacklisted = e;
                powered = a;
                not_deferred = f;
                sandboxed = l;
                small_enough = b;
              },
              rw (e, pull_allowed) out,
            )
      ]

  -- A subtask is handed out only to an agent that may have it; it waited, the agent then holds it,
  -- and no other subtask's phase changes.
  pub pull_guarded :
      (v : Verified) (m : Coordinator) (s : Subtask)
      → AllDistinct (ids m.queue.tasks)
      → (pull crypto digest v agent now fresh m).1 ≡ task s
      → MayHave agent now m s
        × (board m.queue s.id ≡ waiting)
        × ((i : Ident)
            → board (pull crypto digest v agent now fresh m).0.queue i
              ≡ (if s.id == i then granted agent else board m.queue i))
  unfolding pull
  pull_guarded rejected m s d h = cc
  pull_guarded unsigned m s d h = elim (Option-cases (lookup agent m.agent_capabilities)) [
    | inl e ↦ let no_reply = rw (e, pull) at h in cc
    | inr (capability, e) ↦
        rw (e, pull)
          (let (may, out) = pull_allowed_lem capability m s d e (rw (e, pull) at h) in
            (may, out.0, out.1))
  ]
  pull_guarded (signed_by signer) m s d h = elim (Bool-cases (signer == agent)) [
    | inr same ↦ let no_reply = rw (same, pull) at h in cc
    | inl same ↦ elim (Option-cases (lookup agent m.agent_capabilities)) [
      | inl e ↦ let no_reply = rw (same, e, pull) at h in cc
      | inr (capability, e) ↦
          rw (same, e, pull)
            (let (may, out) = pull_allowed_lem capability m s d e (rw (same, e, pull) at h) in
              (may, out.0, out.1))
    ]
  ]
