-- ===== src/Swarm/Queue/Claims.antt =====
-- src/swarm/queue.ts: what one call of `claim` does.
use edgecoder.Prelude.{
  ℕ, ◌+◌, ◌≡◌, inl, inr, true, false, Option, none, some, [], arith, Ident, Option-cases,
  Bool-cases, any, get_elem?_of_any, any_of_get_elem?, lookup-insert, All-In, In, get_elem?, set,
  if◌then◌else◌, ◌==◌, ◌↔◌, or_else, ap, lookup, insert,
}
use edgecoder.Types.{Subtask}
use edgecoder.Swarm.Queue.{SwarmQueue, QueueItem, best, pool, is_free, taken, claim, agent_claims}
use edgecoder.Swarm.Queue.Choice.{
  Precedes, Beats, Serves, best_lem, best-none, pool-nil, pool-In, pool-Serves, pool_complete,
  free_tasks-In, In-of_free_tasks,
}

-- How a call of `claim` that hands out `s` came about: the place and the item that were chosen.
pub record Claimed (agent : Ident) (model : Option Ident) (now at : ℕ) (q q' : SwarmQueue)
    (s : Subtask) : Type 0 where
  pub place : ℕ
  pub item : QueueItem
  pub chosen : best q (pool now model q) ≡ some (place, item)
  pub subtask : item.subtask ≡ s
  pub tasks : q'.tasks ≡ set q.tasks place (taken agent at item)
  pub counts :
      q'.agent_claim_count
      ≡ insert agent (or_else (lookup agent q.agent_claim_count) 0 + 1) q.agent_claim_count
  pub results : q'.results ≡ q.results
  pub agents : q'.agents ≡ q.agents
  pub projects : q'.project_completed ≡ q.project_completed

not_In_nil {ℓ} : {A : Type ℓ} {a : A} → ¬ In a []
not_In_nil m = elim m [ ]

module _ (agent : Ident) (model : Option Ident) (now at : ℕ) (q : SwarmQueue) where
  pub claim_lem :
      {q' : SwarmQueue} {s : Subtask}
      → claim agent model now at q ≡ (q', some s)
      → Claimed agent model now at q q' s
  unfolding claim
  claim_lem e = elim (Option-cases (best q (pool now model q))) [
    | inl n ↦ absurd (ground arith)
    | inr (c, h) ↦ record {
      place = c.0;
      item = c.1;
      chosen = h;
      subtask = ground arith;
      tasks = ground arith;
      counts = ground arith;
      results = ground arith;
      agents = ground arith;
      projects = ground arith;
    }
  ]

  pub claim-none : {q' : SwarmQueue} → claim agent model now at q ≡ (q', none) → q' ≡ q
  unfolding claim
  claim-none e = ground arith

  claim-none-best : (claim agent model now at q).1 ≡ none → best q (pool now model q) ≡ none
  unfolding claim
  claim-none-best e = ground arith

  chosen_free :
      {q' : SwarmQueue} {s : Subtask} (c : Claimed agent model now at q q' s)
      → (get_elem? q.tasks c.place ≡ some c.item) × (is_free now c.item ≡ true)
  chosen_free c =
      In-of_free_tasks now q c.place c.item
        (pool-In model now q (c.place, c.item) (best_lem q (pool now model q) c.chosen).0)

  none_free : (claim agent model now at q).1 ≡ none → any (is_free now) q.tasks ≡ false
  none_free e = elim (Bool-cases (any (is_free now) q.tasks)) [
    | inr f ↦ f
    | inl f ↦
        let (j, t, g, h) = get_elem?_of_any (is_free now) q.tasks f in
        let empty = best-none q (pool now model q) (claim-none-best e) in
        absurd (not_In_nil (rw (pool-nil model now q empty) at (free_tasks-In now q j t g h)))
  ]

  -- A call of `claim` that hands out a subtask takes a task that was free, marks just that one as
  -- taken by the agent at the time of the call, and counts one claim for the agent; the other agents'
  -- counts, the results and the registered agents stay.
  pub claim_takes :
      (other : Ident) {q' : SwarmQueue} {s : Subtask}
      → claim agent model now at q ≡ (q', some s)
      → ((i : ℕ) × (t : QueueItem) × (get_elem? q.tasks i ≡ some t)
          × (is_free now t ≡ true)
          × (t.subtask ≡ s)
          × (q'.tasks ≡ set q.tasks i (taken agent at t)))
        × (agent_claims other q'
            ≡ (if agent == other then agent_claims agent q + 1 else agent_claims other q))
        × (q'.results ≡ q.results)
        × (q'.agents ≡ q.agents)
  unfolding agent_claims
  claim_takes other e =
      let c = claim_lem e in
      let (g, f) = chosen_free c in
      (
        (c.place, c.item, g, f, c.subtask, c.tasks),
        rw c.counts (
            let n = or_else (lookup agent q.agent_claim_count) 0 + 1 in
            ground (arith, lookup-insert agent other n q.agent_claim_count)),
        c.results,
        c.agents,
      )

  nothing_found : any (is_free now) q.tasks ≡ false → (claim agent model now at q).1 ≡ none
  nothing_found f = elim (Option-cases (claim agent model now at q).1) [
    | inl e ↦ e
    | inr (s, e) ↦
        let c =
          claim_lem {q' = (claim agent model now at q).0}
            (ap (λ o. ((claim agent model now at q).0, o)) e) in
        let (g, h) = chosen_free c in cc (any_of_get_elem? (is_free now) q.tasks c.place g h)
  ]

  -- The subtask handed out is the fairest choice: no free task whose model fits the agent as well
  -- belongs to a project with fewer completed results, or to one with as many at a higher priority.
  pub claim_fair :
      (j : ℕ) (t : QueueItem) {q' : SwarmQueue} {s : Subtask}
      → claim agent model now at q ≡ (q', some s)
      → get_elem? q.tasks j ≡ some t
      → is_free now t ≡ true
      → (Serves model s → Serves model t.subtask)
      → Precedes q s t.subtask
  claim_fair j t e g f as_good =
      let c = claim_lem e in
      let (m, beats) = best_lem q (pool now model q) c.chosen in
      let n = free_tasks-In now q j t g f in
      rw (← c.subtask) (
        All-In (Beats q (c.place, c.item)) beats (
          pool_complete model now q (c.place, c.item) (j, t) n m
            (λ h. as_good (rw c.subtask at h))))

  -- Where some free task asks for the model that the agent runs, the subtask handed out does.
  pub claim_prefers_model :
      (j : ℕ) (t : QueueItem) {q' : SwarmQueue} {s : Subtask}
      → claim agent model now at q ≡ (q', some s)
      → get_elem? q.tasks j ≡ some t
      → is_free now t ≡ true
      → Serves model t.subtask
      → Serves model s
  claim_prefers_model j t e g f h =
      let c = claim_lem e in
      let (m, beats) = best_lem q (pool now model q) c.chosen in
      rw (← c.subtask)
        (pool-Serves model now q (c.place, c.item) (j, t) (free_tasks-In now q j t g f) h m)

  -- `claim` returns nothing exactly when no task of the queue is free.
  pub claim-none_iff : ((claim agent model now at q).1 ≡ none) ↔ (any (is_free now) q.tasks ≡ false)
  claim-none_iff = (none_free, nothing_found)
