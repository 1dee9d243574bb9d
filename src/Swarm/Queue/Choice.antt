-- ===== src/Swarm/Queue/Choice.antt =====
-- src/swarm/queue.ts: which item `claim` picks, out of which candidates.
use mathlib.Core.List.{foldl}
use edgecoder.Prelude.{
  ℕ, ◌+◌, ◌≤◌, ◌<◌, ◌≡◌, refl, ◌⊎◌, inl, inr, true, Option, none, some, List, [], ◌∷◌, arith, Ident,
  truthy, same, Bool-cases, All, In, here, there, indexed, get_elem?, ◌∙◌, In-indexed,
  get_elem?_of_indexed, subst, some-injective, ◌&&◌, In-filter, In-of_filter,
}
use edgecoder.Types.{Subtask}
use edgecoder.Swarm.Queue.{
  SwarmQueue, QueueItem, Candidate, completed, priority, prefer, best, pool, matching, is_free,
  wants, or_all, free_tasks,
}

-- `x` is served before `d`: its project has fewer completed results, or as many and `x` has at least
-- the priority of `d`.
abbrev pub Precedes : SwarmQueue → Subtask → Subtask → Type 0
Precedes q x d =
    (completed q x < completed q d) ⊎ ((completed q x ≡ completed q d) × (priority d ≤ priority x))

abbrev pub Beats : SwarmQueue → Candidate → Candidate → Type 0
Beats q x d = Precedes q x.1.subtask d.1.subtask

module _ (q : SwarmQueue) where
  prefer-Beats : (x d : Candidate) → Beats q (prefer q x d) x × Beats q (prefer q x d) d
  unfolding prefer
  prefer-Beats x d = ground arith

  Beats-trans : (x y z : Candidate) → Beats q x y → Beats q y z → Beats q x z
  Beats-trans x y z h k = ground arith

  foldl-Beats :
      (x : Candidate) (cs : List Candidate)
      → Beats q (foldl (prefer q) x cs) x × All (Beats q (foldl (prefer q) x cs)) cs
  foldl-Beats x [] = (inr (refl, omega arith), tt)
  foldl-Beats x (c ∷ cs) =
      let ih = foldl-Beats (prefer q x c) cs in
      let step = prefer-Beats x c in
      let w = foldl (prefer q) (prefer q x c) cs in
      (
        Beats-trans w (prefer q x c) x ih.0 step.0,
        (Beats-trans w (prefer q x c) c ih.0 step.1, ih.1),
      )

  prefer_either : (x d : Candidate) → (prefer q x d ≡ x) ⊎ (prefer q x d ≡ d)
  unfolding prefer
  prefer_either x d = ground arith

  foldl-In :
      (x : Candidate) (cs ds : List Candidate)
      → ((c : Candidate) → In c cs → In c ds)
      → In x ds
      → In (foldl (prefer q) x cs) ds
  foldl-In x [] ds sub m = m
  foldl-In x (c ∷ cs) ds sub m =
      foldl-In (prefer q x c) cs ds (λ e n. sub e (there n))
        (elim (prefer_either x c) [ inl e ↦ rw e m | inr e ↦ rw e (sub c here) ])

  -- The item picked is one of the candidates, and it beats every one.
  pub best_lem :
      (cs : List Candidate) {x : Candidate} → best q cs ≡ some x → In x cs × All (Beats q x) cs
  unfolding best
  best_lem [] e = cc
  best_lem (c ∷ cs) {x} e =
      let w = foldl (prefer q) c (c ∷ cs) in
      subst (λ y. In y (c ∷ cs) × All (Beats q y) (c ∷ cs)) (some-injective w x e)
        (foldl-In c (c ∷ cs) (c ∷ cs) (λ d m. m) here, (foldl-Beats c (c ∷ cs)).1)

  pub best-none : (cs : List Candidate) → best q cs ≡ none → cs ≡ []
  unfolding best
  best-none [] e = refl
  best-none (c ∷ cs) e = cc

-- The subtask asks for the model that the agent runs, and the agent runs one.
abbrev pub Serves : Option Ident → Subtask → Type 0
Serves model s = ((truthy model && same s.requested_model model) ≡ true)

module _ (model : Option Ident) where
  matching-In :
      (u : List Candidate) (c : Candidate)
      → In c u
      → Serves model c.1.subtask
      → In c (matching model u)
  unfolding matching
  matching-In u c m h = elim (Bool-cases (truthy model)) [
    | inl e ↦ rw e (In-filter (wants model) u m (rw e at h))
    | inr e ↦ ground arith
  ]

  In-of_matching :
      (u : List Candidate) (c : Candidate)
      → In c (matching model u)
      → In c u × Serves model c.1.subtask
  unfolding matching
  In-of_matching u c m = elim (Bool-cases (truthy model)) [
    | inl e ↦ rw e (In-of_filter (wants model) u (rw e at m))
    | inr e ↦ elim (rw e at m) [ ]
  ]

  or_all-In :
      (u ms : List Candidate) (c : Candidate)
      → ((d : Candidate) → In d ms → In d u)
      → In c (or_all ms u)
      → In c u
  or_all-In u [] c sub m = m
  or_all-In u (d ∷ ds) c sub m = sub c m

  -- A candidate is a free task of the queue.
  pub pool-In :
      (now : ℕ) (q : SwarmQueue) (c : Candidate) → In c (pool now model q) → In c (free_tasks now q)
  unfolding pool
  pool-In now q c m =
      or_all-In (free_tasks now q) (matching model (free_tasks now q)) c
        (λ d n. (In-of_matching (free_tasks now q) d n).0) m

  or_all-Serves :
      (u ms : List Candidate) (c d : Candidate)
      → ((e : Candidate) → In e ms → Serves model e.1.subtask)
      → In d ms
      → In c (or_all ms u)
      → Serves model c.1.subtask
  or_all-Serves u [] c d all n m = elim n [ ]
  or_all-Serves u (e ∷ es) c d all n m = all c m

  -- Where a free task asks for the agent's model, every candidate does.
  pub pool-Serves :
      (now : ℕ) (q : SwarmQueue) (c d : Candidate)
      → In d (free_tasks now q)
      → Serves model d.1.subtask
      → In c (pool now model q)
      → Serves model c.1.subtask
  unfolding pool
  pool-Serves now q c d n h m =
      or_all-Serves (free_tasks now q) (matching model (free_tasks now q)) c d
        (λ e k. (In-of_matching (free_tasks now q) e k).1) (matching-In (free_tasks now q) d n h) m

  or_all_complete :
      (u ms : List Candidate) (c d : Candidate)
      → ((e : Candidate) → In e ms → Serves model e.1.subtask)
      → (Serves model d.1.subtask → In d ms)
      → In d u
      → In c (or_all ms u)
      → (Serves model c.1.subtask → Serves model d.1.subtask)
      → In d (or_all ms u)
  or_all_complete u [] c d all into n m as_good = n
  or_all_complete u (e ∷ es) c d all into n m as_good = into (as_good (all c m))

  -- A free task that matches the model if some candidate does is a candidate too.
  pub pool_complete :
      (now : ℕ) (q : SwarmQueue) (c d : Candidate)
      → In d (free_tasks now q)
      → In c (pool now model q)
      → (Serves model c.1.subtask → Serves model d.1.subtask)
      → In d (pool now model q)
  unfolding pool
  pool_complete now q c d n m as_good =
      or_all_complete (free_tasks now q) (matching model (free_tasks now q)) c d
        (λ e k. (In-of_matching (free_tasks now q) e k).1) (matching-In (free_tasks now q) d n) n m
        as_good

pub or_all-nil : (ms u : List Candidate) → or_all ms u ≡ [] → u ≡ []
or_all-nil [] u e = e
or_all-nil (c ∷ cs) u e = cc

pub pool-nil :
    (model : Option Ident) (now : ℕ) (q : SwarmQueue)
    → pool now model q ≡ []
    → free_tasks now q ≡ []
unfolding pool
pool-nil model now q e = or_all-nil (matching model (free_tasks now q)) (free_tasks now q) e

-- The free tasks are those at the places of the queue's list that are free.
pub free_tasks-In :
    (now : ℕ) (q : SwarmQueue) (j : ℕ) (t : QueueItem)
    → get_elem? q.tasks j ≡ some t
    → is_free now t ≡ true
    → In (j, t) (free_tasks now q)
free_tasks-In now q j t e h =
    In-filter (λ (c : Candidate). is_free now c.1) (indexed 0 q.tasks)
      (let n : 0 + j ≡ j = omega arith in rw n at (In-indexed 0 j q.tasks e)) h

pub In-of_free_tasks :
    (now : ℕ) (q : SwarmQueue) (j : ℕ) (t : QueueItem)
    → In (j, t) (free_tasks now q)
    → (get_elem? q.tasks j ≡ some t) × (is_free now t ≡ true)
In-of_free_tasks now q j t m =
    let (n, h) = In-of_filter (λ (c : Candidate). is_free now c.1) (indexed 0 q.tasks) m in
    let (k, e, g) = get_elem?_of_indexed 0 q.tasks n in
    let e' : j ≡ k = e ∙ omega arith in (rw e' g, h)
