-- ===== src/Coordinator/Register/Expiry.antt =====
-- src/swarm/coordinator.ts: how long an agent is refused.
use edgecoder.Prelude.{
  ℕ, ◌+◌, ◌≤◌, ◌≡◌, ◌≢◌, ◌⊎◌, inl, inr, refl, sym, ◌∙◌, true, not, ◌&&◌, none, some, some-injective,
  List, [], ◌∷◌, arith, leb, if◌then◌else◌, ◌==◌, ==→eq, Ident, lookup, erase, lookup-insert_ne,
  lookup-erase, All, Bool-cases, Option-cases,
}
use edgecoder.Security.Blacklist.{
  validate_incoming_blacklist_record, BlacklistRecord, verify_reporter_evidence_signature,
}
use edgecoder.Coordinator.Register.{
  Register, Identity, PostBody, active_blacklist_record, append_blacklist_record, is_expired,
  action_record, post_record, post_blacklist, ingest_blacklist_update, evidence_of,
  is_manual_review,
}
use edgecoder.Coordinator.Register.AuditLog.{LocalCall, acts, posts, looks_up, step}

-- What changes the register: the coordinator's own calls, and the records of its peers, each with the
-- peer, its key and the clock.
pub data RegisterCall : Type 0 where
  does : LocalCall → RegisterCall
  ingests : BlacklistRecord → Ident → Ident → ℕ → RegisterCall

unfoldable pub step_any : Identity → RegisterCall → Register → Register
step_any me (does c) s = step me c s
step_any me (ingests x peer_id peer_key at) s =
    (ingest_blacklist_update me x peer_id peer_key at s).0

unfoldable pub run_any : Identity → List RegisterCall → Register → Register
run_any me [] s = s
run_any me (c ∷ cs) s = run_any me cs (step_any me c s)

-- The call adds no record of the agent, and looks its record up no later than the given time.
abbrev pub Leaves : Ident → ℕ → RegisterCall → Type 0
Leaves agent now (does (acts action event_id at)) = action.agent_id ≢ agent
Leaves agent now (does (posts body event_id at)) = body.agent_id ≢ agent
Leaves agent now (does (looks_up other at)) = other ≡ agent → at ≤ now
Leaves agent now (ingests x peer_id peer_key at) = x.agent_id ≢ agent

module _ (me : Identity) (agent : Ident) (now : ℕ) (r : BlacklistRecord) where
  -- The record is there, or it has expired and was dropped.
  abbrev IsKept : Register → Type 0
  IsKept s =
      (lookup agent s.blacklist_by_agent ≡ some r)
      ⊎ ((lookup agent s.blacklist_by_agent ≡ none) × (is_expired now r ≡ true))

  is_expired-later : (at : ℕ) → at ≤ now → is_expired at r ≡ true → is_expired now r ≡ true
  is_expired-later at h e = ground arith

  append-IsKept :
      (x : BlacklistRecord) (s : Register)
      → x.agent_id ≢ agent
      → IsKept s
      → IsKept (append_blacklist_record x s)
  unfolding append_blacklist_record
  append-IsKept x s other h =
      let q = lookup-insert_ne x.agent_id agent x s.blacklist_by_agent other in
      elim h [ inl a ↦ inl (q ∙ a) | inr b ↦ inr (q ∙ b.0, b.1) ]

  post-IsKept :
      (body : PostBody) (event_id : Ident) (at : ℕ) (s : Register)
      → body.agent_id ≢ agent
      → IsKept s
      → IsKept (post_blacklist me body event_id at s).0
  unfolding post_blacklist post_record
  post-IsKept body event_id at s other h =
      let verified =
        verify_reporter_evidence_signature me.crypto me.json (evidence_of body at)
          body.reporter_public_key_pem body.reporter_signature in
      let appended = append-IsKept (post_record me body verified event_id at s) s other h in
      elim (Bool-cases (not verified && not (is_manual_review body.reason_code))) [
        | inl e ↦ rw (e, post_blacklist) h
        | inr e ↦ rw (e, post_blacklist) appended
      ]

  drop-IsKept :
      (other : Ident) (at : ℕ) (x : BlacklistRecord) (s : Register)
      → (other ≡ agent → at ≤ now)
      → lookup other s.blacklist_by_agent ≡ some x
      → is_expired at x ≡ true
      → IsKept s
      → IsKept (record s {
        blacklist_by_agent = erase other s.blacklist_by_agent;
        blacklist_version = s.blacklist_version + 1;
      })
  drop-IsKept other at x s le e old h =
      let q = lookup-erase other agent s.blacklist_by_agent in
      elim (Bool-cases (other == agent)) [
        | inl same ↦
            let here = q ∙ rw same refl in
            let id = ==→eq other agent same in
            let found : lookup agent s.blacklist_by_agent ≡ some x = rw id at e in
            elim h [
              | inl a ↦
                  let this = some-injective x r (sym found ∙ a) in
                  inr (here, is_expired-later at (le id) (rw this at old))
              | inr b ↦ let no = sym found ∙ b.0 in cc
            ]
        | inr apart ↦
            let k = q ∙ rw apart refl in elim h [ inl a ↦ inl (k ∙ a) | inr b ↦ inr (k ∙ b.0, b.1) ]
      ]

  lookup-IsKept :
      (other : Ident) (at : ℕ) (s : Register)
      → (other ≡ agent → at ≤ now)
      → IsKept s
      → IsKept (active_blacklist_record other at s).0
  unfolding active_blacklist_record
  lookup-IsKept other at s le h = elim (Option-cases (lookup other s.blacklist_by_agent)) [
    | inl e ↦ rw (e, active_blacklist_record) h
    | inr (x, e) ↦ elim (Bool-cases (is_expired at x)) [
      | inl old ↦ rw (e, old, active_blacklist_record) (drop-IsKept other at x s le e old h)
      | inr old ↦ rw (e, old, active_blacklist_record) h
    ]
  ]

  ingest-IsKept :
      (x : BlacklistRecord) (peer_id peer_key : Ident) (at : ℕ) (s : Register)
      → x.agent_id ≢ agent
      → IsKept s
      → IsKept (ingest_blacklist_update me x peer_id peer_key at s).0
  unfolding ingest_blacklist_update
  ingest-IsKept x peer_id peer_key at s other h =
      let looked = active_blacklist_record x.agent_id at s in
      let kept = lookup-IsKept x.agent_id at s (λ same. absurd (other same)) h in
      let appended = append-IsKept x looked.0 other kept in
      elim (Option-cases (validate_incoming_blacklist_record me.crypto me.event_hash x peer_key)) [
        | inr (fault, e) ↦ rw (e, ingest_blacklist_update) h
        | inl e ↦ elim (Option-cases looked.1) [
          | inl none_active ↦ rw (e, none_active, ingest_blacklist_update) appended
          | inr (c, active) ↦ elim (Bool-cases (leb c.timestamp_ms x.timestamp_ms)) [
            | inl newer ↦ rw (e, active, newer, ingest_blacklist_update) appended
            | inr older ↦ rw (e, active, older, ingest_blacklist_update) kept
          ]
        ]
      ]

  step-IsKept :
      (c : RegisterCall) (s : Register) → Leaves agent now c → IsKept s → IsKept (step_any me c s)
  unfolding step_any step action_record
  step-IsKept (does (acts action event_id at)) s other h =
      append-IsKept (action_record me action event_id at s) s other h
  step-IsKept (does (posts body event_id at)) s other h = post-IsKept body event_id at s other h
  step-IsKept (does (looks_up other at)) s le h = lookup-IsKept other at s le h
  step-IsKept (ingests x peer_id peer_key at) s other h =
      ingest-IsKept x peer_id peer_key at s other h

  run-IsKept :
      (cs : List RegisterCall) (s : Register)
      → All (Leaves agent now) cs
      → IsKept s
      → IsKept (run_any me cs s)
  unfolding run_any
  run-IsKept [] s leaves h = h
  run-IsKept (c ∷ cs) s leaves h =
      run-IsKept cs (step_any me c s) leaves.1 (step-IsKept c s leaves.0 h)

  active_of_IsKept :
      (s : Register)
      → IsKept s
      → (active_blacklist_record agent now s).1 ≡ (if is_expired now r then none else some r)
  unfolding active_blacklist_record
  active_of_IsKept s h = elim h [
    | inl a ↦ elim (Bool-cases (is_expired now r)) [
      | inl x ↦ rw (a, x, active_blacklist_record) refl
      | inr x ↦ rw (a, x, active_blacklist_record) refl
    ]
    | inr b ↦ rw (b.0, b.1, active_blacklist_record) refl
  ]

  -- The record of an agent is found, whatever the coordinator records of other agents, of its own or
  -- from its peers, and whatever it looks up before, as long as the record has no expiry or the expiry
  -- has not passed; after that none is found. The record was not looked up at a later time.
  pub refused_until_expiry :
      (cs : List RegisterCall) (s : Register)
      → lookup agent s.blacklist_by_agent ≡ some r
      → All (Leaves agent now) cs
      → (active_blacklist_record agent now (run_any me cs s)).1
        ≡ (if is_expired now r then none else some r)
  refused_until_expiry cs s e leaves =
      active_of_IsKept (run_any me cs s) (run-IsKept cs s leaves (inl e))
