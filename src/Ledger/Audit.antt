-- ===== src/Ledger/Audit.antt =====
-- src/audit/ledger-verifier.ts: `verifyLedgerChain`. `digest prev payload` is the SHA-256 hash of the
-- two texts joined.
use edgecoder.Prelude.{
  ℕ, ◌+◌, ◌≡◌, refl, ◌↔◌, inl, inr, false, not, Option, none, some, List, [], ◌∷◌, ◌++◌, Ident,
  ◌==◌, if◌then◌else◌, arith, Option-cases,
}

pub record LedgerEvent : Type 0 where
  pub sequence : ℕ
  pub hash : Ident
  pub prev_hash : Ident
  pub payload : Ident

pub data Reason : Type 0 where
  sequence_gap hash_mismatch chain_break : Reason

module _ (digest : Ident → Ident → Ident) where
  -- One round of the loop; the event before it is there from the second round on.
  pub check_event : Option LedgerEvent → LedgerEvent → Option Reason
  check_event prev event =
      if elim prev [ none ↦ false | some p ↦ not (event.sequence == p.sequence + 1) ]
      then some sequence_gap
      else if not (event.hash == digest event.prev_hash event.payload)
      then some hash_mismatch
      else if elim prev [ none ↦ false | some p ↦ not (event.prev_hash == p.hash) ]
      then some chain_break
      else none

  pub verify_after : Option LedgerEvent → List LedgerEvent → Option (ℕ × Reason)
  unfolding check_event
  verify_after prev [] = none
  verify_after prev (event ∷ events) = elim (check_event prev event) [
    | some reason ↦ some (event.sequence, reason)
    | none ↦ verify_after (some event) events
  ]

  -- `none` stands for `{ valid: true }`, and a pair for the breakpoint and the reason.
  unfoldable pub verify_ledger_chain : List LedgerEvent → Option (ℕ × Reason)
  unfolding verify_after
  verify_ledger_chain events = verify_after none events

  -- What may stand after an event: the next number, and a link to its hash.
  abbrev pub Follows : Option LedgerEvent → LedgerEvent → Type 0
  Follows none event = Unit
  Follows (some p) event = (event.sequence ≡ p.sequence + 1) × (event.prev_hash ≡ p.hash)

  abbrev pub IsLinked : Option LedgerEvent → List LedgerEvent → Type 0
  IsLinked prev [] = Unit
  IsLinked prev (event ∷ events) =
      Follows prev event
      × (event.hash ≡ digest event.prev_hash event.payload)
      × IsLinked (some event) events

  check_event-none :
      (prev : Option LedgerEvent) (event : LedgerEvent)
      → (check_event prev event ≡ none)
        ↔ (Follows prev event × (event.hash ≡ digest event.prev_hash event.payload))
  unfolding check_event
  check_event-none none event = ground arith
  check_event-none (some p) event = ground arith

  verify_after-sound :
      (prev : Option LedgerEvent) (events : List LedgerEvent)
      → verify_after prev events ≡ none
      → IsLinked prev events
  unfolding verify_after
  verify_after-sound prev [] e = tt
  verify_after-sound prev (event ∷ events) e = elim (Option-cases (check_event prev event)) [
    | inl n ↦
        let h = (check_event-none prev event).0 n in
        (h.0, h.1, verify_after-sound (some event) events (rw (n, verify_after) at e))
    | inr (r, n) ↦ absurd (ground arith)
  ]

  verify_after_complete :
      (prev : Option LedgerEvent) (events : List LedgerEvent)
      → IsLinked prev events
      → verify_after prev events ≡ none
  unfolding verify_after
  verify_after_complete prev [] h = refl
  verify_after_complete prev (event ∷ events) h =
      let n = (check_event-none prev event).1 (h.0, h.1) in
      rw (n, verify_after) (verify_after_complete (some event) events h.2)

  -- The audit accepts a ledger exactly when every event has the hash of its link and payload, and each
  -- after the first has the next number and links to the hash before it.
  pub verify_ledger_chain_iff :
      (events : List LedgerEvent) → (verify_ledger_chain events ≡ none) ↔ IsLinked none events
  unfolding verify_ledger_chain
  verify_ledger_chain_iff events =
      (verify_after-sound none events, verify_after_complete none events)

  -- Where a list breaks: all before the event is linked, and the event is not linked to it.
  record Break (prev : Option LedgerEvent) (events : List LedgerEvent) (at : ℕ) : Type 0 where
    pub before : List LedgerEvent
    pub event : LedgerEvent
    pub rest : List LedgerEvent
    pub parts : events ≡ before ++ event ∷ rest
    pub linked : IsLinked prev before
    pub broken : ¬ IsLinked prev (before ++ event ∷ [])
    pub number : event.sequence ≡ at

  verify_after-Break :
      (prev : Option LedgerEvent) (events : List LedgerEvent) (at : ℕ) (reason : Reason)
      → verify_after prev events ≡ some (at, reason)
      → Break prev events at
  unfolding verify_after
  verify_after-Break prev [] at reason e = cc
  verify_after-Break prev (event ∷ events) at reason e =
      elim (Option-cases (check_event prev event)) [
        | inl n ↦
            let b = verify_after-Break (some event) events at reason (rw (n, verify_after) at e) in
            let h = (check_event-none prev event).0 n in
            record {
              before = event ∷ b.before;
              event = b.event;
              rest = b.rest;
              parts = rw (← b.parts);
              linked = (h.0, h.1, b.linked);
              broken = λ k. b.broken k.2;
              number = b.number;
            }
        | inr (r, n) ↦ record {
          before = [];
          event = event;
          rest = events;
          parts = refl;
          linked = tt;
          broken = λ k. (let m = (check_event-none prev event).1 (k.0, k.1) in cc);
          number = ground arith;
        }
      ]

  -- The breakpoint that the audit reports is the number of the first event that is not linked to the
  -- events before it.
  pub breakpoint_first :
      (events : List LedgerEvent) (at : ℕ) (reason : Reason)
      → verify_ledger_chain events ≡ some (at, reason)
      → (before : List LedgerEvent) × (event : LedgerEvent) × (rest : List LedgerEvent) × (events
          ≡ before ++ event ∷ rest)
        × IsLinked none before
        × (¬ IsLinked none (before ++ event ∷ []))
        × (event.sequence ≡ at)
  unfolding verify_ledger_chain
  breakpoint_first events at reason e =
      let b = verify_after-Break none events at reason e in
      (b.before, b.event, b.rest, b.parts, b.linked, b.broken, b.number)
