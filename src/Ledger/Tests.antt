-- ===== src/Ledger/Tests.antt =====
-- The theorems on the hash chains at concrete chains, under a toy signature and a toy hash.
use edgecoder.Prelude.{◌+◌, ◌*◌, ◌≡◌, refl, ◌⊎◌, ◌↔◌, none, some, List, [], ◌∷◌, ◌++◌, Ident, ◌==◌}
use edgecoder.Ledger.Crypto.{Crypto, verify_payload}
use edgecoder.Ledger.Chain.{
  Payload, QueueEventType, QueueEventRecord, Event, OrderingChain, genesis, verify_ordering_chain,
  check_record,
}
use edgecoder.Ledger.Chain.Validity.{IsChain, verify_iff}
use edgecoder.Ledger.Chain.Tampering.{payloads, Collision, tamper_evident}
use edgecoder.Ledger.Audit.{LedgerEvent, Reason, verify_ledger_chain, IsLinked, breakpoint_first}

-- The signature is the sum of the payload and the key, and both halves of a key are one number.
abbrev toy : Crypto
toy = record {
  sign = λ payload key. payload + key;
  verify = λ payload key signature. some (signature == payload + key);
}

abbrev toy_digest : Payload → Ident
toy_digest p = p.task_id + 2 * p.sequence + 3 * p.prev_hash

abbrev claim_event : Event
claim_event = record {
  event_type = QueueEventType.task_claim;
  task_id = 40;
  subtask_id = none;
  actor_id = 2;
  coordinator_id = none;
  checkpoint_height = none;
  checkpoint_hash = none;
  payload_json = none;
}

abbrev empty_chain : OrderingChain
empty_chain = record { records = []; signer_peer_id = 1; signer_private_key = 5 }

abbrev first_payload : Payload
first_payload = record {
  event_type = QueueEventType.task_claim;
  task_id = 40;
  subtask_id = none;
  actor_id = 2;
  sequence = 1;
  issued_at_ms = 100;
  prev_hash = 7;
  coordinator_id = none;
  checkpoint_height = none;
  checkpoint_hash = none;
  payload_json = none;
}

abbrev one_record : List QueueEventRecord
one_record = record { id = 8; payload = first_payload; hash = 63; signature = 68 } ∷ []

one_verifies : verify_ordering_chain toy toy_digest one_record 5 ≡ none
unfolding verify_ordering_chain check_record verify_payload
one_verifies = refl

verify_iff_example :
    (verify_ordering_chain toy toy_digest one_record 5 ≡ none)
    ↔ IsChain toy toy_digest 0 genesis 5 one_record
verify_iff_example = verify_iff toy toy_digest one_record 5

tamper_evident_example : (payloads one_record ≡ payloads one_record) ⊎ Collision toy_digest
tamper_evident_example =
    tamper_evident toy toy_digest one_record one_record 5 5 one_verifies one_verifies refl refl

abbrev join : Ident → Ident → Ident
join prev payload = prev + payload

abbrev broken : List LedgerEvent
broken =
    record { sequence = 4; hash = 30; prev_hash = 10; payload = 20 }
    ∷ record { sequence = 5; hash = 36; prev_hash = 31; payload = 5 }
    ∷ []

broken_reported : verify_ledger_chain join broken ≡ some (5, Reason.chain_break)
unfolding verify_ledger_chain
broken_reported = refl

breakpoint_first_example :
    (before : List LedgerEvent) × (event : LedgerEvent) × (rest : List LedgerEvent) × (broken
      ≡ before ++ event ∷ rest)
    × IsLinked join none before
    × (¬ IsLinked join none (before ++ event ∷ []))
    × (event.sequence ≡ 5)
breakpoint_first_example = breakpoint_first join broken 5 Reason.chain_break broken_reported
