-- ===== src/Security/Blacklist.antt =====
-- src/security/blacklist.ts and the loop of src/bootstrap/verify-blacklist-audit.ts. SHA-256 of a
-- JSON text and the JSON text of evidence are parameters on what the text is made of.
pub mod Audits
mod Tests
use edgecoder.Prelude.{
  ℕ, Bool, true, false, not, ◌||◌, Option, none, some, List, [], ◌∷◌, ◌==◌, if◌then◌else◌, Ident,
  zero, truthy, or_else, Dict, lookup, insert, length,
}
use edgecoder.Ledger.Crypto.{Crypto, verify_payload}
use edgecoder.Security.Behavior.{BlacklistReasonCode}

pub record BlacklistEvidenceInput : Type 0 where
  pub agent_id : Ident
  pub reason_code : BlacklistReasonCode
  pub reason : Ident
  pub evidence_hash_sha256 : Ident
  pub reporter_id : Ident
  pub timestamp_ms : ℕ

pub record BlacklistRecord : Type 0 where
  pub event_id : Ident
  pub agent_id : Ident
  pub reason : Ident
  pub reason_code : BlacklistReasonCode
  pub evidence_hash_sha256 : Ident
  pub reporter_id : Ident
  pub reporter_public_key_pem : Option Ident
  pub reporter_signature : Option Ident
  pub evidence_signature_verified : Bool
  pub evidence_ref : Option Ident
  pub source_coordinator_id : Ident
  pub reported_by : Ident
  pub timestamp_ms : ℕ
  pub expires_at_ms : Option ℕ
  pub prev_event_hash : Ident
  pub event_hash : Ident
  pub coordinator_signature : Ident

-- What `buildBlacklistEventHash` takes, and turns into a JSON text; a missing expiry is `null`.
pub record HashInput : Type 0 where
  pub event_id : Ident
  pub agent_id : Ident
  pub reason_code : BlacklistReasonCode
  pub reason : Ident
  pub evidence_hash_sha256 : Ident
  pub reporter_id : Ident
  pub source_coordinator_id : Ident
  pub timestamp_ms : ℕ
  pub expires_at_ms : Option ℕ
  pub prev_event_hash : Ident
  pub evidence_signature_verified : Bool

abbrev pub hash_input_of : BlacklistRecord → HashInput
hash_input_of r = record {
  event_id = r.event_id;
  agent_id = r.agent_id;
  reason_code = r.reason_code;
  reason = r.reason;
  evidence_hash_sha256 = r.evidence_hash_sha256;
  reporter_id = r.reporter_id;
  source_coordinator_id = r.source_coordinator_id;
  timestamp_ms = r.timestamp_ms;
  expires_at_ms = r.expires_at_ms;
  prev_event_hash = r.prev_event_hash;
  evidence_signature_verified = r.evidence_signature_verified;
}

-- The key and the signature of the reporter may be missing or empty.
unfoldable pub verify_reporter_evidence_signature :
    Crypto
    → (BlacklistEvidenceInput → Ident)
    → BlacklistEvidenceInput
    → Option Ident
    → Option Ident
    → Bool
verify_reporter_evidence_signature crypto json evidence key signature =
    if not (truthy key) || not (truthy signature)
    then false
    else verify_payload crypto (json evidence) (or_else signature 0) (or_else key 0)

pub data RecordFault : Type 0 where
  blacklist_event_hash_mismatch blacklist_coordinator_signature_invalid : RecordFault

-- What the audit fails with.
pub data AuditFault : Type 0 where
  hash_chain_break event_hash_mismatch missing_coordinator_key coordinator_signature_invalid :
      Ident → AuditFault
  chain_head_mismatch : Ident → Ident → AuditFault

module _ (crypto : Crypto) (event_hash : HashInput → Ident) where
  -- `none` stands for `{ ok: true }`.
  unfoldable pub validate_incoming_blacklist_record : BlacklistRecord → Ident → Option RecordFault
  validate_incoming_blacklist_record r peer_public_key_pem =
      if not (event_hash (hash_input_of r) == r.event_hash)
      then some blacklist_event_hash_mismatch
      else if not (verify_payload crypto r.event_hash r.coordinator_signature peer_public_key_pem)
      then some blacklist_coordinator_signature_invalid
      else none

  -- One round of the loop over the events.
  unfoldable pub check_event : Dict Ident → Ident → BlacklistRecord → Option AuditFault
  check_event coordinator_key_by_id previous_hash event =
      if not (event.prev_event_hash == previous_hash)
      then some (hash_chain_break event.event_id)
      else if not (event_hash (hash_input_of event) == event.event_hash)
      then some (event_hash_mismatch event.event_id)
      else if not (truthy (lookup event.source_coordinator_id coordinator_key_by_id))
      then some (missing_coordinator_key event.source_coordinator_id)
      else if not (
          verify_payload crypto event.event_hash event.coordinator_signature
            (or_else (lookup event.source_coordinator_id coordinator_key_by_id) 0))
      then some (coordinator_signature_invalid event.event_id)
      else none

  -- The loop, and the comparison of the head after it; `none` where nothing fails.
  unfoldable pub verify_events :
      Dict Ident → Ident → Ident → List BlacklistRecord → Option AuditFault
  verify_events coordinator_key_by_id chain_head previous_hash [] =
      if chain_head == previous_hash
      then none
      else some (chain_head_mismatch previous_hash chain_head)
  verify_events coordinator_key_by_id chain_head previous_hash (event ∷ events) =
      elim (check_event coordinator_key_by_id previous_hash event) [
        | some fault ↦ some fault
        | none ↦ verify_events coordinator_key_by_id chain_head event.event_hash events
      ]

  -- `coordinatorKeyById`: the coordinator's own key, and then those of its peers.
  abbrev pub keys_of : Dict Ident → List (Ident × Ident) → Dict Ident
  keys_of known [] = known
  keys_of known ((peer_id, key) ∷ peers) = keys_of (insert peer_id key known) peers

  -- `genesis` is the text "BLACKLIST_GENESIS".
  unfoldable pub verify_audit :
      Ident
      → Ident × Ident
      → List (Ident × Ident)
      → Ident
      → List BlacklistRecord
      → Option AuditFault
  verify_audit genesis identity peers chain_head events =
      verify_events (keys_of (identity ∷ []) peers) chain_head genesis events
