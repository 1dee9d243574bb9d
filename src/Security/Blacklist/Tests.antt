-- ===== src/Security/Blacklist/Tests.antt =====
-- The theorems on src/security/blacklist.ts and src/bootstrap/verify-blacklist-audit.ts at concrete
-- inputs, under a toy signature and a toy hash.
use edgecoder.Prelude.{◌+◌, ◌*◌, ◌≡◌, ◌↔◌, refl, false, none, some, [], ◌∷◌, ◌==◌, Ident}
use edgecoder.Ledger.Crypto.{Crypto, verify_payload}
use edgecoder.Security.Behavior.{abuse_spam}
use edgecoder.Security.Blacklist.{
  BlacklistRecord, HashInput, verify_events, verify_audit, check_event, chain_head_mismatch,
  validate_incoming_blacklist_record,
}
use edgecoder.Security.Blacklist.Audits.{IsAuditChain, verify_events_iff}

abbrev toy : Crypto
toy = record {
  sign = λ payload key. payload + key;
  verify = λ payload key signature. some (signature == payload + key);
}

abbrev toy_hash : HashInput → Ident
toy_hash h = h.event_id + 3 * h.prev_event_hash

abbrev event : BlacklistRecord
event = record {
  event_id = 11;
  agent_id = 30;
  reason = 8;
  reason_code = abuse_spam;
  evidence_hash_sha256 = 10;
  reporter_id = 9;
  reporter_public_key_pem = none;
  reporter_signature = none;
  evidence_signature_verified = false;
  evidence_ref = none;
  source_coordinator_id = 1;
  reported_by = 9;
  timestamp_ms = 100;
  expires_at_ms = none;
  prev_event_hash = 99;
  event_hash = 308;
  coordinator_signature = 313;
}

valid_record : validate_incoming_blacklist_record toy toy_hash event 5 ≡ none
unfolding validate_incoming_blacklist_record verify_payload
valid_record = refl

audited : verify_audit toy toy_hash 99 (1, 5) ((2, 7) ∷ []) 308 (event ∷ []) ≡ none
unfolding verify_audit verify_events check_event verify_payload
audited = refl

wrong_head :
    verify_audit toy toy_hash 99 (1, 5) [] 300 (event ∷ []) ≡ some (chain_head_mismatch 308 300)
unfolding verify_audit verify_events check_event verify_payload
wrong_head = refl

verify_events_iff_example :
    (verify_events toy toy_hash ((1, 5) ∷ []) 308 99 (event ∷ []) ≡ none)
    ↔ IsAuditChain toy toy_hash ((1, 5) ∷ []) 308 99 (event ∷ [])
verify_events_iff_example = verify_events_iff toy toy_hash ((1, 5) ∷ []) 308 99 (event ∷ [])
