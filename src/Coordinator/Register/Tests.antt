-- ===== src/Coordinator/Register/Tests.antt =====
-- The theorems on the blacklist of src/swarm/coordinator.ts at concrete inputs, under a toy signature
-- and a toy hash.
use edgecoder.Prelude.{
  ◌+◌, ◌*◌, ◌≡◌, refl, false, none, some, List, [], ◌∷◌, ◌==◌, arith, Ident, if◌then◌else◌, lookup,
}
use edgecoder.Ledger.Crypto.{Crypto, IsKeyPair, sign_payload, verify_payload}
use edgecoder.Security.Behavior.{manual_review}
use edgecoder.Security.Blacklist.{
  BlacklistRecord, HashInput, hash_chain_break, verify_events, check_event,
  validate_incoming_blacklist_record,
}
use edgecoder.Coordinator.Register.{
  Register, Identity, PostBody, new_register, active_blacklist_record, append_blacklist_record,
  is_expired, post_record, ingest_blacklist_update,
}
use edgecoder.Coordinator.Register.AuditLog.{LocalCall, posts, looks_up, run, local_log_accepted}
use edgecoder.Coordinator.Register.Expiry.{
  does, ingests, RegisterCall, run_any, refused_until_expiry,
}

-- The signature is the sum of the payload and the key, and both halves of a key are one number.
abbrev toy : Crypto
toy = record {
  sign = λ payload key. payload + key;
  verify = λ payload key signature. some (signature == payload + key);
}

toy-IsKeyPair : IsKeyPair toy 5 5
toy-IsKeyPair payload = ground arith

abbrev toy_hash : HashInput → Ident
toy_hash h = h.event_id + 2 * h.timestamp_ms + 3 * h.prev_event_hash

abbrev pub me : Identity
me = record {
  crypto = toy;
  event_hash = toy_hash;
  json = λ e. e.timestamp_ms;
  text = λ rules figures. 4;
  behavioral_monitoring = 6;
  peer_id = 1;
  private_key_pem = 5;
}

abbrev other : Identity
other = record me { peer_id = 2 }

abbrev pub review : Ident → PostBody
review agent = record {
  agent_id = agent;
  reason_code = manual_review;
  reason = 8;
  reported_by = 9;
  reporter_id = 9;
  reporter_public_key_pem = none;
  reporter_signature = none;
  evidence_hash_sha256 = 10;
  evidence_ref = none;
  expires_in_ms = some 50;
}

abbrev history : List LocalCall
history = posts (review 30) 11 100 ∷ looks_up 30 160 ∷ posts (review 31) 12 170 ∷ []

local_log_accepted_example :
    verify_events toy toy_hash
      ((1, 5) ∷ [])
      (run me history (new_register 99)).last_blacklist_event_hash
      99
      (run me history (new_register 99)).blacklist_audit_log
    ≡ none
local_log_accepted_example =
    local_log_accepted me ((1, 5) ∷ []) 5 refl (λ e. omega (arith, e)) toy-IsKeyPair 99 history

abbrev banned : Register
banned =
    append_blacklist_record (post_record me (review 30) false 11 100 (new_register 99))
      (new_register 99)

banned_record :
    lookup 30 banned.blacklist_by_agent
    ≡ some (post_record me (review 30) false 11 100 (new_register 99))
unfolding append_blacklist_record post_record
banned_record = refl

abbrev pub reported : BlacklistRecord
reported = post_record other (review 40) false 21 135 (new_register 99)

pub reported-agent_id : reported.agent_id ≡ 40
unfolding post_record
reported-agent_id = refl

-- A look at the agent, a record of another agent, and one of a third that a peer reports.
abbrev others : List RegisterCall
others = does (looks_up 30 120) ∷ does (posts (review 31) 12 130) ∷ ingests reported 2 5 138 ∷ []

refused_until_expiry_example : (active_blacklist_record 30 140 (run_any me others banned)).1 ≡ (
    if is_expired 140 (post_record me (review 30) false 11 100 (new_register 99))
    then none
    else some (post_record me (review 30) false 11 100 (new_register 99)))
refused_until_expiry_example =
    refused_until_expiry me 30 140 (post_record me (review 30) false 11 100 (new_register 99))
      others banned banned_record
      (
        (λ e. omega arith),
        ((λ e. omega (arith, e)), ((λ e. omega (arith, e, reported-agent_id)), tt)),
      )

-- A record of another coordinator links to a hash of that one, so the log of a coordinator that
-- took it in is no chain.
abbrev imported : Register
imported =
    (ingest_blacklist_update me (post_record other (review 40) false 21 200 (new_register 99)) 2 5
      210 banned).0

imported_breaks :
    verify_events toy toy_hash
      ((1, 5) ∷ (2, 5) ∷ [])
      imported.last_blacklist_event_hash
      99
      imported.blacklist_audit_log
    ≡ some (hash_chain_break 21)
unfolding verify_events check_event ingest_blacklist_update post_record append_blacklist_record
    active_blacklist_record validate_incoming_blacklist_record verify_payload sign_payload
imported_breaks = refl
