-- ===== src/Coordinator/Register.antt =====
-- src/swarm/coordinator.ts: the blacklist of a coordinator. The clock and the identifiers drawn are
-- arguments; the store, the security log and the gossip of new records are left out.
pub mod AuditLog
pub mod Expiry
pub mod Tests
use edgecoder.Prelude.{
  ℕ, zero, suc, ◌+◌, ◌-◌, Bool, true, false, not, ◌&&◌, Option, none, some, List, [], ◌∷◌, ◌++◌,
  ltb, leb, if◌then◌else◌, Ident, truthy, or_else, Dict, lookup, insert, erase, Result, ok, err,
}
use mathlib.Core.Option
use edgecoder.Ledger.Crypto.{Crypto, sign_payload}
use edgecoder.Security.Behavior.{BlacklistReasonCode, manual_review}
use edgecoder.Security.AnomalyDetector.{RuleId, Figures}
use edgecoder.Security.AutoBlacklister.{BlacklistAction}
use edgecoder.Security.Blacklist.{
  BlacklistEvidenceInput, BlacklistRecord, HashInput, RecordFault,
  verify_reporter_evidence_signature, validate_incoming_blacklist_record,
}

pub record Register : Type 0 where
  pub blacklist_by_agent : Dict BlacklistRecord
  pub blacklist_audit_log : List BlacklistRecord
  pub blacklist_version : ℕ
  pub last_blacklist_event_hash : Ident
  pub peer_score : Dict ℕ

-- `genesis` is the text "BLACKLIST_GENESIS".
abbrev pub new_register : Ident → Register
new_register genesis = record {
  blacklist_by_agent = [];
  blacklist_audit_log = [];
  blacklist_version = 0;
  last_blacklist_event_hash = genesis;
  peer_score = [];
}

-- `record.expiresAtMs && Date.now() > record.expiresAtMs`
abbrev pub is_expired : ℕ → BlacklistRecord → Bool
is_expired now r = truthy r.expires_at_ms && ltb (or_else r.expires_at_ms 0) now

unfoldable pub active_blacklist_record : Ident → ℕ → Register → Register × Option BlacklistRecord
active_blacklist_record agent_id now s = elim (lookup agent_id s.blacklist_by_agent) [
  | none ↦ (s, none)
  | some r ↦
      if is_expired now r
      then (
        record s {
          blacklist_by_agent = erase agent_id s.blacklist_by_agent;
          blacklist_version = s.blacklist_version + 1;
        },
        none,
      )
      else (s, some r)
]

unfoldable pub append_blacklist_record : BlacklistRecord → Register → Register
append_blacklist_record r s = record s {
  blacklist_by_agent = insert r.agent_id r s.blacklist_by_agent;
  blacklist_audit_log = s.blacklist_audit_log ++ r ∷ [];
  blacklist_version = s.blacklist_version + 1;
  last_blacklist_event_hash = r.event_hash;
}

-- The body of `POST /security/blacklist` once the schema has accepted it.
pub record PostBody : Type 0 where
  pub agent_id : Ident
  pub reason_code : BlacklistReasonCode
  pub reason : Ident
  pub reported_by : Ident
  pub reporter_id : Ident
  pub reporter_public_key_pem : Option Ident
  pub reporter_signature : Option Ident
  pub evidence_hash_sha256 : Ident
  pub evidence_ref : Option Ident
  pub expires_in_ms : Option ℕ

abbrev pub is_manual_review : BlacklistReasonCode → Bool
is_manual_review code = elim code [ manual_review ↦ true | _ ↦ false ]

pub data PostFault : Type 0 where
  reporter_signature_invalid_for_reason_code : PostFault

-- What a coordinator is: its identifier and key, and the functions that it hashes and signs with.
-- `text` is the text of an action's rules and figures, `json` that of evidence, and
-- `behavioral_monitoring` stands for this text.
pub record Identity : Type 0 where
  pub crypto : Crypto
  pub event_hash : HashInput → Ident
  pub json : BlacklistEvidenceInput → Ident
  pub text : List RuleId → Figures → Ident
  pub behavioral_monitoring : Ident
  pub peer_id : Ident
  pub private_key_pem : Ident

-- The callback of the automatic blacklister: the record and the register afterwards.
unfoldable pub action_record : Identity → BlacklistAction → Ident → ℕ → Register → BlacklistRecord
action_record me action event_id now s =
    let prev_event_hash = s.last_blacklist_event_hash in
    let event_hash = me.event_hash (record {
      event_id = event_id;
      agent_id = action.agent_id;
      reason_code = action.reason_code;
      reason = me.text action.reason_rules action.reason_figures;
      evidence_hash_sha256 = action.evidence_hash;
      reporter_id = me.peer_id;
      source_coordinator_id = me.peer_id;
      timestamp_ms = now;
      expires_at_ms = none;
      prev_event_hash = prev_event_hash;
      evidence_signature_verified = false;
    }) in
    record {
      event_id = event_id;
      agent_id = action.agent_id;
      reason = me.text action.reason_rules action.reason_figures;
      reason_code = action.reason_code;
      evidence_hash_sha256 = action.evidence_hash;
      reporter_id = me.peer_id;
      reporter_public_key_pem = none;
      reporter_signature = none;
      evidence_signature_verified = false;
      evidence_ref = none;
      source_coordinator_id = me.peer_id;
      reported_by = me.behavioral_monitoring;
      timestamp_ms = now;
      expires_at_ms = none;
      prev_event_hash = prev_event_hash;
      event_hash = event_hash;
      coordinator_signature = sign_payload me.crypto event_hash me.private_key_pem;
    }

abbrev pub on_blacklist : Identity → BlacklistAction → Ident → ℕ → Register → Register
on_blacklist me action event_id now s =
    append_blacklist_record (action_record me action event_id now s) s

abbrev pub evidence_of : PostBody → ℕ → BlacklistEvidenceInput
evidence_of body now = record {
  agent_id = body.agent_id;
  reason_code = body.reason_code;
  reason = body.reason;
  evidence_hash_sha256 = body.evidence_hash_sha256;
  reporter_id = body.reporter_id;
  timestamp_ms = now;
}

-- `body.expiresInMs ? timestampMs + body.expiresInMs : undefined`
abbrev pub expiry_of : PostBody → ℕ → Option ℕ
expiry_of body now =
    if truthy body.expires_in_ms then Option.map (λ d. now + d) body.expires_in_ms else none

unfoldable pub post_record : Identity → PostBody → Bool → Ident → ℕ → Register → BlacklistRecord
post_record me body verified event_id now s =
    let prev_event_hash = s.last_blacklist_event_hash in
    let event_hash = me.event_hash (record {
      event_id = event_id;
      agent_id = body.agent_id;
      reason_code = body.reason_code;
      reason = body.reason;
      evidence_hash_sha256 = body.evidence_hash_sha256;
      reporter_id = body.reporter_id;
      source_coordinator_id = me.peer_id;
      timestamp_ms = now;
      expires_at_ms = expiry_of body now;
      prev_event_hash = prev_event_hash;
      evidence_signature_verified = verified;
    }) in
    record {
      event_id = event_id;
      agent_id = body.agent_id;
      reason = body.reason;
      reason_code = body.reason_code;
      evidence_hash_sha256 = body.evidence_hash_sha256;
      reporter_id = body.reporter_id;
      reporter_public_key_pem = body.reporter_public_key_pem;
      reporter_signature = body.reporter_signature;
      evidence_signature_verified = verified;
      evidence_ref = body.evidence_ref;
      source_coordinator_id = me.peer_id;
      reported_by = body.reported_by;
      timestamp_ms = now;
      expires_at_ms = expiry_of body now;
      prev_event_hash = prev_event_hash;
      event_hash = event_hash;
      coordinator_signature = sign_payload me.crypto event_hash me.private_key_pem;
    }

unfoldable pub post_blacklist :
    Identity → PostBody → Ident → ℕ → Register → Register × Result PostFault BlacklistRecord
post_blacklist me body event_id now s =
    let verified =
      verify_reporter_evidence_signature me.crypto me.json (evidence_of body now)
        body.reporter_public_key_pem body.reporter_signature in
    let r = post_record me body verified event_id now s in
    if not verified && not (is_manual_review body.reason_code)
    then (s, err reporter_signature_invalid_for_reason_code)
    else (append_blacklist_record r s, ok r)

-- `Math.max(0, (peerScore.get(peerId) ?? 100) - points)`
abbrev pub lower_score : Ident → ℕ → Register → Register
lower_score peer_id points s = record s {
  peer_score = insert peer_id (or_else (lookup peer_id s.peer_score) 100 - points) s.peer_score;
}

-- A `blacklist_update` of a peer once the schema has accepted its payload.
unfoldable pub ingest_blacklist_update :
    Identity → BlacklistRecord → Ident → Ident → ℕ → Register → Register × Option RecordFault
ingest_blacklist_update me r peer_id peer_key now s =
    elim (validate_incoming_blacklist_record me.crypto me.event_hash r peer_key) [
      | some fault ↦ (lower_score peer_id 10 s, some fault)
      | none ↦
          let (s', current) = active_blacklist_record r.agent_id now s in
          elim current [
            | none ↦ (append_blacklist_record r s', none)
            | some c ↦
                if leb c.timestamp_ms r.timestamp_ms
                then (append_blacklist_record r s', none)
                else (s', none)
          ]
    ]
