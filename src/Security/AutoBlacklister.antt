-- ===== src/Security/AutoBlacklister.antt =====
-- src/security/auto-blacklister.ts: the class `AutoBlacklister`. The clock is an argument, SHA-256 of
-- the JSON text of the evidence is a parameter, and the callback `onBlacklist` gets just the action
-- that the call returns.
pub mod Strikes
pub mod Actions
pub mod Primary
mod Tests
use edgecoder.Prelude.{
  ℕ, ◌+◌, ◌*◌, Bool, true, false, Option, none, some, List, [], ◌∷◌, ◌++◌, map, ltb, leb, ◌==◌,
  if◌then◌else◌, Ident, or_else, length, filter, find, Dict, lookup, insert, erase,
}
use edgecoder.Security.Behavior.{SecurityLevel, info, warn, high, critical, BlacklistReasonCode}
use edgecoder.Security.AnomalyDetector.{AnomalyEvent, RuleId, Figures}
use edgecoder.Security.AnomalyDetector.Verdicts.{is_critical}

pub record Strike : Type 0 where
  pub timestamp_ms : ℕ
  pub anomaly_event : AnomalyEvent

-- The reason is a text made of the rules and of what the primary event describes.
pub record BlacklistAction : Type 0 where
  pub agent_id : Ident
  pub reason_code : BlacklistReasonCode
  pub reason_rules : List RuleId
  pub reason_figures : Figures
  pub evidence_hash : Ident
  pub anomaly_events : List AnomalyEvent

pub record AutoBlacklister : Type 0 where
  pub strike_window_ms : ℕ
  pub strike_threshold : ℕ
  pub strikes : Dict (List Strike)

abbrev default_strike_window_ms : ℕ
default_strike_window_ms = 60 * 60 * 1000

abbrev pub default_strike_threshold : ℕ
default_strike_threshold = 3

unfoldable pub init : Option ℕ → Option ℕ → AutoBlacklister
init window threshold = record {
  strike_window_ms = or_else window default_strike_window_ms;
  strike_threshold = or_else threshold default_strike_threshold;
  strikes = [];
}

-- The place of a level in `severityOrder`.
abbrev pub rank : SecurityLevel → ℕ
rank critical = 0
rank high = 1
rank warn = 2
rank info = 3

-- The stable sort of the events by rank, as an insertion sort.
pub insert_event : AnomalyEvent → List AnomalyEvent → List AnomalyEvent
insert_event event [] = event ∷ []
insert_event event (x ∷ xs) =
    let rest = insert_event event xs in
    if leb (rank event.severity) (rank x.severity) then event ∷ x ∷ xs else x ∷ rest

pub by_severity : List AnomalyEvent → List AnomalyEvent
by_severity [] = []
by_severity (event ∷ events) = insert_event event (by_severity events)

-- `sorted[0]`
abbrev pub first : List AnomalyEvent → Option AnomalyEvent
first [] = none
first (event ∷ events) = some event

-- `now - window <= t`
abbrev pub is_recent : ℕ → ℕ → Strike → Bool
is_recent window now strike = leb now (strike.timestamp_ms + window)

-- The strikes of the agent that are not too old.
abbrev pub recent_strikes : Ident → ℕ → AutoBlacklister → List Strike
recent_strikes agent_id now b =
    filter (is_recent b.strike_window_ms now) (or_else (lookup agent_id b.strikes) [])

pub get_strike_count : Ident → ℕ → AutoBlacklister → ℕ
get_strike_count agent_id now b = elim (lookup agent_id b.strikes) [
  | none ↦ 0
  | some strikes ↦ length (filter (is_recent b.strike_window_ms now) strikes)
]

abbrev pub strike_at : ℕ → AnomalyEvent → Strike
strike_at now event = record { timestamp_ms = now; anomaly_event = event }

abbrev pub event_of : Strike → AnomalyEvent
event_of strike = strike.anomaly_event

module _ (sha256_json : List AnomalyEvent → Ident) where
  -- There is no primary event only where there is no event at all, and then the code throws.
  unfoldable pub build_blacklist_action : Ident → List AnomalyEvent → Option BlacklistAction
  build_blacklist_action agent_id anomalies = elim (first (by_severity anomalies)) [
    | none ↦ none
    | some primary ↦ some (record {
      agent_id = agent_id;
      reason_code = primary.blacklist_reason;
      reason_rules = map (λ (a : AnomalyEvent). a.rule_id) anomalies;
      reason_figures = primary.figures;
      evidence_hash = sha256_json anomalies;
      anomaly_events = anomalies;
    })
  ]

  -- The strikes that are added to a nonempty list without a critical event.
  unfoldable pub add_strikes :
      Ident → List AnomalyEvent → ℕ → AutoBlacklister → AutoBlacklister × Option BlacklistAction
  add_strikes agent_id anomalies now b =
      let agent_strikes = recent_strikes agent_id now b ++ map (strike_at now) anomalies in
      let kept = insert agent_id agent_strikes b.strikes in
      if leb b.strike_threshold (length agent_strikes)
      then (
        record b { strikes = erase agent_id kept },
        build_blacklist_action agent_id (map event_of agent_strikes),
      )
      else (record b { strikes = kept }, none)

  unfoldable pub process_anomalies :
      Ident → List AnomalyEvent → ℕ → AutoBlacklister → AutoBlacklister × Option BlacklistAction
  process_anomalies agent_id anomalies now b =
      if length anomalies == 0 then (b, none) else elim (find is_critical anomalies) [
        | some event ↦ (b, build_blacklist_action agent_id anomalies)
        | none ↦ add_strikes agent_id anomalies now b
      ]
