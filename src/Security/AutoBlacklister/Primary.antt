-- ===== src/Security/AutoBlacklister/Primary.antt =====
-- src/security/auto-blacklister.ts: the event that a blacklist action is based on.
use edgecoder.Prelude.{
  ◌≤◌, ◌≡◌, ◌⊎◌, inl, inr, refl, some, some-injective, List, [], ◌∷◌, Ident, In, here, there,
  In-cons, arith, Bool-cases, Option-cases, leb, All, leb→le, All-In, is_some, true, subst,
}
use edgecoder.Security.AnomalyDetector.{AnomalyEvent}
use edgecoder.Security.AutoBlacklister.{
  BlacklistAction, rank, insert_event, by_severity, first, build_blacklist_action,
}

-- The events of a list, in order of rank.
abbrev pub Leads : AnomalyEvent → List AnomalyEvent → Type 0
Leads event = All (λ (x : AnomalyEvent). rank event.severity ≤ rank x.severity)

abbrev IsSorted : List AnomalyEvent → Type 0
IsSorted [] = Unit
IsSorted (event ∷ events) = Leads event events × IsSorted events

Leads-insert_event :
    (x event : AnomalyEvent) (events : List AnomalyEvent)
    → rank x.severity ≤ rank event.severity
    → Leads x events
    → Leads x (insert_event event events)
unfolding insert_event
Leads-insert_event x event [] le h = (le, tt)
Leads-insert_event x event (y ∷ events) le h =
    ground (arith, Leads-insert_event x event events le h.1)

Leads-le :
    (event x : AnomalyEvent) (events : List AnomalyEvent)
    → rank event.severity ≤ rank x.severity
    → Leads x events
    → Leads event events
Leads-le event x [] le h = tt
Leads-le event x (y ∷ events) le h = (omega (arith, h.0), Leads-le event x events le h.1)

insert_event-IsSorted :
    (event : AnomalyEvent) (events : List AnomalyEvent)
    → IsSorted events
    → IsSorted (insert_event event events)
unfolding insert_event
insert_event-IsSorted event [] h = (tt, tt)
insert_event-IsSorted event (x ∷ events) h =
    elim (Bool-cases (leb (rank event.severity) (rank x.severity))) [
      | inl e ↦
          let le = leb→le (rank event.severity) (rank x.severity) e in
          rw e ((le, Leads-le event x events le h.0), h)
      | inr e ↦ rw e (
        Leads-insert_event x event events (ground arith) h.0,
        insert_event-IsSorted event events h.1,
      )
    ]

by_severity-IsSorted : (events : List AnomalyEvent) → IsSorted (by_severity events)
unfolding by_severity
by_severity-IsSorted [] = tt
by_severity-IsSorted (event ∷ events) =
    insert_event-IsSorted event (by_severity events) (by_severity-IsSorted events)

In-insert_event :
    (a event : AnomalyEvent) (events : List AnomalyEvent)
    → In a (insert_event event events)
    → (a ≡ event) ⊎ In a events
unfolding insert_event
In-insert_event a event [] m = In-cons m
In-insert_event a event (x ∷ events) m =
    elim (Bool-cases (leb (rank event.severity) (rank x.severity))) [
      | inl e ↦ In-cons (rw e at m)
      | inr e ↦ elim (In-cons (rw e at m)) [
        | inl same ↦ inr (rw same here)
        | inr n ↦ elim (In-insert_event a event events n) [ inl q ↦ inl q | inr k ↦ inr (there k) ]
      ]
    ]

insert_event-In :
    (a event : AnomalyEvent) (events : List AnomalyEvent)
    → (a ≡ event) ⊎ In a events
    → In a (insert_event event events)
unfolding insert_event
insert_event-In a event [] (inl same) = rw same here
insert_event-In a event [] (inr m) = elim m [ ]
insert_event-In a event (x ∷ events) h =
    elim (Bool-cases (leb (rank event.severity) (rank x.severity))) [
      | inl e ↦ elim h [ inl same ↦ rw (e, same) here | inr m ↦ rw e (there m) ]
      | inr e ↦ elim h [
        | inl same ↦ rw e (there (insert_event-In a event events (inl same)))
        | inr m ↦ elim (In-cons m) [
          | inl same ↦ rw (e, same) here
          | inr n ↦ rw e (there (insert_event-In a event events (inr n)))
        ]
      ]
    ]

In-by_severity :
    (a : AnomalyEvent) (events : List AnomalyEvent) → In a (by_severity events) → In a events
unfolding by_severity
In-by_severity a [] m = elim m [ ]
In-by_severity a (event ∷ events) m = elim (In-insert_event a event (by_severity events) m) [
  | inl same ↦ rw same here
  | inr n ↦ there (In-by_severity a events n)
]

by_severity-In :
    (a : AnomalyEvent) (events : List AnomalyEvent) → In a events → In a (by_severity events)
unfolding by_severity
by_severity-In a [] m = elim m [ ]
by_severity-In a (event ∷ events) m = elim (In-cons m) [
  | inl same ↦ insert_event-In a event (by_severity events) (inl same)
  | inr n ↦ insert_event-In a event (by_severity events) (inr (by_severity-In a events n))
]

Leads-of_In :
    (p : AnomalyEvent) (sorted events : List AnomalyEvent)
    → Leads p sorted
    → ((x : AnomalyEvent) → In x events → In x sorted)
    → Leads p events
Leads-of_In p sorted [] h within = tt
Leads-of_In p sorted (x ∷ events) h within = (
  All-In (λ (y : AnomalyEvent). rank p.severity ≤ rank y.severity) h (within x here),
  Leads-of_In p sorted events h (λ y m. within y (there m)),
)

first-Leads :
    (p : AnomalyEvent) (sorted : List AnomalyEvent)
    → IsSorted sorted
    → first sorted ≡ some p
    → In p sorted × Leads p sorted
first-Leads p [] h e = cc
first-Leads p (x ∷ sorted) h e =
    let q : x ≡ p = some-injective x p e in
    subst (λ a. In a (x ∷ sorted) × Leads a (x ∷ sorted)) q (here, (omega arith, h.0))

module _ (sha256_json : List AnomalyEvent → Ident) where
  pub build-primary :
      (agent_id : Ident) (anomalies : List AnomalyEvent) (action : BlacklistAction)
      → build_blacklist_action sha256_json agent_id anomalies ≡ some action
      → (p : AnomalyEvent) × In p anomalies
        × Leads p anomalies
        × (action.reason_code ≡ p.blacklist_reason)
        × (action.anomaly_events ≡ anomalies)
  unfolding build_blacklist_action
  build-primary agent_id anomalies action e = elim (Option-cases (first (by_severity anomalies))) [
    | inl n ↦ cc
    | inr (p, f) ↦
        let sorted = by_severity anomalies in
        let (m, h) = first-Leads p sorted (by_severity-IsSorted anomalies) f in
        (
          p,
          In-by_severity p anomalies m,
          Leads-of_In p sorted anomalies h (λ x i. by_severity-In x anomalies i),
          ground arith,
          ground arith,
        )
  ]

  first-insert_event :
      (event : AnomalyEvent) (events : List AnomalyEvent)
      → is_some (first (insert_event event events)) ≡ true
  unfolding insert_event
  first-insert_event event [] = refl
  first-insert_event event (x ∷ events) = ground arith

  pub build-is_some :
      (agent_id : Ident) (event : AnomalyEvent) (anomalies : List AnomalyEvent)
      → is_some (build_blacklist_action sha256_json agent_id (event ∷ anomalies)) ≡ true
  unfolding build_blacklist_action by_severity
  build-is_some agent_id event anomalies =
      elim (Option-cases (first (insert_event event (by_severity anomalies)))) [
        | inl n ↦ let h = first-insert_event event (by_severity anomalies) in cc
        | inr (p, f) ↦ rw (is_some, f) refl
      ]
