-- ===== src/Mesh/Gossip/Deliveries.antt =====
-- src/mesh/gossip.ts: whom a broadcast reaches.
use edgecoder.Prelude.{
  ℕ, ◌+◌, ◌≡◌, ◌≢◌, inl, inr, refl, sym, ap, ◌∙◌, Bool, true, not, ◌&&◌, ◌||◌, Option, none, List,
  [], ◌∷◌, arith, ◌==◌, Ident, filter, length, values, All, DistinctBy, Dict, DistinctKeys, Entries,
  insert-DistinctKeys, Entries-insert, Entries-erase, erase-DistinctKeys, All-filter, lookup,
  insert, erase, Bool-cases, Option-cases,
}
use edgecoder.Mesh.Gossip.{
  MeshPeerIdentity, GossipMesh, Network, new_mesh, has_web_socket, is_natted, list_peers,
  add_natted, record_failure, evict_or_reset, is_success, relay_via, relay_via_connected_peer, post,
  deliver, deliver_all, addressed, broadcast,
}
use edgecoder.Mesh.Gossip.Failures.{
  FewFailures, contains-add_natted, contains-remove_natted, post-FewFailures, deliver-FewFailures,
  Call, adds_peer, removes_peer, sets_token, sets_socket, removes_socket, socket_changes,
  broadcasts, run, membership, run-FewFailures, new_mesh-FewFailures,
}

-- A peer that a broadcast reaches: over its open socket, by a request unless it is marked, or
-- through another peer.
abbrev pub is_reachable : Network → GossipMesh → MeshPeerIdentity → Bool
is_reachable net m p =
    has_web_socket p.peer_id m && net.sends p.peer_id
    || (not (is_natted p.peer_id m) && is_success (net.ingest p.peer_id)
        || relay_via_connected_peer net m p.peer_id)

-- The same peers and sockets, and the same marks but for one peer.
abbrev Similar : Ident → GossipMesh → GossipMesh → Type 0
Similar id m m' =
    (m'.peers ≡ m.peers)
    × (m'.ws_peers ≡ m.ws_peers)
    × ((j : Ident) → id ≢ j → is_natted j m' ≡ is_natted j m)

record_failure-marks :
    (id j : Ident) (m : GossipMesh) → id ≢ j → is_natted j (record_failure id m) ≡ is_natted j m
unfolding record_failure evict_or_reset
record_failure-marks id j m h = ground (
  arith,
  contains-add_natted j id m.nat_peers,
  contains-remove_natted j id m.nat_peers,
  contains-remove_natted j id (add_natted id m.nat_peers),
)

record_failure-sockets : (id : Ident) (m : GossipMesh) → (record_failure id m).ws_peers ≡ m.ws_peers
unfolding record_failure evict_or_reset
record_failure-sockets id m = ground arith

post-Similar :
    (net : Network) (id : Ident) (m : GossipMesh) → FewFailures m → Similar id m (post net id m).0
unfolding post
post-Similar net id m few =
    let kept = (post-FewFailures net id m few).1 in
    elim (Bool-cases (is_natted id m)) [
      | inl n ↦ rw n (refl, refl, λ j h. refl)
      | inr n ↦ elim (Bool-cases (is_success (net.ingest id))) [
        | inl s ↦ rw (n, s) (refl, refl, λ j h. refl)
        | inr s ↦
            let k : (record_failure id m).peers ≡ m.peers = rw (n, s) at kept in
            rw (n, s) (k, record_failure-sockets id m, λ j h. record_failure-marks id j m h)
      ]
    ]

relay_via-peers :
    (net : Network) (m m' : GossipMesh) (target : Ident) (d : Dict ℕ)
    → m'.peers ≡ m.peers
    → relay_via net m' target d ≡ relay_via net m target d
unfolding relay_via
relay_via-peers net m m' target [] h = refl
relay_via-peers net m m' target ((id, r) ∷ d) h =
    let next = relay_via-peers net m m' target d h in
    elim (Bool-cases (id == target || not (r == 1))) [
      | inl e ↦ rw e next
      | inr e ↦ elim (Option-cases (lookup id m.peers)) [
        | inl n ↦ rw (e, h, n) next
        | inr (c, n) ↦ elim (Bool-cases (is_success (net.relay_gossip target id))) [
          | inl s ↦ rw (e, h, n, s) refl
          | inr s ↦ rw (e, h, n, s) next
        ]
      ]
    ]

relay-Similar :
    (net : Network) (id target : Ident) (m m' : GossipMesh)
    → Similar id m m'
    → relay_via_connected_peer net m' target ≡ relay_via_connected_peer net m target
relay-Similar net id target m m' s =
    ap (relay_via net m' target) s.1 ∙ relay_via-peers net m m' target m.ws_peers s.0

post-success :
    (net : Network) (id : Ident) (m : GossipMesh)
    → (post net id m).1 ≡ (not (is_natted id m) && is_success (net.ingest id))
unfolding post
post-success net id m = elim (Bool-cases (is_natted id m)) [
  | inl n ↦ rw n refl
  | inr n ↦ elim (Bool-cases (is_success (net.ingest id))) [
    | inl s ↦ rw (n, s) refl
    | inr s ↦ rw (n, s) refl
  ]
]

deliver_lem :
    (net : Network) (p : MeshPeerIdentity) (m : GossipMesh)
    → FewFailures m
    → ((deliver net p.peer_id m).1 ≡ is_reachable net m p)
      × Similar p.peer_id m (deliver net p.peer_id m).0
unfolding deliver
deliver_lem net p m few =
    let id = p.peer_id in
    let near = post-Similar net id m few in
    let relayed = relay-Similar net id id m (post net id m).0 near in
    let posted = post-success net id m in
    elim (Bool-cases (has_web_socket id m && net.sends id)) [
      | inl w ↦ rw w (refl, (refl, refl, λ j h. refl))
      | inr w ↦ elim (Bool-cases (post net id m).1) [
        | inl d ↦ rw (w, d, sym posted ∙ d) (refl, near)
        | inr d ↦ rw (w, d, sym posted ∙ d) (relayed, near)
      ]
    ]

reachable-Similar :
    (net : Network) (id : Ident) (p : MeshPeerIdentity) (m m' : GossipMesh)
    → id ≢ p.peer_id
    → Similar id m m'
    → is_reachable net m' p ≡ is_reachable net m p
reachable-Similar net id p m m' h s =
    rw (relay-Similar net id p.peer_id m m' s, s.2 p.peer_id h, s.1) refl

abbrev count : (MeshPeerIdentity → Bool) → List MeshPeerIdentity → ℕ
count p ps = length (filter p ps)

count-ext :
    (p q : MeshPeerIdentity → Bool) (ps : List MeshPeerIdentity)
    → All (λ x. p x ≡ q x) ps
    → count p ps ≡ count q ps
count-ext p q [] h = refl
count-ext p q (x ∷ ps) h = ground (arith, h.0, count-ext p q ps h.1)

All-reachable :
    (net : Network) (id : Ident) (m m' : GossipMesh) (ps : List MeshPeerIdentity)
    → All (λ p. id ≢ p.peer_id) ps
    → Similar id m m'
    → All (λ p. is_reachable net m' p ≡ is_reachable net m p) ps
All-reachable net id m m' [] h s = tt
All-reachable net id m m' (p ∷ ps) h s =
    (reachable-Similar net id p m m' h.0 s, All-reachable net id m m' ps h.1 s)

deliver_all_lem :
    (net : Network) (ps : List MeshPeerIdentity) (m : GossipMesh)
    → FewFailures m
    → DistinctBy (λ (p : MeshPeerIdentity). p.peer_id) ps
    → ((deliver_all net ps m).1 ≡ count (is_reachable net m) ps)
      × ((deliver_all net ps m).1 + (deliver_all net ps m).2 ≡ length ps)
unfolding deliver_all
deliver_all_lem net [] m few distinct = (refl, refl)
deliver_all_lem net (p ∷ ps) m few distinct =
    let m' = (deliver net p.peer_id m).0 in
    let (said, near) = deliver_lem net p m few in
    let (hits, total) =
      deliver_all_lem net ps m' (deliver-FewFailures net p.peer_id m few).0 distinct.1 in
    let same =
      count-ext (is_reachable net m') (is_reachable net m) ps
        (All-reachable net p.peer_id m m' ps distinct.0 near) in
    elim (Bool-cases (deliver net p.peer_id m).1) [
      | inl d ↦ rw (d, sym said ∙ d) (omega (arith, hits, same), omega (arith, total))
      | inr d ↦ rw (d, sym said ∙ d) (omega (arith, hits, same), omega (arith, total))
    ]

-- Each key is the identifier of its peer.
abbrev IsKeyed : Dict MeshPeerIdentity → Type 0
IsKeyed d = DistinctKeys d × Entries (λ id p. id ≡ p.peer_id) d

membership-IsKeyed :
    (cs : List Call) (d : Dict MeshPeerIdentity) → IsKeyed d → IsKeyed (membership cs d)
unfolding membership
membership-IsKeyed [] d h = h
membership-IsKeyed (adds_peer p ∷ cs) d h = membership-IsKeyed cs (insert p.peer_id p d) (
  insert-DistinctKeys p.peer_id p d h.0,
  Entries-insert (λ id (p : MeshPeerIdentity). id ≡ p.peer_id) p.peer_id p d h.1 refl,
)
membership-IsKeyed (removes_peer id ∷ cs) d h = membership-IsKeyed cs (erase id d) (
  erase-DistinctKeys id d h.0,
  Entries-erase (λ id (p : MeshPeerIdentity). id ≡ p.peer_id) id d h.1,
)
membership-IsKeyed (sets_token token ∷ cs) d h = membership-IsKeyed cs d h
membership-IsKeyed (sets_socket id ready_state ∷ cs) d h = membership-IsKeyed cs d h
membership-IsKeyed (removes_socket id ∷ cs) d h = membership-IsKeyed cs d h
membership-IsKeyed (socket_changes id ready_state ∷ cs) d h = membership-IsKeyed cs d h
membership-IsKeyed (broadcasts net exclude ∷ cs) d h = membership-IsKeyed cs d h

values-apart :
    (id : Ident) (d : Dict MeshPeerIdentity)
    → lookup id d ≡ none
    → Entries (λ k p. k ≡ p.peer_id) d
    → All (λ p. id ≢ p.peer_id) (values d)
values-apart id [] h keyed = tt
values-apart id ((k, p) ∷ d) h keyed = elim (Bool-cases (k == id)) [
  | inl e ↦ let no = rw e at h in cc
  | inr e ↦ (
    λ s. let same : (k == id) ≡ true = ground (arith, keyed.0) in cc,
    values-apart id d (rw e at h) keyed.1,
  )
]

values-DistinctBy :
    (d : Dict MeshPeerIdentity)
    → IsKeyed d
    → DistinctBy (λ (p : MeshPeerIdentity). p.peer_id) (values d)
values-DistinctBy [] h = tt
values-DistinctBy ((k, p) ∷ d) h =
    (rw (← h.1.0) (values-apart k d h.0.0 h.1.1), values-DistinctBy d (h.0.1, h.1.1))

DistinctBy-filter :
    (q : MeshPeerIdentity → Bool) (ps : List MeshPeerIdentity)
    → DistinctBy (λ (p : MeshPeerIdentity). p.peer_id) ps
    → DistinctBy (λ (p : MeshPeerIdentity). p.peer_id) (filter q ps)
DistinctBy-filter q [] h = tt
DistinctBy-filter q (p ∷ ps) h = ground (
  arith,
  DistinctBy-filter q ps h.1,
  All-filter (λ (x : MeshPeerIdentity). p.peer_id ≢ x.peer_id) q ps h.0,
)

-- After any history of calls, each broadcast of which ended before the next call, a broadcast
-- counts as delivered exactly the addressed peers that it reaches: over an open socket, by a
-- request unless the peer is marked, or through another peer; it counts all others as failed.
pub broadcast_counts :
    (cs : List Call) (net : Network) (exclude : Option Ident)
    → let m = run cs new_mesh in
      let ps = filter (addressed exclude) (list_peers m) in
      ((broadcast net exclude m).1 ≡ length (filter (is_reachable net m) ps))
      × ((broadcast net exclude m).1 + (broadcast net exclude m).2 ≡ length ps)
unfolding broadcast
broadcast_counts cs net exclude =
    let m = run cs new_mesh in
    let (few, kept) = run-FewFailures cs new_mesh new_mesh-FewFailures in
    let keyed : IsKeyed m.peers = rw kept (membership-IsKeyed cs [] (tt, tt)) in
    deliver_all_lem net (filter (addressed exclude) (list_peers m)) m few
      (DistinctBy-filter (addressed exclude) (list_peers m) (values-DistinctBy m.peers keyed))
