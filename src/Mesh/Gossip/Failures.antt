-- ===== src/Mesh/Gossip/Failures.antt =====
-- src/mesh/gossip.ts: the failure counts and the peers over histories of calls.
use edgecoder.Prelude.{
  ℕ, ◌+◌, ◌≤◌, ◌≡◌, ◌⊎◌, inl, inr, refl, sym, ap, ◌∙◌, true, false, not, ◌&&◌, ◌||◌, Option, List,
  [], ◌∷◌, arith, leb, ◌==◌, if◌then◌else◌, Ident, filter, contains, has, Dict, insert, erase,
  lookup-insert, lookup-erase, Bool-cases,
}
use edgecoder.Mesh.Gossip.{
  MeshPeerIdentity, GossipMesh, Network, new_mesh, add_natted, remove_natted, set_mesh_token,
  add_peer, remove_peer, set_web_socket_for_peer, remove_web_socket_for_peer, has_web_socket,
  is_natted, list_peers, failures, record_failure, is_success, post, deliver, deliver_all,
  addressed, broadcast,
}

-- A peer failed at most once, or twice and is marked as behind a NAT.
abbrev pub FewFailures : GossipMesh → Type 0
FewFailures m = (id : Ident) → (failures id m ≤ 1) ⊎ ((failures id m ≡ 2) × (is_natted id m ≡ true))

pub contains-add_natted :
    (i j : Ident) (ids : List Ident) → contains i (add_natted j ids) ≡ (contains i ids || j == i)
contains-add_natted i j ids = ground arith

pub contains-remove_natted :
    (i j : Ident) (ids : List Ident)
    → contains i (remove_natted j ids) ≡ (contains i ids && not (j == i))
contains-remove_natted i j [] = ground arith
contains-remove_natted i j (k ∷ ids) = ground (arith, contains-remove_natted i j ids)

record_failure-FewFailures :
    (id : Ident) (m : GossipMesh)
    → FewFailures m
    → is_natted id m ≡ false
    → FewFailures (record_failure id m) × ((record_failure id m).peers ≡ m.peers)
unfolding record_failure
record_failure-FewFailures id m few direct = elim (few id) [
  | inl once ↦
      let early : leb 5 (failures id m + 1) ≡ false = ground arith in
      rw early (
        (λ i. ground (
          arith,
          few i,
          lookup-insert id i (failures id m + 1) m.failure_counts,
          contains-add_natted i id m.nat_peers,
        )),
        refl,
      )
  | inr twice ↦ cc
]

pub post-FewFailures :
    (net : Network) (id : Ident) (m : GossipMesh)
    → FewFailures m
    → FewFailures (post net id m).0 × ((post net id m).0.peers ≡ m.peers)
unfolding post
post-FewFailures net id m few = elim (Bool-cases (is_natted id m)) [
  | inl n ↦ rw n (few, refl)
  | inr n ↦ elim (Bool-cases (is_success (net.ingest id))) [
    | inl s ↦ rw (n, s) ((λ i. ground (arith, few i, lookup-erase id i m.failure_counts)), refl)
    | inr s ↦ rw (n, s) (record_failure-FewFailures id m few n)
  ]
]

pub deliver-FewFailures :
    (net : Network) (id : Ident) (m : GossipMesh)
    → FewFailures m
    → FewFailures (deliver net id m).0 × ((deliver net id m).0.peers ≡ m.peers)
unfolding deliver
deliver-FewFailures net id m few =
    let p = post-FewFailures net id m few in
    elim (Bool-cases (has_web_socket id m && net.sends id)) [
      | inl w ↦ rw w (few, refl)
      | inr w ↦ elim (Bool-cases (post net id m).1) [ inl d ↦ rw (w, d) p | inr d ↦ rw (w, d) p ]
    ]

deliver_all-FewFailures :
    (net : Network) (ps : List MeshPeerIdentity) (m : GossipMesh)
    → FewFailures m
    → FewFailures (deliver_all net ps m).0 × ((deliver_all net ps m).0.peers ≡ m.peers)
unfolding deliver_all
deliver_all-FewFailures net [] m few = (few, refl)
deliver_all-FewFailures net (p ∷ ps) m few =
    let (few', kept) = deliver-FewFailures net p.peer_id m few in
    let (few'', kept') = deliver_all-FewFailures net ps (deliver net p.peer_id m).0 few' in
    elim (Bool-cases (deliver net p.peer_id m).1) [
      | inl d ↦ rw d (few'', kept' ∙ kept)
      | inr d ↦ rw d (few'', kept' ∙ kept)
    ]

-- The calls of a mesh. A socket changes its state by itself; a broadcast has ended before the next
-- call.
pub data Call : Type 0 where
  sets_token : Ident → Call
  adds_peer : MeshPeerIdentity → Call
  removes_peer : Ident → Call
  sets_socket : Ident → ℕ → Call
  removes_socket : Ident → Call
  socket_changes : Ident → ℕ → Call
  broadcasts : Network → Option Ident → Call

unfoldable pub step : Call → GossipMesh → GossipMesh
step (sets_token token) m = set_mesh_token token m
step (adds_peer p) m = add_peer p m
step (removes_peer id) m = remove_peer id m
step (sets_socket id ready_state) m = set_web_socket_for_peer id ready_state m
step (removes_socket id) m = remove_web_socket_for_peer id m
step (socket_changes id ready_state) m =
    if has id m.ws_peers then record m { ws_peers = insert id ready_state m.ws_peers } else m
step (broadcasts net exclude) m = (broadcast net exclude m).0

unfoldable pub run : List Call → GossipMesh → GossipMesh
run [] m = m
run (c ∷ cs) m = run cs (step c m)

-- What the additions and removals of a history leave of the peers.
unfoldable pub membership : List Call → Dict MeshPeerIdentity → Dict MeshPeerIdentity
membership [] d = d
membership (adds_peer p ∷ cs) d = membership cs (insert p.peer_id p d)
membership (removes_peer id ∷ cs) d = membership cs (erase id d)
membership (sets_token token ∷ cs) d = membership cs d
membership (sets_socket id ready_state ∷ cs) d = membership cs d
membership (removes_socket id ∷ cs) d = membership cs d
membership (socket_changes id ready_state ∷ cs) d = membership cs d
membership (broadcasts net exclude ∷ cs) d = membership cs d

forget-FewFailures :
    (id : Ident) (m m' : GossipMesh)
    → m'.failure_counts ≡ erase id m.failure_counts
    → m'.nat_peers ≡ remove_natted id m.nat_peers
    → FewFailures m
    → FewFailures m'
forget-FewFailures id m m' e f few i =
    rw (e, f)
      (ground
        (arith, few i, lookup-erase id i m.failure_counts, contains-remove_natted i id m.nat_peers))

step-FewFailures :
    (c : Call) (m : GossipMesh)
    → FewFailures m
    → FewFailures (step c m) × ((step c m).peers ≡ membership (c ∷ []) m.peers)
unfolding step membership set_mesh_token add_peer remove_peer set_web_socket_for_peer
    remove_web_socket_for_peer broadcast
step-FewFailures (sets_token token) m few = (few, refl)
step-FewFailures (adds_peer p) m few = (few, refl)
step-FewFailures (removes_peer id) m few =
    (forget-FewFailures id m (remove_peer id m) refl refl few, refl)
step-FewFailures (sets_socket id ready_state) m few =
    (forget-FewFailures id m (set_web_socket_for_peer id ready_state m) refl refl few, refl)
step-FewFailures (removes_socket id) m few = (few, refl)
step-FewFailures (socket_changes id ready_state) m few = elim (Bool-cases (has id m.ws_peers)) [
  | inl e ↦ rw e (few, refl)
  | inr e ↦ rw e (few, refl)
]
step-FewFailures (broadcasts net exclude) m few =
    deliver_all-FewFailures net (filter (addressed exclude) (list_peers m)) m few

membership-step :
    (c : Call) (cs : List Call) (d : Dict MeshPeerIdentity)
    → membership (c ∷ cs) d ≡ membership cs (membership (c ∷ []) d)
unfolding membership
membership-step (sets_token token) cs d = refl
membership-step (adds_peer p) cs d = refl
membership-step (removes_peer id) cs d = refl
membership-step (sets_socket id ready_state) cs d = refl
membership-step (removes_socket id) cs d = refl
membership-step (socket_changes id ready_state) cs d = refl
membership-step (broadcasts net exclude) cs d = refl

pub run-FewFailures :
    (cs : List Call) (m : GossipMesh)
    → FewFailures m
    → FewFailures (run cs m) × ((run cs m).peers ≡ membership cs m.peers)
unfolding run membership
run-FewFailures [] m few = (few, refl)
run-FewFailures (c ∷ cs) m few =
    let (few', one) = step-FewFailures c m few in
    let (few'', rest) = run-FewFailures cs (step c m) few' in
    (few'', rest ∙ ap (membership cs) one ∙ sym (membership-step c cs m.peers))

pub new_mesh-FewFailures : FewFailures new_mesh
new_mesh-FewFailures id = inl (omega arith)

-- Over any history of calls, each broadcast of which ends before the next call, no peer is ever
-- evicted: the peers are what the additions and removals of the history leave.
pub peers_kept : (cs : List Call) → (run cs new_mesh).peers ≡ membership cs []
peers_kept cs = (run-FewFailures cs new_mesh new_mesh-FewFailures).1

-- Over such a history a peer has at most two failures in a row, and one with two is marked.
pub failures_bounded :
    (cs : List Call) (id : Ident)
    → (failures id (run cs new_mesh) ≤ 1)
      ⊎ ((failures id (run cs new_mesh) ≡ 2) × (is_natted id (run cs new_mesh) ≡ true))
failures_bounded cs id = (run-FewFailures cs new_mesh new_mesh-FewFailures).0 id
