-- ===== src/Mesh/Gossip.antt =====
-- src/mesh/gossip.ts: the class `GossipMesh`. A WebSocket is its `readyState`, which the socket
-- changes by itself. What sockets and requests answer is a parameter of a broadcast, and the
-- deliveries of a broadcast are taken one after the other.
pub mod Failures
pub mod Deliveries
mod Tests
use edgecoder.Prelude.{
  ℕ, ◌+◌, Bool, true, false, not, ◌&&◌, ◌||◌, Option, none, some, List, [], ◌∷◌, ltb, leb, ◌==◌,
  if◌then◌else◌, Ident, or_else, filter, contains, truthy, same, Dict, lookup, insert, erase,
  values,
}

pub data NetworkMode : Type 0 where
  public_mesh enterprise_overlay : NetworkMode

pub record MeshPeerIdentity : Type 0 where
  pub peer_id : Ident
  pub public_key_pem : Ident
  pub coordinator_url : Ident
  pub network_mode : NetworkMode

abbrev pub max_consecutive_failures : ℕ
max_consecutive_failures = 5

abbrev pub nat_detection_threshold : ℕ
nat_detection_threshold = 2

pub record GossipMesh : Type 0 where
  pub peers : Dict MeshPeerIdentity
  pub ws_peers : Dict ℕ
  pub mesh_token : Option Ident
  pub failure_counts : Dict ℕ
  pub nat_peers : List Ident

abbrev pub new_mesh : GossipMesh
new_mesh = record {
  peers = [];
  ws_peers = [];
  mesh_token = none;
  failure_counts = [];
  nat_peers = [];
}

-- `natPeers.add(id)`, `natPeers.delete(id)`
abbrev pub add_natted : Ident → List Ident → List Ident
add_natted id ids = if contains id ids then ids else id ∷ ids

abbrev pub remove_natted : Ident → List Ident → List Ident
remove_natted id ids = filter (λ j. not (j == id)) ids

unfoldable pub set_mesh_token : Ident → GossipMesh → GossipMesh
set_mesh_token token m = record m { mesh_token = some token }

unfoldable pub add_peer : MeshPeerIdentity → GossipMesh → GossipMesh
add_peer peer m = record m { peers = insert peer.peer_id peer m.peers }

unfoldable pub remove_peer : Ident → GossipMesh → GossipMesh
remove_peer id m = record m {
  peers = erase id m.peers;
  failure_counts = erase id m.failure_counts;
  nat_peers = remove_natted id m.nat_peers;
}

unfoldable pub set_web_socket_for_peer : Ident → ℕ → GossipMesh → GossipMesh
set_web_socket_for_peer id ready_state m = record m {
  ws_peers = insert id ready_state m.ws_peers;
  nat_peers = remove_natted id m.nat_peers;
  failure_counts = erase id m.failure_counts;
}

unfoldable pub remove_web_socket_for_peer : Ident → GossipMesh → GossipMesh
remove_web_socket_for_peer id m = record m { ws_peers = erase id m.ws_peers }

-- `ws && ws.readyState === 1`
abbrev pub is_open : Option ℕ → Bool
is_open none = false
is_open (some ready_state) = ready_state == 1

abbrev pub has_web_socket : Ident → GossipMesh → Bool
has_web_socket id m = is_open (lookup id m.ws_peers)

abbrev pub is_natted : Ident → GossipMesh → Bool
is_natted id m = contains id m.nat_peers

abbrev pub list_peers : GossipMesh → List MeshPeerIdentity
list_peers m = values m.peers

abbrev pub open_ids : Dict ℕ → List Ident
open_ids [] = []
open_ids ((id, ready_state) ∷ rest) =
    let others = open_ids rest in if ready_state == 1 then id ∷ others else others

abbrev pub get_ws_connected_peer_ids : GossipMesh → List Ident
get_ws_connected_peer_ids m = open_ids m.ws_peers

abbrev pub failures : Ident → GossipMesh → ℕ
failures id m = or_else (lookup id m.failure_counts) 0

unfoldable pub evict_or_reset : Ident → GossipMesh → GossipMesh
evict_or_reset id m =
    if has_web_socket id m
    then record m { failure_counts = insert id 0 m.failure_counts }
    else record m {
      peers = erase id m.peers;
      failure_counts = erase id m.failure_counts;
      nat_peers = remove_natted id m.nat_peers;
    }

unfoldable pub record_failure : Ident → GossipMesh → GossipMesh
record_failure id m =
    let count = failures id m + 1 in
    let m' = record m {
      failure_counts = insert id count m.failure_counts;
      nat_peers =
          if leb nat_detection_threshold count && not (is_natted id m)
          then add_natted id m.nat_peers
          else m.nat_peers;
    } in
    if leb max_consecutive_failures count then evict_or_reset id m' else m'

-- What the outside answers: whether `send` throws nothing, and the status of a request to a peer or
-- of a relay request for a peer through another, `none` where it throws.
pub record Network : Type 0 where
  pub sends : Ident → Bool
  pub ingest : Ident → Option ℕ
  pub relay_gossip : Ident → Ident → Option ℕ

-- `res.statusCode >= 200 && res.statusCode < 300`
abbrev pub is_success : Option ℕ → Bool
is_success none = false
is_success (some code) = leb 200 code && ltb code 300

-- The loop over the sockets of `relayViaConnectedPeer`.
unfoldable pub relay_via : Network → GossipMesh → Ident → Dict ℕ → Bool
relay_via net m target [] = false
relay_via net m target ((id, ready_state) ∷ rest) =
    let next = relay_via net m target rest in
    if id == target || not (ready_state == 1) then next else elim (lookup id m.peers) [
      | none ↦ next
      | some connected ↦ if is_success (net.relay_gossip target id) then true else next
    ]

abbrev pub relay_via_connected_peer : Network → GossipMesh → Ident → Bool
relay_via_connected_peer net m target = relay_via net m target m.ws_peers

-- The direct request to a peer: whether it was delivered.
unfoldable pub post : Network → Ident → GossipMesh → GossipMesh × Bool
post net id m =
    if is_natted id m
    then (m, false)
    else if is_success (net.ingest id)
    then (record m { failure_counts = erase id m.failure_counts }, true)
    else (record_failure id m, false)

-- The delivery to one peer.
unfoldable pub deliver : Network → Ident → GossipMesh → GossipMesh × Bool
deliver net id m =
    let (m', posted) = post net id m in
    if has_web_socket id m && net.sends id
    then (m, true)
    else if posted
    then (m', true)
    else (m', relay_via_connected_peer net m' id)

unfoldable pub deliver_all : Network → List MeshPeerIdentity → GossipMesh → GossipMesh × ℕ × ℕ
deliver_all net [] m = (m, 0, 0)
deliver_all net (p ∷ ps) m =
    let (m', delivered) = deliver net p.peer_id m in
    let (last, successes, failed) = deliver_all net ps m' in
    if delivered then (last, successes + 1, failed) else (last, successes, failed + 1)

-- `!excludePeerId || p.peerId !== excludePeerId`
abbrev pub addressed : Option Ident → MeshPeerIdentity → Bool
addressed exclude p = not (truthy exclude) || not (same (some p.peer_id) exclude)

-- The mesh afterwards, how many deliveries succeeded, and how many failed.
unfoldable pub broadcast : Network → Option Ident → GossipMesh → GossipMesh × ℕ × ℕ
broadcast net exclude m = deliver_all net (filter (addressed exclude) (list_peers m)) m
