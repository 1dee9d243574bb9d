-- ===== src/Mesh/Gossip/Tests.antt =====
-- Runs of src/mesh/gossip.ts, and its theorems at concrete histories.
use edgecoder.Prelude.{
  ◌+◌, ◌≡◌, ◌⊎◌, ◌≤◌, refl, true, false, none, some, List, [], ◌∷◌, ◌==◌, if◌then◌else◌, Ident,
  length, filter,
}
use edgecoder.Mesh.Gossip.{
  MeshPeerIdentity, NetworkMode, Network, new_mesh, add_peer, failures, is_natted, broadcast,
  list_peers, addressed, record_failure, evict_or_reset, deliver, deliver_all, post, relay_via,
  set_web_socket_for_peer,
}
use edgecoder.Mesh.Gossip.Failures.{
  Call, adds_peer, sets_socket, broadcasts, run, step, membership, peers_kept, failures_bounded,
}
use edgecoder.Mesh.Gossip.Deliveries.{is_reachable, broadcast_counts}

abbrev peer : Ident → MeshPeerIdentity
peer id = record {
  peer_id = id;
  public_key_pem = 1;
  coordinator_url = id;
  network_mode = NetworkMode.public_mesh;
}

-- Every request fails, but for one to relay through peer 2.
abbrev broken : Network
broken = record {
  sends = λ id. true;
  ingest = λ id. some 503;
  relay_gossip = λ target via. if via == 2 then some 200 else none;
}

abbrev silent : Network
silent = record { sends = λ id. false; ingest = λ id. none; relay_gossip = λ target via. none }

abbrev history : List Call
history =
    adds_peer (peer 7)
    ∷ broadcasts silent none
    ∷ broadcasts silent none
    ∷ broadcasts silent none
    ∷ broadcasts silent none
    ∷ broadcasts silent none
    ∷ broadcasts silent none
    ∷ []

-- Six broadcasts fail, and the peer is marked but stays.
marked : (failures 7 (run history new_mesh) ≡ 2) × (is_natted 7 (run history new_mesh) ≡ true)
unfolding run step add_peer broadcast deliver_all deliver post record_failure evict_or_reset
    relay_via
marked = (refl, refl)

-- Five failures of broadcasts that overlap evict it.
evicted :
    (record_failure 7 (
      record_failure 7 (
        record_failure 7 (record_failure 7 (record_failure 7 (add_peer (peer 7) new_mesh)))))).peers
    ≡ []
unfolding record_failure evict_or_reset add_peer
evicted = refl

peers_kept_example : (run history new_mesh).peers ≡ membership history []
peers_kept_example = peers_kept history

failures_bounded_example :
    (failures 7 (run history new_mesh) ≤ 1)
    ⊎ ((failures 7 (run history new_mesh) ≡ 2) × (is_natted 7 (run history new_mesh) ≡ true))
failures_bounded_example = failures_bounded history 7

abbrev connected : List Call
connected = adds_peer (peer 7) ∷ adds_peer (peer 2) ∷ sets_socket 2 1 ∷ adds_peer (peer 9) ∷ []

broadcast_counts_example :
    let m = run connected new_mesh in
    let ps = filter (addressed (some 9)) (list_peers m) in
    ((broadcast broken (some 9) m).1 ≡ length (filter (is_reachable broken m) ps))
    × ((broadcast broken (some 9) m).1 + (broadcast broken (some 9) m).2 ≡ length ps)
broadcast_counts_example = broadcast_counts connected broken (some 9)

delivered_to_both : (broadcast broken (some 9) (run connected new_mesh)).1 ≡ 2
unfolding run step add_peer set_web_socket_for_peer broadcast deliver_all deliver post
    record_failure evict_or_reset relay_via
delivered_to_both = refl
