-- ===== src/Mesh.antt =====
-- src/mesh: messages between peers, and the links they run over.
pub mod Reconnection
pub mod Protocol
pub mod Chunks
pub mod Gossip
