-- ===== src/Peer.antt =====
-- The peer: the calls of the tracker that peer/peer.cpp, peer/peerserver.cpp and
-- peer/peerdownload.cpp make, and what the tracker understands of them.
pub mod Client
pub mod Agreement
pub mod Answers
pub mod Menu
pub mod Pieces
pub mod Choice
pub mod Files
pub mod Server
pub mod Download
mod Tests
