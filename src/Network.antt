-- ===== src/Network.antt =====
-- server/tcp_connection.cpp, server/tcp_server.cpp and server/replica_manager.cpp: the
-- connections of a replica with its peers and the clients.
pub mod Sockets
pub mod Handshake
pub mod Server
pub mod Events
pub mod Identify
pub mod Identified
pub mod Safety
pub mod Completions
pub mod Reached
pub mod Connecting
pub mod Broadcast
pub mod Sending
pub mod Stale
