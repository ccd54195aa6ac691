-- ===== src/Lib.antt =====
-- vsr-kv is a key-value store that is replicated by viewstamped replication. This library models
-- the server (the messages and their bytes, the state of a replica, its handlers, the queue in
-- front of them, the framing of messages on a connection, and the connections with the peers) and
-- the client program with its connections.
--
-- The parts and their files:
-- - Common: numbers, lists, maps (std::map as a list of keys in order) and sets, with the lemmas
--   and the automation that the parts share.
-- - Wire: bytes, and the object representation of trivially copyable types (little-endian).
-- - Utilities: src/common/utilities.hpp and utilities.cpp, the 128-bit numbers and the nonces.
-- - Message: src/common/vsr_message.hpp, vsr_message.cpp and checksum.cpp. Message/Layout is the
--   packed header, Message/Checksum the truncated digest, Message/Codec serialize and deserialize.
-- - Serialization: src/server/serialization.hpp and serialization.cpp, with the payloads of
--   view_change_messages.cpp and recovery_messages.cpp.
-- - Protocol: src/server/protocol_handler.cpp, the buffer of a connection and its messages.
-- - ReplicaState: src/server/replica_state.hpp.
-- - Replica: src/server/replica.hpp and replica.cpp. The record Replica holds the members of the
--   class; what a handler sends is recorded in order in the field sent. Replica/Execute is
--   execute_commited_ops, Replica/Commit the primary's commit number, Replica/Normal ping,
--   request, prepare and commit, Replica/ViewChange and Replica/Recovery the other two protocols,
--   and Replica/Queue process_message_queue, which calls the handlers.
--   Replica/Events is the life of a replica as a relation: its start, the arrival of a message,
--   the task that works on the queue, and the two timers. Replica/Invariant is what holds in all
--   of its states.
-- - Cluster: all replicas together, as functions from their ids, and the messages between them.
--   A message that a replica has sent, by any of the three calls, may arrive at any replica, at any
--   time, any number of times or never; clients send any requests and pings. The replicas stay in
--   view 0: the liveness check finds no silent primary, and a queue task after which the replica
--   recovers is not a step. Cluster/History says what a state and a message mean for the log of
--   the primary, Cluster/Leader and Cluster/Follower follow the handlers, and Cluster/Replay is
--   the single server that the replicas are compared with.
-- - Network: src/common/tcp_connection.cpp, src/server/tcp_server.cpp and replica_manager.cpp.
--   Network/Sockets is the data, with the connections as objects that the maps share,
--   Network/Handshake the text that identifies a peer, Network/Server the operations of the two
--   classes, Network/Sending the messages that protocol_handler.cpp sends through them, and
--   Network/Events the start and the event loop, which completes what has been posted
--   or submitted in any order and with any result.
-- - TcpClient: src/common/tcp_client.cpp, the connection of the client to one replica, as a relation
--   on the same pattern.
-- - Client: src/client/client_main.cpp, the commands of the user, the failover between the replicas
--   and the reading of replies.
-- - IoUringLoop: src/common/io_uring_loop.cpp, the queue of posted tasks, and in IoUringLoop/Ring
--   the requests that are submitted and the loop that answers them.
-- - ServerMain: src/server/server_main.cpp, the entry point of the server.
-- - Tests: concrete states and runs.
--
-- A handler takes the replica and the message and returns the replica; the clocks and
-- the value of an uninitialised member are read from a record Env, once for an event.
-- The queue calls can_process for the message in front and then the handler, as the source does;
-- the handlers call each other as functions.
--
-- Loops run on fuel that is computed from the state. execute_commited_ops has the distance from
-- the last executed operation to the commit number, since each round executes one operation;
-- advance_primary_commit_number has the length of the log, since each round passes another entry;
-- read_log_from_buffer counts the entries that the log names; process_message_queue has one
-- pass more than the queue is long, since a further pass follows only on one that took a message;
-- handle_raw_data has one round for each byte of the buffer, since a message takes at least one.
-- handle_start_view acknowledges with one round for each operation number up to that of the
-- message; the source does the same, but does not end for the number 2 ^ 64 - 1.
--
-- Words keep their wrap-around: an increment of a 64-bit counter is taken modulo 2 ^ 64, of a
-- view modulo 2 ^ 32, and a replica's id is cut to a byte where it goes into a header. Ids are
-- natural numbers; the source's get_primary_id_for_view returns -1 for an empty cluster, which is
-- none here.
--
-- The number of the objects of TcpConnection, and of what is pending in an event loop, has no
-- bound; what socket, accept, connect, read and write return is chosen by a step. A reference to a
-- peer is the peer's id, and a null or dangling reference that is followed, or an exception that
-- leaves the event loop, is the result none.
--
-- Not under src/ and so a parameter: BLAKE3, a function from bytes to 32 bytes. Not modelled:
-- liburing and the kernel: in the relations of the connections, what has been submitted completes
-- once, with any result, or never, where the ring had no entry for it; the opening of the listening socket and its
-- options; the destructor of TcpConnection; and the messages to the console, but for the outcome
-- of a command of the client. The two threads of the client are the calls of send between the
-- callbacks of the event loop.
pub mod Common
pub mod Wire
pub mod Utilities
pub mod Message
pub mod Serialization
pub mod Protocol
pub mod ReplicaState
pub mod Replica
pub mod TcpClient
pub mod Client
pub mod Network
pub mod Cluster
pub mod ServerMain
pub mod IoUringLoop
pub mod Tests
