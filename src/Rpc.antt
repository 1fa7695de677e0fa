-- ===== src/Rpc.antt =====
-- Remote calls: the messages, the server that answers them, the client that makes them, and what a
-- client sees of the operations behind the server.
pub mod Answers
pub mod Server
pub mod Client
pub mod Observed
pub mod Requests
pub mod Delivered
pub mod Streamed
pub mod Transparent
