-- ===== src/Gateway/Socket.antt =====
-- The WebSocket endpoint of the tracker: services/tracking-gateway/internal/transport/http.
pub mod Protocol
pub mod Connection
pub mod Handler
pub mod Loop
pub mod Invariant
pub mod Owned
pub mod Answers
pub mod Answered
pub mod Live
pub mod Ack
