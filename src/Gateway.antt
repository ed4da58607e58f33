-- ===== src/Gateway.antt =====
-- The tracking gateway: services/tracking-gateway/internal.
pub mod Event
pub mod Ingest
pub mod Accounting
pub mod Ledger
pub mod Seen
pub mod Since
pub mod Once
pub mod Leaves
pub mod Socket
pub mod Query
