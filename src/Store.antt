-- ===== src/Store.antt =====
-- The worker's Postgres repositories as operations on tables:
-- services/tracking-worker/internal/storage/postgres.
pub mod Tables
pub mod Read
pub mod Apply
pub mod Keys
pub mod Effects
pub mod Repository
pub mod Progress
