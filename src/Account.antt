-- ===== src/Account.antt =====
-- Users, their tokens and their devices, of the tracking gateway.
pub mod Tables
pub mod Users
pub mod Tokens
pub mod Devices
pub mod Auth
pub mod Rows
pub mod Statements
pub mod Upsert
pub mod Registration
pub mod Kept
pub mod Login
pub mod Spent
pub mod Rotation
pub mod Http
pub mod Access
