-- ===== src/Tests.antt =====
-- Concrete runs of the definitions, at the numbers of `Milli`, and applications of the theorems.
mod Data
mod Detection
mod Cycle
mod Gateway
mod Socket
mod Query
mod Fast
mod Intake
mod Route
pub mod Links
pub mod Account
mod Access
