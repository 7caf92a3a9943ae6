-- ===== src/Examples.antt =====
-- Concrete values, tests of the definitions, and the theorems at inputs that meet their hypotheses.
pub mod Samples
mod Requests
mod Budgets
mod Races
pub mod Producing
pub mod Revising
mod Recovering
mod Splitting
mod Storage
mod Retries
mod Searches
