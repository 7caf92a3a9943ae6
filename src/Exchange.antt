-- ===== src/Exchange.antt =====
-- `RevisionExchangeRepository` of storage/revision_exchange_repository.py.
pub mod Exec
pub mod Store
pub mod Paths
pub mod Messages
pub mod Authorizations
pub mod Once
pub mod Requests
pub mod Spent
pub mod Consumption
