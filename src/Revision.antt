-- ===== src/Revision.antt =====
-- common/models/revision.py: the revision contract that every layer shares.
pub mod Layers
pub mod Identity
pub mod Request
pub mod Result
pub mod Control
pub mod External
pub mod Create
