-- ===== src/Models.antt =====
-- core/models.py: the types that the subsystems share.
pub mod Node
pub mod Block
pub mod Request
pub mod Outcome
