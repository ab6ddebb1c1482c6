-- ===== src/Cleanup.antt =====
-- The durable side of cleanup: absent items, their confirmation, and the quarantine of artwork.
pub mod Candidates
pub mod Disk
pub mod Quarantine
pub mod Assets
mod Examples
