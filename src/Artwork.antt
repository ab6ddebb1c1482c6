-- ===== src/Artwork.antt =====
-- The guard of modules/utils.py that decides whether artwork may be written, and whether a new image
-- replaces the one in place.
pub mod Ownership
pub mod Guard
mod Examples
