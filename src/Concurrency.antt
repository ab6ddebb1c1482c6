-- ===== src/Concurrency.antt =====
-- The adaptive concurrency of helper/concurrency.py.
pub mod Lane
pub mod Room
pub mod Resources
pub mod Controller
pub mod Pool
mod Examples
