-- ===== src/Spaces.antt =====
-- internal/spaces: spaces and who belongs to them.
mod Tables
pub mod Service
pub mod Owners
pub mod Outcomes
pub mod Invariant
pub mod Keeps
pub mod Requests
pub mod Removal
mod Examples
unfoldable pub use Tables.*
