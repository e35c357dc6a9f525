-- ===== src/Authz.antt =====
-- src/phera/authz: actors and their permissions, and what they may see.
pub mod Actor
pub mod Visibility
pub mod Rules
pub mod Header
mod Examples
