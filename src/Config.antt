-- ===== src/Config.antt =====
-- internal/config: the configuration of a node and its validation.
pub mod Types
pub mod Defaults
pub mod Checks
pub mod Rules
pub mod Secure
pub mod Reports
pub mod Announce
pub mod Loading
mod Tests
