-- ===== src/Kverr.antt =====
-- internal/kverr: the error type of the node.
pub mod Kind
pub mod Reason
pub mod Error
pub mod Registry
pub mod Chain
mod Tests
