-- ===== src/Storage.antt =====
-- internal/storage: the command log, its records, segments and recovery, and the engine interface.
pub mod Crc
pub mod Record
pub mod Segment
pub mod Disk
pub mod Log
pub mod Stream
pub mod Scan
pub mod Recovery
pub mod Engine
pub mod Version
mod Tests
