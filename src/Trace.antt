-- ===== src/Trace.antt =====
-- packages/trace/src: the events of a session, how they are written into chunks and read back.
pub mod Types
pub mod Decoder
pub mod Texts
pub mod Act
pub mod Dictionary
pub mod Values
pub mod Session
pub mod Sync
pub mod Strings
pub mod PlayerTable
pub mod Defines
pub mod Reads
pub mod ValueBack
pub mod Prepare
pub mod EventBack
pub mod ChunkBack
pub mod Recorded
pub mod Emits
pub mod Scopes
pub mod Schemas
pub mod Sessions
mod Tests
pub mod BitSets
pub mod CustomField
pub mod CustomBits
pub mod CustomBack
pub mod CustomEvents
