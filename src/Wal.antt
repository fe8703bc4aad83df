-- ===== src/Wal.antt =====
-- src/wal.rs: what the write-ahead log keeps on disk and in memory. The modules below take one type
-- each.
pub mod Platform
pub mod Fullness
pub mod Log
pub mod LogFacts
pub mod Config
pub mod ConfigFacts
pub mod BlockHeader
pub mod BlockFacts
pub mod BlockFixed
pub mod ManiEntry
pub mod ManiFacts
pub mod HeaderFix
pub mod Packing
pub mod Reading
pub mod Frames
pub mod Parsed
pub mod Refill
pub mod Drained
pub mod Blocks
pub mod Filling
pub mod Begun
pub mod PutLog
pub mod Placed
pub mod Flushed
pub mod Handled
pub mod ReadBack
pub mod Cuts
pub mod RoundTrip
pub mod RotNames
pub mod RotNameFacts
pub mod LogRing
pub mod LogRingFacts
pub mod Writer
pub mod WriterFacts
pub mod Reader
pub mod Chosen
pub mod Files
pub mod DataDisk
pub mod DataSink
pub mod Restore
pub mod FirstRun
pub mod Removal
pub mod Replay
pub mod Reopen
mod Machine
mod Tests
mod WriterTests
mod CallTests
