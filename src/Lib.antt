-- ===== src/Lib.antt =====
-- dbprimkit: simple implementations of database primitives. All paths below are those of the
-- repository.
--
-- Error.antt      src/lib.rs: `Error`, and `Result` with a panic (or undefined behaviour) as a value
-- RingBuffer.antt src/ringbuffer.rs: the cells, `new`, `push_for_sp`, `pop_for_sc`, `len`, `capa`, and
--                 `push` and `pop` as the sequence of their atomic accesses (`step` on `Pc`)
--   Threads       any number of threads that call `push` and `pop`, in any interleaving
--   Index, Cells, Accesses, Claims, Stores, Wins, Invariant
--                 the invariant of that system and its proof, an access at a time
--   Safety        what holds under every interleaving
--   OneSlot       what goes wrong with a ring of one cell
--   Queue, Alone, Lone, Drain
--                 the calls that nothing disturbs, against a bounded queue; `Drop`
-- Wal.antt        src/wal.rs
--   Platform      what the records take from the target and from the crates bytes and crc32c: the
--                 byte order, the buffers' reads and writes, and the check sum
--   Fullness, Log, BlockHeader, ManiEntry
--                 `Fullness`, `DiskLogEntry`, `DiskBlockHeader` (with `fix_block_headers` of
--                 src/wal/sync.rs) and `DiskManiEntry`: `encode` and `decode`
--   LogFacts, BlockFacts, BlockFixed, ManiFacts
--                 what is decoded after it was encoded, and that decoding never panics
--   Config, ConfigFacts
--                 `TunableConfig`: `from_opt`, `sanitize`, the default
--   Packing       src/wal/sync.rs: the loop of `flushing_task_inner` that packs entries into blocks
--                 (`begin_block`, `put_log`, `flush_full`), over any `Sink` of flushed blocks
--   RotNames, Files, Restore
--                 the names of rotations; the flushes of `FlushingControlBlock` and
--                 `remove_no_use_rots`; `new_wal_fields` with `restore_lsn`, and `WalWriter::new`
--   Reading       `LogIterator`: `read_next` and `next`
--   LogRing       `LogRingBuffer` of src/wal.rs; LogRingFacts compares it with src/ringbuffer.rs
--   Writer        `ControlBlock`, and the calls `append`, `advance_lsn` and `stop` of a writer;
--                 WriterFacts is about `advance_lsn`
--   Reader        `WalReader`: `get_log_iter`, `get_min_lsn`, `get_max_lsn`; Chosen is about the
--                 rotation that it starts from
--   Removal       which rotations `remove_no_use_rots` removes
--   RotNameFacts, DataDisk, DataSink
--                 the files of a log as a `Sink`, whose stream is what all data rotations hold
--   Frames, Filling, Begun, PutLog, Placed, Flushed, Handled
--                 what the packing loop does to the blocks, a round and then an entry at a time
--   Parsed, Refill, Drained, Blocks, ReadBack
--                 what the reader makes of whole blocks
--   Cuts          the bytes of a log, cut into files of whole blocks
--   RoundTrip, FirstRun, Replay, Reopen
--                 writing and then reading, for any sink, and for the files of a new log
-- Storage.antt    src/io.rs: a directory with its files; names as lists of byte numbers
-- Appender.antt   src/appender/sync.rs: `DefaultRotator` and `RotAppender`
--   Bounded       how many rotations `append` leaves
-- SkipList.antt   src/skiplist/map/ordinary.rs: nodes on a heap, and links between them
--   Search        `search`, `get_key_value`, `get`, `contains_key`, `is_empty`
--   Update        `search_ext`, `insert`, `remove_entry`
--   Iter          `iter` with its `next`, and `clear`
--   Model         the list of entries that a map stands for
--   Find, Reads   what search and the calls above it find
--   Prec, Places  what search_ext finds, and the links that it records
--   Linked, Splice, Round, Linking
--                 the rounds of `link_nodes`, a link at a time
--   Inserted, InPlace, Insert, Replace, History
--                 what a map stands for after `insert`, and after many
-- SpinLock.antt   src/sync/spinlock.rs: the lock and its callers; a thread that calls while it has a guard
--                 is two callers
--   Exclusion     what holds in every interleaving
--   Trying        the loop of `try_lock`
-- Base.antt       shared names, lists over the native numbers, Boolean tests, powers of two
--
-- Numbers. `usize` and `u64` are native numbers with wrap-around written out, as a release build
-- computes on a 64-bit target (a debug build panics instead). Theorems about the ring buffer ask that
-- the number of accesses and the size stay within 2^63, so that the counters do not wrap.
--
-- Fuel. The walk along one level of a skip list gets one access more than the heap has places, so
-- that it visits every node and then sees the end; a panic also stands for too little fuel. A panic
-- stands for undefined behaviour too: following a null pointer or one to a node that was dropped.
--
-- The loop `while !handled` gets two rounds for each byte of the payload and three more: a round puts a
-- byte of it into a block, or fills the block up with zeros, and no two of the latter follow one another.
-- Reading the rotations gets two rounds more than they have bytes and ends together.
--
-- Files. A write reaches its file at once, and no call of the operating system on an open file fails.
-- The stream of a log is what its data rotations hold, in the order of their creation. All loads of
-- `cb.min_lsn` in the flushing task read the one field `min_lsn` of `Files`, which no other thread changes
-- while entries are packed; `advance_lsn` is modelled apart, by what its loads see.
--
-- Chance. `gen_height` takes the number that the generator draws as an argument.
--
-- Not modelled: the configuration file of a log, the thread and the back-off of the flushing task, the
-- sets, the lock-free skip list, and the asynchronous variants, which do the same on another runtime.
--
-- Memory. Atomic accesses are taken as sequentially consistent, one step each.
pub mod Base
pub mod Error
pub mod RingBuffer
pub mod Wal
pub mod SkipList
pub mod SpinLock
pub mod Storage
pub mod Appender
