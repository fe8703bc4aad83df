-- ===== src/Wal/WriterFacts.antt =====
-- `advance_lsn` of src/wal/sync.rs and the entries that it gives up.
