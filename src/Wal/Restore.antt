-- ===== src/Wal/Restore.antt =====
-- src/wal/sync.rs: what a writer or a reader restores from the files, and how a writer begins.
use dbprimkit.Base.{
  ℕ, ◌+◌, ◌-◌, ◌*◌, ◌/◌, ◌%◌, List, [], ◌∷◌, ◌++◌, not, ◌&&◌, Option, none, some, length, take,
  drop, max, ltb, ◌==◌, if◌then◌else◌,
}
use dbprimkit.Error.{Outcome, ok, err, corrupt_file, io_error, unexpected_eof, misc_error, ◌>>=◌}
use dbprimkit.Storage.{Name, Disk, contents, file_size}
use dbprimkit.Appender.{
  RotNameProvider, DefaultRotator, restore_latest_rot_info, with_rot_name_resolver, open_appender,
}
use dbprimkit.Wal.Platform.{Platform}
use dbprimkit.Wal.ManiEntry
use dbprimkit.Wal.ManiEntry.{mani_entry_size}
use dbprimkit.Wal.BlockHeader
use dbprimkit.Wal.BlockHeader.{block_head_size}
use dbprimkit.Wal.Config.{TunableConfig}
use dbprimkit.Wal.RotNames.{data_rnp, default_rnp}
use dbprimkit.Wal.Packing.{FlushingControlBlock}
use dbprimkit.Wal.Files.{Files, remove_no_use_rots, flush_mani_entry}

-- `format!("{}_walmani.", name)` and `format!("{}_waldata_", name)`.
abbrev pub mani_prefix : Name → Name
mani_prefix name = name ++ (b'_' ∷ b'w' ∷ b'a' ∷ b'l' ∷ b'm' ∷ b'a' ∷ b'n' ∷ b'i' ∷ b'.' ∷ [])

abbrev pub data_prefix : Name → Name
data_prefix name = name ++ (b'_' ∷ b'w' ∷ b'a' ∷ b'l' ∷ b'd' ∷ b'a' ∷ b't' ∷ b'a' ∷ b'_' ∷ [])

-- `read_exact` of so many bytes at an offset.
abbrev pub read_exact : (offset n : ℕ) → List ℕ → Outcome (List ℕ)
read_exact offset n bytes =
    if ltb (length bytes) (offset + n)
    then err (io_error unexpected_eof)
    else ok (take n (drop offset bytes))

-- `open_read_rot` on the latest rotation: its bytes and its size.
unfoldable pub restore_latest_rot : RotNameProvider → Disk → Outcome (Option (List ℕ × ℕ))
restore_latest_rot rnp disk = do
  info ← restore_latest_rot_info rnp disk
  elim info [
    | none ↦ ok none
    | some (_, rot_name) ↦ do
      size ← file_size rot_name disk
      ok (some (elim (contents rot_name disk) [ none ↦ [] | some bs ↦ bs ], size))
  ]

module _ (p : Platform) where
  unfoldable pub read_latest_manifest_entry : List ℕ → (file_size : ℕ) → Outcome ℕ
  read_latest_manifest_entry bytes file_size =
      if ltb file_size mani_entry_size
      then err (corrupt_file "The manifest file is too small")
      else (do
        let offset = (file_size / mani_entry_size - 1) * mani_entry_size
        buf ← read_exact offset mani_entry_size bytes
        (entry, _) ← ManiEntry.decode p buf
        ok entry.min_lsn)

  unfoldable pub restore_lsn_from_data : List ℕ → (file_size block_size : ℕ) → Outcome (ℕ × ℕ)
  restore_lsn_from_data bytes file_size block_size =
      if ltb file_size block_size
      then err (corrupt_file "The data file is too small")
      else if not (file_size % block_size == 0)
      then err (corrupt_file "File size is not multiple of block size")
      else (do
        buf ← read_exact (file_size - block_size) block_head_size bytes
        (header, _) ← BlockHeader.decode p buf
        ok (header.whole_min_lsn, header.max_lsn))

  -- The LSNs of the first entry that is kept and of the last one; the test of the size of the data file
  -- is that of the source, which looks at the manifest file.
  unfoldable pub restore_lsn : (name : Name) (block_size : ℕ) → Disk → Outcome (ℕ × ℕ)
  unfolding restore_latest_rot read_latest_manifest_entry restore_lsn_from_data
  restore_lsn name block_size disk = do
    latest_mani ← restore_latest_rot (default_rnp (mani_prefix name)) disk
    elim latest_mani [
      | none ↦ ok (0, 0)
      | some (bytes, file_size) ↦ do
        min_lsn ← (if file_size == 0 then ok 0 else read_latest_manifest_entry bytes file_size)
        latest_data ← restore_latest_rot (data_rnp (data_prefix name) 0) disk
        elim latest_data [
          | none ↦ err (misc_error "Missing data rotations")
          | some (data_bytes, data_file_size) ↦ do
            (min_lsn_from_data, max_lsn) ←
                (if file_size == 0
                  then ok (0, 0)
                  else restore_lsn_from_data data_bytes data_file_size block_size)
            let min_lsn = max min_lsn min_lsn_from_data
            ok (if (min_lsn == 0) && ltb 0 max_lsn then 1 else min_lsn, max_lsn)
        ]
    ]

  -- `new_wal_fields`: the two rotators, and the LSNs.
  unfoldable pub new_wal_fields :
      (name : Name) → TunableConfig → Disk → Outcome (DefaultRotator × DefaultRotator × ℕ × ℕ)
  unfolding restore_lsn
  new_wal_fields name config disk = do
    mani_rotator ← with_rot_name_resolver (default_rnp (mani_prefix name)) 2 (64 * 1024) disk
    data_rotator ←
        with_rot_name_resolver (data_rnp (data_prefix name) 0) 0 config.max_data_rot_size disk
    (min_lsn, max_lsn) ← restore_lsn name config.block_size disk
    ok (mani_rotator, data_rotator, min_lsn, max_lsn)

  -- `WalWriter::new`, up to the thread that it starts.
  unfoldable pub open_writer : (name : Name) → TunableConfig → Disk → Outcome Files
  unfolding new_wal_fields
  open_writer name config disk = do
    (mani_rotator, data_rotator, min_lsn, max_lsn) ← new_wal_fields name config disk
    (mani_app, disk) ← open_appender (default_rnp (mani_prefix name)) mani_rotator disk
    (data_app, disk) ← open_appender (data_rnp (data_prefix name) 0) data_rotator disk
    ok (record {
      disk = disk;
      mani_app = mani_app;
      data_app = data_app;
      flush_lsn = 0;
      min_lsn = min_lsn;
      max_lsn = max_lsn;
      next_no_use_lsn = 0;
      log_check_cnt = 0;
      adv_lsn_check_cnt = 0;
    })

  -- How `flushing_task_inner` begins.
  unfoldable pub begin_task :
      (name : Name) → TunableConfig → Files → Outcome (FlushingControlBlock Files)
  begin_task name config files = do
    let min_lsn = files.min_lsn
    (next_no_use_lsn, disk) ← remove_no_use_rots (data_prefix name) min_lsn files.disk
    let files = record files { next_no_use_lsn = next_no_use_lsn; disk = disk }
    files ←
        (if min_lsn == 0
          then flush_mani_entry (data_prefix name) (mani_prefix name) p min_lsn files
          else ok files)
    ok (record {
      app = files;
      data_buf = [];
      last_min_lsn = min_lsn;
      max_flushed_lsn = files.max_lsn;
      last_filled_lsn = 0;
      block_size = config.block_size;
      block_mask = config.block_size - 1;
      buf_size = config.bulk_flush_size;
    })
