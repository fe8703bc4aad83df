-- ===== src/Wal/Files.antt =====
-- src/wal/sync.rs: the files of a log, `remove_no_use_rots`, and how `FlushingControlBlock` writes them.
use dbprimkit.Base.{
  ℕ, ◌-◌, ◌^◌, List, [], ◌∷◌, Bool, true, false, none, some, ltb, leb, ◌&&◌, if◌then◌else◌,
}
use dbprimkit.Error.{Outcome, ok, panic, ◌>>=◌}
use dbprimkit.Storage.{Name, Disk, remove_file}
use dbprimkit.Appender
use dbprimkit.Appender.{RotAppender, list_rot_names, app_needs_new_rot}
use dbprimkit.Wal.Platform.{Platform}
use dbprimkit.Wal.ManiEntry
use dbprimkit.Wal.RotNames.{data_rnp, default_rnp, parse_rot_name}

-- The files, the two appenders, the shared counters of the control block, and the fields of
-- `FlushingControlBlock` that only the flushing reads or changes.
pub record Files : Type 0 where
  pub disk : Disk
  pub mani_app : RotAppender
  pub data_app : RotAppender
  pub flush_lsn : ℕ
  pub min_lsn : ℕ
  pub max_lsn : ℕ
  pub next_no_use_lsn : ℕ
  pub log_check_cnt : ℕ
  pub adv_lsn_check_cnt : ℕ

module _ (data_prefix : Name) where
  -- The loop of `remove_no_use_rots` behind the name `prev`.
  unfoldable pub remove_before : (min_lsn : ℕ) (prev : Name) → List Name → Disk → Outcome (ℕ × Disk)
  remove_before min_lsn prev [] disk = ok (2 ^ 64 - 1, disk)
  remove_before min_lsn prev (name ∷ names) disk = elim (parse_rot_name data_prefix name) [
    | none ↦ panic
    | some (_, lsn) ↦ elim (leb lsn min_lsn) [
      | true ↦ remove_file prev disk >>= remove_before min_lsn name names
      | false ↦ ok (lsn, disk)
    ]
  ]

  -- The rotations whose entries are all below `min_lsn` go. The result is the LSN from which the next
  -- one can go.
  unfoldable pub remove_no_use_rots : (min_lsn : ℕ) → Disk → Outcome (ℕ × Disk)
  unfolding remove_before list_rot_names data_rnp
  remove_no_use_rots min_lsn disk = elim (list_rot_names (data_rnp data_prefix 0) disk) [
    | [] ↦ ok (2 ^ 64 - 1, disk)
    | name ∷ names ↦ remove_before min_lsn name names disk
  ]

  module _ (mani_prefix : Name) (p : Platform) where
    -- `last_min_lsn` becomes `min_lsn`.
    unfoldable pub flush_mani_entry : (min_lsn : ℕ) → Files → Outcome Files
    flush_mani_entry min_lsn files = do
      (_, app, disk) ←
          Appender.append (default_rnp mani_prefix) (ManiEntry.encode p [] min_lsn) true
            files.mani_app files.disk
      ok (record files { mani_app = app; disk = disk; adv_lsn_check_cnt = 0 })

    -- The result is the new `last_min_lsn` and the files.
    unfoldable pub flush_data_blocks :
        (rotatable : Bool) (last_min_lsn last_filled_lsn max_flushed_lsn : ℕ)
        → List ℕ
        → Files
        → Outcome (ℕ × Files)
    unfolding flush_mani_entry remove_no_use_rots app_needs_new_rot
    flush_data_blocks rotatable last_min_lsn last_filled_lsn max_flushed_lsn data_buf files = do
      let files = record files { flush_lsn = last_filled_lsn }
      let min_lsn = files.min_lsn
      let renew = app_needs_new_rot files.data_app && ltb last_min_lsn min_lsn
      files ← (if renew then flush_mani_entry min_lsn files else ok files)
      (new_rot, app, disk) ←
          Appender.append (data_rnp data_prefix files.flush_lsn) data_buf rotatable files.data_app
            files.disk
      let files = record files { data_app = app; disk = disk }
      files ←
          (if new_rot
            then (do
              (next, disk) ← remove_no_use_rots min_lsn disk
              ok (record files { next_no_use_lsn = next; disk = disk }))
            else ok files)
      ok (
        if renew then min_lsn else last_min_lsn,
        record files {
          max_lsn = if rotatable then max_flushed_lsn else files.max_lsn;
          log_check_cnt = 0;
          adv_lsn_check_cnt = 0;
        },
      )

    -- What an idle task does about `min_lsn`; the result also says whether it did something.
    unfoldable pub flush_min_lsn :
        (checks_bef_flush_adv_lsn last_min_lsn : ℕ) → Files → Outcome (Bool × ℕ × Files)
    unfolding flush_mani_entry remove_no_use_rots
    flush_min_lsn checks_bef_flush_adv_lsn last_min_lsn files =
        let min_lsn = files.min_lsn in
        if ltb last_min_lsn min_lsn
        then (do
          (did, last_min_lsn, files) ←
              (if leb files.next_no_use_lsn min_lsn
                then (do
                  files ← flush_mani_entry min_lsn files
                  (next, disk) ← remove_no_use_rots min_lsn files.disk
                  ok (true, min_lsn, record files { next_no_use_lsn = next; disk = disk }))
                else ok (false, last_min_lsn, files))
          if leb checks_bef_flush_adv_lsn files.adv_lsn_check_cnt
              then (do files ← flush_mani_entry min_lsn files; ok (true, min_lsn, files))
              else ok (did, last_min_lsn, files))
        else ok (false, last_min_lsn, files)
