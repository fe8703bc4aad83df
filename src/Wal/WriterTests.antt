-- ===== src/Wal/WriterTests.antt =====
-- Runs of the writer and the reader of src/wal/sync.rs on a little-endian target.
use dbprimkit.Base.{◌+◌, suc, ◌≡◌, refl, List, [], ◌∷◌, none, some, length, replicate, true, arith}
use dbprimkit.Error.{ok, err, corrupt_file, ◌>>=◌}
use dbprimkit.Storage.{Name}
use dbprimkit.Wal.Machine.{machine}
use dbprimkit.Wal.Config.{TunableConfig, from_opt, default}
use dbprimkit.Wal.Packing.{LogEntry, FlushingControlBlock, pack, flush_idle}
use dbprimkit.Wal.Files.{Files}
use dbprimkit.Wal.RotNames.{gen_rot_name, parse_rot_name}
use dbprimkit.Wal.RotNameFacts.{parse_rot_name-gen_rot_name}
use dbprimkit.Wal.DataDisk.{stream_of}
use dbprimkit.Wal.DataSink.{data_sink}
use dbprimkit.Wal.Restore.{mani_prefix, data_prefix, open_writer, begin_task, new_wal_fields}
use dbprimkit.Wal.FirstRun.{first_fcb}
use dbprimkit.Wal.Cuts.{open_file}
use dbprimkit.Wal.Drained.{collect}
use dbprimkit.Wal.RoundTrip.{reading}
use dbprimkit.Wal.Replay.{replay}
use dbprimkit.Wal.Reopen.{new_wal_fields-begin_task}

abbrev app_name : Name
app_name = b'a' ∷ b'p' ∷ b'p' ∷ []

-- The first one is split over three blocks of 64 bytes.
abbrev two_entries : List LogEntry
two_entries =
    record { lsn = 1; payload = replicate 30 7 } ∷ record { lsn = 2; payload = 5 ∷ [] } ∷ []

abbrev small_config : TunableConfig
small_config = record {
  ringbuf_size_order = 3;
  max_data_rot_size = 100;
  max_log_entry_size = 1000;
  block_size = 64;
  bulk_flush_size = 128;
  checks_bef_flush_log = 5;
  checks_bef_flush_adv_lsn = 0;
}

abbrev small_fcb : FlushingControlBlock Files
small_fcb = first_fcb machine app_name small_config 0

parse_rot_name-gen_rot_name_example :
    parse_rot_name app_name (gen_rot_name app_name 41 3) ≡ some (3, 42)
parse_rot_name-gen_rot_name_example =
    parse_rot_name-gen_rot_name app_name 41 3 (omega arith) (omega arith)

new_wal_fields-begin_task_example :
    (fcb : FlushingControlBlock Files) × ((open_writer machine app_name (from_opt none) []
        >>= begin_task machine app_name (from_opt none))
      ≡ ok fcb)
    × (new_wal_fields machine app_name (from_opt none) fcb.app.disk
        ≡ err (corrupt_file "The data file is too small"))
unfolding from_opt default
new_wal_fields-begin_task_example = new_wal_fields-begin_task machine app_name none (omega arith)

replay_example :
    (fcb fcb' : FlushingControlBlock Files) × ((open_writer machine app_name (from_opt none) []
        >>= begin_task machine app_name (from_opt none))
      ≡ ok fcb)
    × ((pack machine
            (data_sink (data_prefix app_name) (mani_prefix app_name) machine)
            two_entries
            fcb
          >>= flush_idle machine
              (data_sink (data_prefix app_name) (mani_prefix app_name) machine)
              true)
        ≡ ok fcb')
    × (let written = stream_of (data_prefix app_name) fcb'.app.disk in
        collect machine open_file
          (suc (suc (length written + 2)))
          3
          (reading 1 ((from_opt none).block_size) (0 ∷ 1 ∷ []) written)
        ≡ ok two_entries)
unfolding from_opt default
replay_example =
    replay machine app_name none (0 ∷ 1 ∷ []) two_entries (omega arith)
      ((omega arith, omega arith, omega arith), ((omega arith, omega arith, omega arith), tt))
      (refl, (refl, tt)) (omega arith)
