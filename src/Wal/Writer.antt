-- ===== src/Wal/Writer.antt =====
-- src/wal/sync.rs: the calls of `WalWriter`, and `ControlBlock` of src/wal.rs, which they share with the
-- flushing task. `append` and `stop` have one access each but for the loop of `push`; of
-- `advance_lsn` the accesses are told apart.
use dbprimkit.Base.{ℕ, ◌+◌, ◌%◌, ◌^◌, List, Bool, false, not, length, ltb, if◌then◌else◌}
use dbprimkit.Error.{Outcome, ok, err, function_not_running, log_entry_too_large, invalid_argument}
use dbprimkit.Wal.Config.{TunableConfig}
use dbprimkit.Wal.LogRing.{LogRingBuffer, LogPc, load_tail, new_log_ring}

pub record ControlBlock : Type 0 where
  pub running : Bool
  pub min_lsn : ℕ
  pub max_lsn : ℕ
  pub rbuf : LogRingBuffer
  pub config : TunableConfig

-- `ControlBlock::new`.
unfoldable pub new_control_block : (min_lsn max_lsn : ℕ) → TunableConfig → ControlBlock
new_control_block min_lsn max_lsn config = record {
  running = false;
  min_lsn = min_lsn;
  max_lsn = max_lsn;
  rbuf = new_log_ring config.ringbuf_size_order ((max_lsn + 1) % 2 ^ 64);
  config = config;
}

-- `append` up to the call of `push`, which then runs in steps of `log_step`.
unfoldable pub append : (log : List ℕ) → ControlBlock → Outcome LogPc
append log cb =
    if not cb.running
    then err (function_not_running "WAL flushing")
    else if ltb cb.config.max_log_entry_size (length log)
    then err (log_entry_too_large (length log % 2 ^ 32) cb.config.max_log_entry_size)
    else ok (load_tail log)

-- `advance_lsn`, by what its three loads see and the control block as it stands when the store is made:
-- the other callers and the flushing task run in between.
unfoldable pub advance_lsn :
    (running : Bool) (curr_max_lsn curr_min_lsn lsn : ℕ) → ControlBlock → Outcome ControlBlock
advance_lsn running curr_max_lsn curr_min_lsn lsn cb =
    if not running
    then err (function_not_running "WAL flushing")
    else if ltb curr_max_lsn lsn
    then err (invalid_argument "`lsn` is too large")
    else if ltb curr_min_lsn lsn
    then ok (record cb { min_lsn = (lsn + 1) % 2 ^ 64 })
    else ok cb

-- `stop`, but for the instance that it gives back.
unfoldable pub stop : ControlBlock → ControlBlock
stop cb = record cb { running = false }
