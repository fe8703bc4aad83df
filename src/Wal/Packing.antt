-- ===== src/Wal/Packing.antt =====
-- src/wal/sync.rs: `flushing_task_inner` packs the log entries into blocks: its loop over the entries,
-- and the flush of an idle task.
use dbprimkit.Base.{
  ℕ, zero, suc, ◌+◌, ◌*◌, ◌-◌, ◌^◌, ◌≤◌, ◌<◌, ◌≡◌, List, [], ◌∷◌, ◌++◌, Bool, true, false, not,
  ◌&&◌, ◌||◌, length, ltb, leb, ◌==◌, if◌then◌else◌, bit_and,
}
use dbprimkit.Error.{Outcome, ok, panic, ◌>>=◌}
use dbprimkit.Wal.Platform.{Platform, split}
use dbprimkit.Wal.Fullness.{full, first, middle, last}
use dbprimkit.Wal.Log
use dbprimkit.Wal.Log.{log_head_size}
use dbprimkit.Wal.BlockHeader
use dbprimkit.Wal.BlockHeader.{fix_block_headers}

-- `LogEntry`.
pub record LogEntry : Type 0 where
  pub lsn : ℕ
  pub payload : List ℕ

-- What the loop asks of the files: whether the current rotation is full, and `flush_data_blocks`.
-- `stream` is what the rotations hold, one behind the other.
pub record Sink : Type 1 where
  pub State : Type 0
  -- Good for so many flushes.
  pub IsGood : ℕ → State → Type 0
  pub IsGood_le : (n m : ℕ) (s : State) → n ≤ m → IsGood m s → IsGood n s
  pub needs_new_rot : State → Bool
  -- What a load of `cb.min_lsn` sees.
  pub min_lsn : State → ℕ
  pub flush_data_blocks :
      (rotatable : Bool) (last_min_lsn last_filled_lsn max_flushed_lsn : ℕ)
      → List ℕ
      → State
      → Outcome (ℕ × State)
  pub stream : State → List ℕ
  pub flush_data_blocks_lem :
      (quota : ℕ) (rotatable : Bool) (min last max : ℕ) (data_buf : List ℕ) (s : State)
      → last < 2 ^ 64 - 1
      → IsGood (suc quota) s
      → (n : ℕ) × (t : State) × (flush_data_blocks rotatable min last max data_buf s ≡ ok (n, t))
        × IsGood quota t
        × (stream t ≡ stream s ++ data_buf)
        × (rotatable ≡ true → needs_new_rot t ≡ false)

-- The fields that the packing of the entries reads or changes; `app` stands for the files.
pub record FlushingControlBlock (S : Type 0) : Type 0 where
  pub app : S
  pub data_buf : List ℕ
  pub last_min_lsn : ℕ
  pub max_flushed_lsn : ℕ
  pub last_filled_lsn : ℕ
  pub block_size : ℕ
  pub block_mask : ℕ
  pub buf_size : ℕ

-- An entry on its way into the blocks: what is left of its payload, whether a part of it is there, and
-- whether all of it is.
pub record Piece : Type 0 where
  pub log : List ℕ
  pub split : Bool
  pub handled : Bool

module _ (p : Platform) where
  module _ {S : Type 0} where
    -- `fix_block_headers`, where `min_lsn` is what the load of `cb.min_lsn` sees.
    unfoldable pub fix : (min_lsn : ℕ) → FlushingControlBlock S → FlushingControlBlock S
    fix min_lsn fcb = record fcb {
      data_buf = fix_block_headers p fcb.block_mask fcb.last_filled_lsn min_lsn fcb.data_buf;
      last_min_lsn = if ltb 0 (length fcb.data_buf) then min_lsn else fcb.last_min_lsn;
    }

    -- At a block boundary: the last block is completed, and the next one begun.
    unfoldable pub begin_block : (min_lsn lsn : ℕ) → FlushingControlBlock S → FlushingControlBlock S
    unfolding fix
    begin_block min_lsn lsn fcb =
        if bit_and (length fcb.data_buf) fcb.block_mask == 0
        then (let fcb' = fix min_lsn fcb in
            record fcb' { data_buf = BlockHeader.encode p fcb'.data_buf lsn })
        else fcb

    -- One entry, or what fits of it, goes into the block, or the block is filled up with zeros.
    unfoldable pub put_log :
        (needs_new_rot : Bool) (lsn : ℕ) (piece : Piece)
        → FlushingControlBlock S
        → Outcome (Piece × FlushingControlBlock S)
    put_log needs_new_rot lsn piece fcb =
        let left = length piece.log in
        let bk_left = fcb.block_size - bit_and (length fcb.data_buf) fcb.block_mask in
        if leb (log_head_size + left) bk_left
        then (do
          (part_log, log) ← split p left piece.log
          ok (
            record { log = log; split = false; handled = true },
            record fcb {
              data_buf =
                  Log.encode p fcb.data_buf lsn part_log (if piece.split then last else full);
              last_filled_lsn = lsn;
              max_flushed_lsn = lsn;
            },
          ))
        else if ltb log_head_size bk_left && (piece.split || not needs_new_rot)
        then (do
          (part_log, log) ← split p (bk_left - log_head_size) piece.log
          ok (
            record { log = log; split = true; handled = false },
            record fcb {
              data_buf =
                  Log.encode p fcb.data_buf lsn part_log (if piece.split then middle else first);
              last_filled_lsn = lsn;
            },
          ))
        else if ltb 0 bk_left
        then ok (piece, record fcb { data_buf = p.put_bytes fcb.data_buf 0 bk_left })
        else ok (piece, fcb)

  module _ (sink : Sink) where
    open sink use {State, needs_new_rot, flush_data_blocks}

    unfoldable pub flush :
        (rotatable : Bool) → FlushingControlBlock State → Outcome (FlushingControlBlock State)
    flush rotatable fcb = do
      (last_min_lsn, app) ←
          flush_data_blocks rotatable fcb.last_min_lsn fcb.last_filled_lsn fcb.max_flushed_lsn
            fcb.data_buf fcb.app
      ok (record fcb { app = app; data_buf = []; last_min_lsn = last_min_lsn })

    -- A full buffer is written out, and a full rotation at a block boundary.
    unfoldable pub flush_full :
        (min_lsn : ℕ) (split : Bool)
        → FlushingControlBlock State
        → Outcome (FlushingControlBlock State)
    unfolding fix flush
    flush_full min_lsn split fcb =
        if (length fcb.data_buf == fcb.buf_size)
          || (needs_new_rot fcb.app && (bit_and (length fcb.data_buf) fcb.block_mask == 0))
        then flush (not split) (fix min_lsn fcb)
        else ok fcb

    -- The body of `while !handled`.
    unfoldable pub round :
        (lsn : ℕ) (piece : Piece)
        → FlushingControlBlock State
        → Outcome (Piece × FlushingControlBlock State)
    unfolding begin_block put_log flush_full
    round lsn piece fcb = do
      (piece, fcb) ←
          put_log (needs_new_rot fcb.app) lsn piece (begin_block (sink.min_lsn fcb.app) lsn fcb)
      fcb ← flush_full (sink.min_lsn fcb.app) piece.split fcb
      ok (piece, fcb)

    -- `while !handled`, on fuel.
    unfoldable pub handle :
        (fuel lsn : ℕ) (piece : Piece)
        → FlushingControlBlock State
        → Outcome (FlushingControlBlock State)
    unfolding round
    handle zero lsn piece fcb = panic
    handle (suc fuel) lsn piece fcb = do
      (piece, fcb) ← round lsn piece fcb
      elim piece.handled [ true ↦ ok fcb | false ↦ handle fuel lsn piece fcb ]

    -- Each round but the zero fills takes a byte of the payload, and no two of those follow one another.
    abbrev pub enough : List ℕ → ℕ
    enough payload = 2 * length payload + 3

    -- `while let Some(..) = rbuf.pop_for_sc()`, over the entries that it pops.
    unfoldable pub pack :
        List LogEntry → FlushingControlBlock State → Outcome (FlushingControlBlock State)
    unfolding handle
    pack [] fcb = ok fcb
    pack (entry ∷ entries) fcb = do
      let piece : Piece = record { log = entry.payload; split = false; handled = false }
      fcb ← handle (enough entry.payload) entry.lsn piece fcb
      pack entries fcb

    -- The flush after a long time without one; `due` is whether `log_check_cnt` has got there.
    unfoldable pub flush_idle :
        (due : Bool) → FlushingControlBlock State → Outcome (FlushingControlBlock State)
    unfolding fix flush
    flush_idle due fcb =
        if not (length fcb.data_buf == 0) && due
        then (let bk_len = bit_and (length fcb.data_buf) fcb.block_mask in
            let filled =
              if not (bk_len == 0)
              then p.put_bytes fcb.data_buf 0 (fcb.block_size - bk_len)
              else fcb.data_buf in
            flush true (fix (sink.min_lsn fcb.app) (record fcb { data_buf = filled })))
        else ok fcb
