-- ===== src/Wal/PutLog.antt =====
-- `put_log` of src/wal/sync.rs on each of its branches, and what it must end in.
use dbprimkit.Base.{
  ℕ, ◌+◌, ◌-◌, ◌*◌, ◌%◌, ◌^◌, ◌≤◌, ◌<◌, ◌≡◌, ◌⊎◌, List, [], ◌∷◌, ◌++◌, Bool, true, false, not, ◌&&◌,
  ◌||◌, some, length, take, drop, replicate, arith, bit_and, ltb, leb-true, leb-false, lt→ltb,
  if◌then◌else◌,
}
use dbprimkit.Error.{ok}
use dbprimkit.Wal.Platform.{Platform, split-long}
use dbprimkit.Wal.Fullness.{full, first, middle, last}
use dbprimkit.Wal.Log
use dbprimkit.Wal.Packing.{LogEntry, Sink, FlushingControlBlock, Piece, put_log}
use dbprimkit.Wal.Frames.{Partial, advance_all, Block, all_frames, block_bytes, Whole, lay}
use dbprimkit.Wal.Blocks.{Held}
use dbprimkit.Wal.Filling.{IsOpen, Kept}

module _ (p : Platform) (sink : Sink) where
  open sink use {State}

  -- Behind `put_log`: the last block has frames.
  pub record Placed (k m quota : ℕ) (before : List ℕ) (start : Partial) (app : State)
      (block_size block_mask buf_size last : ℕ) (data_buf : List ℕ) (es : List LogEntry)
      (mid : Partial) : Type 0 where
    pub old : List Block
    pub done : List Block
    pub cur : Block
    pub kept : Kept p sink k m quota before app block_size block_mask buf_size last old
    pub done_whole : Whole p (2 ^ k) done
    pub open_lem : IsOpen p (2 ^ k) cur
    pub buf_lem : data_buf ≡ lay p done ++ block_bytes p cur
    pub room : length data_buf ≤ m * 2 ^ k
    pub frames_lem : advance_all (all_frames (old ++ (done ++ (cur ∷ [])))) start ≡ some (es, mid)

  module _ {S : Type 0} where
    pub put-end :
        (needs : Bool) (lsn bk : ℕ) (piece : Piece) (fcb : FlushingControlBlock S)
        → fcb.block_size - bit_and (length fcb.data_buf) fcb.block_mask ≡ bk
        → 20 + length piece.log ≤ bk
        → put_log p needs lsn piece fcb
          ≡ ok (
            record { log = drop (length piece.log) piece.log; split = false; handled = true },
            record fcb {
              data_buf =
                  Log.encode p fcb.data_buf lsn
                    (take (length piece.log) piece.log)
                    (if piece.split then last else full);
              last_filled_lsn = lsn;
              max_flushed_lsn = lsn;
            },
          )
    unfolding put_log
    put-end needs lsn bk piece fcb e l = rw (
      e,
      leb-true (20 + length piece.log) bk l,
      split-long p (length piece.log) piece.log (omega arith),
    )

    pub put-part :
        (needs : Bool) (lsn bk : ℕ) (piece : Piece) (fcb : FlushingControlBlock S)
        → fcb.block_size - bit_and (length fcb.data_buf) fcb.block_mask ≡ bk
        → bk < 20 + length piece.log
        → 20 < bk
        → (piece.split || not needs) ≡ true
        → put_log p needs lsn piece fcb
          ≡ ok (
            record { log = drop (bk - 20) piece.log; split = true; handled = false },
            record fcb {
              data_buf =
                  Log.encode p fcb.data_buf lsn
                    (take (bk - 20) piece.log)
                    (if piece.split then middle else first);
              last_filled_lsn = lsn;
            },
          )
    unfolding put_log
    put-part needs lsn bk piece fcb e l h c = rw (
      e,
      leb-false (20 + length piece.log) bk l,
      lt→ltb 20 bk h,
      c,
      split-long p (bk - 20) piece.log (omega arith),
    )

    pub put-zeros :
        (needs : Bool) (lsn bk : ℕ) (piece : Piece) (fcb : FlushingControlBlock S)
        → fcb.block_size - bit_and (length fcb.data_buf) fcb.block_mask ≡ bk
        → bk < 20 + length piece.log
        → (ltb 20 bk && (piece.split || not needs)) ≡ false
        → 0 < bk
        → put_log p needs lsn piece fcb
          ≡ ok (piece, record fcb { data_buf = fcb.data_buf ++ replicate bk 0 })
    unfolding put_log
    put-zeros needs lsn bk piece fcb e l c h =
        rw (e, leb-false (20 + length piece.log) bk l, c, lt→ltb 0 bk h, p.put_bytes_lem)

  -- What has become of an entry: it ends in the blocks, or some of it is left.
  abbrev pub After :
      (handled : Bool) (lsn : ℕ) (payload : List ℕ) (piece' : Piece) (es es' : List LogEntry)
      → Partial
      → Type 0
  After true lsn payload piece' es es' mid' =
      (es' ≡ es ++ (record { lsn = lsn; payload = payload } ∷ [])) × (mid'.bufs ≡ [])
  After false lsn payload piece' es es' mid' =
      (es' ≡ es) × Held piece'.split lsn payload piece'.log mid' × (0 < length piece'.log)

  -- What `put_log` ends in; `fcb` is the state before `begin_block`.
  pub record Put (k m quota : ℕ) (before : List ℕ) (start : Partial) (needs : Bool) (lsn : ℕ)
      (payload : List ℕ) (piece : Piece) (fcb fcb' : FlushingControlBlock State)
      (es : List LogEntry) (mid : Partial) : Type 0 where
    pub piece' : Piece
    pub put : FlushingControlBlock State
    pub es' : List LogEntry
    pub mid' : Partial
    pub put_log_lem : put_log p needs lsn piece fcb' ≡ ok (piece', put)
    pub app_lem : put.app ≡ fcb'.app
    pub placed :
        Placed k m quota before start put.app put.block_size put.block_mask put.buf_size
          put.last_filled_lsn put.data_buf es' mid'
    pub after : After piece'.handled lsn payload piece' es es' mid'
    pub at_end : piece'.handled ≡ true → piece'.split ≡ false
    pub full_lem : piece'.handled ≡ false → length put.data_buf % 2 ^ k ≡ 0
    pub shorter :
        piece'.handled ≡ false
        → (length piece'.log < length piece.log)
          ⊎ ((length piece'.log ≡ length piece.log) × (0 < length fcb.data_buf % 2 ^ k))
