-- ===== src/Wal/Filling.antt =====
-- What `flushing_task_inner` of src/wal/sync.rs keeps true of its buffer and of what it has flushed, and
-- how a block is begun.
use dbprimkit.Base.{
  ℕ, ◌+◌, ◌-◌, ◌*◌, ◌%◌, ◌^◌, ◌≤◌, ◌<◌, ◌≡◌, ◌⊎◌, refl, sym, ap, ◌∙◌, List, [], ◌∷◌, ◌++◌, some,
  length, append-nil, bit_and, bit_and-mask,
}
use native.Mathlib.Nat.{add-mod_right}
use dbprimkit.Wal.Platform.{Platform}
use dbprimkit.Wal.BlockFixed.{behind-mod}
use dbprimkit.Wal.Packing.{LogEntry, Sink, FlushingControlBlock}
use dbprimkit.Wal.Frames.{
  Frame, Partial, advance_all, Clean, Block, all_frames, frame_bytes, block_bytes, Whole, lay,
}
use dbprimkit.Wal.Blocks.{lay-append}

-- Blocks in the buffer, of which the last may have room left.
pub data Buffer : Type 0 where
  empty : Buffer
  filled : List Block → Block → Buffer

abbrev pub blocks_of : Buffer → List Block
blocks_of empty = []
blocks_of (filled done cur) = done ++ (cur ∷ [])

module _ (p : Platform) where
  abbrev pub bytes_of : Buffer → List ℕ
  bytes_of empty = []
  bytes_of (filled done cur) = lay p done ++ block_bytes p cur

  pub bytes_of-lay : (b : Buffer) → bytes_of b ≡ lay p (blocks_of b)
  bytes_of-lay empty = refl
  bytes_of-lay (filled done cur) =
      sym
        (lay-append p done (cur ∷ []) ∙ ap (λ l. lay p done ++ l) (append-nil (block_bytes p cur)))

  -- The last block has a header and frames, and is padded only up to its end.
  pub record IsOpen (size : ℕ) (b : Block) : Type 0 where
    pub header_lem : length b.header ≡ 32
    pub clean : Clean b.frames
    pub some_frame : 0 < length b.frames
    pub fits : length (block_bytes p b) ≤ size
    pub pad_lem : (b.pad ≡ 0) ⊎ (length (block_bytes p b) ≡ size)

  abbrev pub IsBuffer : ℕ → Buffer → Type 0
  IsBuffer size empty = Unit
  IsBuffer size (filled done cur) = Whole p size done × IsOpen size cur

  module _ (sink : Sink) where
    open sink use {State, IsGood, stream}

    -- The sizes, and what has been flushed.
    pub record Kept (k m quota : ℕ) (before : List ℕ) (app : State)
        (block_size block_mask buf_size last : ℕ) (old : List Block) : Type 0 where
      pub good : IsGood quota app
      pub block_size_lem : block_size ≡ 2 ^ k
      pub block_mask_lem : block_mask ≡ 2 ^ k - 1
      pub buf_size_lem : buf_size ≡ m * 2 ^ k
      pub last_lem : last < 2 ^ 64 - 1
      pub old_whole : Whole p (2 ^ k) old
      pub stream_lem : stream app ≡ before ++ lay p old

    -- Between two rounds: the entries that end in the blocks so far, and the parts that are open.
    pub record Filling (k m quota : ℕ) (before : List ℕ) (start : Partial)
        (fcb : FlushingControlBlock State) (es : List LogEntry) (mid : Partial) : Type 0 where
      pub old : List Block
      pub buffer : Buffer
      pub kept :
          Kept k m quota before fcb.app fcb.block_size fcb.block_mask fcb.buf_size
            fcb.last_filled_lsn old
      pub buffer_lem : IsBuffer (2 ^ k) buffer
      pub buf_lem : fcb.data_buf ≡ bytes_of buffer
      pub room : length fcb.data_buf < m * 2 ^ k
      pub frames_lem : advance_all (all_frames (old ++ blocks_of buffer)) start ≡ some (es, mid)

    -- Behind `begin_block`: the last block has room for a frame.
    pub record Ready (k m quota : ℕ) (before : List ℕ) (start : Partial)
        (fcb fcb' : FlushingControlBlock State) (es : List LogEntry) (mid : Partial) : Type 0 where
      pub old : List Block
      pub done : List Block
      pub header : List ℕ
      pub frames : List Frame
      pub app_lem : fcb'.app ≡ fcb.app
      pub kept :
          Kept k m quota before fcb'.app fcb'.block_size fcb'.block_mask fcb'.buf_size
            fcb'.last_filled_lsn old
      pub done_whole : Whole p (2 ^ k) done
      pub header_lem : length header ≡ 32
      pub clean : Clean frames
      pub buf_lem : fcb'.data_buf ≡ lay p done ++ (header ++ frame_bytes p frames)
      pub short : 32 + length (frame_bytes p frames) < 2 ^ k
      pub room : length (lay p done) + 2 ^ k ≤ m * 2 ^ k
      pub frames_lem : advance_all (all_frames (old ++ done) ++ frames) start ≡ some (es, mid)
      -- A block without frames was begun just now.
      pub fresh :
          ((length fcb.data_buf % 2 ^ k ≡ 0) × (frames ≡ []))
          ⊎ ((0 < length fcb.data_buf % 2 ^ k) × (0 < length frames))

    -- As good for fewer flushes.
    pub lowered :
        (k m : ℕ) (before : List ℕ) (start : Partial) (n quota : ℕ)
        (fcb : FlushingControlBlock State) (es : List LogEntry) (mid : Partial)
        → quota ≤ n
        → Filling k m n before start fcb es mid
        → Filling k m quota before start fcb es mid
    lowered k m before start n quota fcb es mid l f = record {
      old = f.old;
      buffer = f.buffer;
      kept = record {
        good = sink.IsGood_le quota n fcb.app l f.kept.good;
        block_size_lem = f.kept.block_size_lem;
        block_mask_lem = f.kept.block_mask_lem;
        buf_size_lem = f.kept.buf_size_lem;
        last_lem = f.kept.last_lem;
        old_whole = f.kept.old_whole;
        stream_lem = f.kept.stream_lem;
      };
      buffer_lem = f.buffer_lem;
      buf_lem = f.buf_lem;
      room = f.room;
      frames_lem = f.frames_lem;
    }

-- The test for a block boundary, by how much of the last block there is.
pub boundary-full : (k d r : ℕ) → d % 2 ^ k ≡ 0 → r ≡ 2 ^ k → bit_and (d + r) (2 ^ k - 1) ≡ 0
boundary-full k d r h e = rw (e, bit_and-mask) (add-mod_right d (2 ^ k) ∙ h)

pub boundary-inside : (k d r : ℕ) → d % 2 ^ k ≡ 0 → r < 2 ^ k → bit_and (d + r) (2 ^ k - 1) ≡ r
boundary-inside k d r h l = rw (bit_and-mask) (behind-mod (2 ^ k) d r h l)
