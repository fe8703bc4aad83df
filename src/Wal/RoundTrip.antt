-- ===== src/Wal/RoundTrip.antt =====
-- The packing of src/wal/sync.rs and its reader, one behind the other.
use dbprimkit.Base.{
  ℕ, suc, ◌+◌, ◌-◌, ◌*◌, ◌^◌, ◌≤◌, ◌<◌, ◌≡◌, refl, sym, ap, ◌∙◌, some, List, [], ◌++◌, true, false,
  true≢false, length, arith, append-nil, pow-two-pos,
}
use native.Mathlib.Nat.{mul-le-mul_left}
use dbprimkit.Error.{ok, ◌>>=◌}
use dbprimkit.Wal.Platform.{Platform}
use dbprimkit.Wal.Reading.{LogIterator}
use dbprimkit.Wal.Packing.{LogEntry, Sink, FlushingControlBlock, pack, flush_idle}
use dbprimkit.Wal.Frames.{Partial, lay, Whole, Block, advance_all}
use dbprimkit.Wal.Blocks.{length-lay}
use dbprimkit.Wal.Filling.{empty, Filling}
use dbprimkit.Wal.Handled.{flushes_of, Loggable, Packed, pack_ends}
use dbprimkit.Wal.ReadBack.{Settled-all}
use dbprimkit.Wal.Cuts.{
  first_file, later_files, open_file, first_blocks, later_blocks, first_file-lay,
  Whole-first_blocks, Opens-later_files, all_frames-blocks, reads-later_blocks,
}
use dbprimkit.Wal.Drained.{Numbered, collect, collect_lem}

-- A task that has just begun: an empty buffer of `m` blocks, and no full rotation.
pub record IsFresh (sink : Sink) (quota k m : ℕ) (fcb : FlushingControlBlock (sink.State))
    : Type 0 where
  pub good : sink.IsGood quota fcb.app
  pub last_lem : fcb.last_filled_lsn ≡ 0
  pub calm : sink.needs_new_rot fcb.app ≡ false
  pub data_buf_lem : fcb.data_buf ≡ []
  pub block_size_lem : fcb.block_size ≡ 2 ^ k
  pub block_mask_lem : fcb.block_mask ≡ 2 ^ k - 1
  pub buf_size_lem : fcb.buf_size ≡ m * 2 ^ k
  pub some_block : 0 < m

-- The iterator at the start of these bytes, cut into files of whole blocks, which expects the entry `n`.
abbrev pub reading : (n size : ℕ) (cuts bytes : List ℕ) → LogIterator (List ℕ)
reading n size cuts bytes = record {
  reader = first_file size cuts bytes;
  cached = [];
  middle_log_lsn = 0;
  middle_log_bufs = [];
  next_lsn = n;
  rot_names = later_files size cuts bytes;
  block_size = size;
}

abbrev none_open : Partial
none_open = record { lsn = 0; bufs = [] }

module _ (p : Platform) (sink : Sink) (k m : ℕ) where
  open sink use {State, stream}

  begins :
      (quota : ℕ) (fcb : FlushingControlBlock State)
      → IsFresh sink quota k m fcb
      → Filling p sink k m quota (stream fcb.app) none_open fcb [] none_open
  begins quota fcb f = record {
    old = [];
    buffer = empty;
    kept = record {
      good = f.good;
      block_size_lem = f.block_size_lem;
      block_mask_lem = f.block_mask_lem;
      buf_size_lem = f.buf_size_lem;
      last_lem = omega (arith, f.last_lem);
      old_whole = tt;
      stream_lem = sym (append-nil (stream fcb.app));
    };
    buffer_lem = tt;
    buf_lem = f.data_buf_lem;
    room =
        rw (f.data_buf_lem)
          (omega (arith, f.some_block, mul-le-mul_left {m = 1} {n = 2 ^ k} m (pow-two-pos k)));
    frames_lem = refl;
  }

  packed :
      (entries : List LogEntry) (fcb : FlushingControlBlock State)
      → 52 < 2 ^ k
      → IsFresh sink (flushes_of entries + 1) k m fcb
      → Loggable entries
      → Packed p sink k m (stream fcb.app) none_open 1 (pack p sink entries fcb) entries
  packed entries fcb big f l =
      pack_ends p sink k m (stream fcb.app) none_open big 1 entries fcb [] none_open l
        (begins (flushes_of entries + 1) fcb f) refl (λ _ n. absurd (true≢false (sym n ∙ f.calm)))

  -- From a fresh task, entries with consecutive LSNs are packed, and what is left of them is flushed by an
  -- idle task. However the bytes that the rotations hold more than before are cut into files of whole blocks,
  -- an iterator at the first of them yields the entries, in order, and then the end.
  pub collect-pack :
      (cuts : List ℕ) (n : ℕ) (entries : List LogEntry) (fcb : FlushingControlBlock State)
      → 52 < 2 ^ k
      → IsFresh sink (flushes_of entries + 1) k m fcb
      → Loggable entries
      → Numbered n entries
      → (fcb' : FlushingControlBlock State) × (written : List ℕ) × ((pack p sink entries fcb
            >>= flush_idle p sink true)
          ≡ ok fcb')
        × (stream fcb'.app ≡ stream fcb.app ++ written)
        × (collect p open_file
              (suc (suc (length written + length cuts)))
              (suc (length entries))
              (reading n (2 ^ k) cuts written)
            ≡ ok entries)
  collect-pack cuts n entries fcb big f l ns =
      let r = packed entries fcb big f l in
      let s = Settled-all p sink k m 0 (stream fcb.app) none_open r.fcb' entries r.mid' r.filling in
      let first = first_file-lay p (2 ^ k) cuts s.blocks s.whole in
      (
        s.fcb',
        lay p s.blocks,
        rw (r.run_lem) (s.idle_lem),
        s.stream_lem,
        collect_lem p open_file (length (lay p s.blocks) + length cuts) (suc (length entries))
            (reading n (2 ^ k) cuts (lay p s.blocks)) (first_blocks cuts s.blocks)
            (later_blocks cuts s.blocks) entries
            (omega (arith, reads-later_blocks p cuts s.blocks, some_bytes s.blocks s.whole))
            (omega arith) ns
            (record {
              late = entries;
              ended = r.mid'.lsn;
              size_pos = pow-two-pos k;
              reader_lem = first;
              whole = Whole-first_blocks p (2 ^ k) cuts s.blocks s.whole;
              rotations = Opens-later_files p (2 ^ k) cuts s.blocks s.whole;
              frames_lem =
                  ap (λ fs. advance_all fs none_open) (all_frames-blocks p cuts s.blocks)
                  ∙ s.frames_lem
                  ∙ ap (λ b. some (entries, record { lsn = r.mid'.lsn; bufs = b })) r.closed;
              cached_lem = refl;
            }),
      )
    where
      some_bytes : (bs : List Block) → Whole p (2 ^ k) bs → length bs ≤ length (lay p bs)
      some_bytes bs w = omega (
        arith,
        length-lay p (2 ^ k) bs w,
        mul-le-mul_left {m = 1} {n = 2 ^ k} (length bs) (pow-two-pos k),
      )
