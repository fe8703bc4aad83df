-- ===== src/Wal/ReadBack.antt =====
-- What `flushing_task_inner` of src/wal/sync.rs writes, `LogIterator` reads back.
use dbprimkit.Base.{
  ℕ, suc, ◌+◌, ◌-◌, ◌^◌, ◌<◌, ◌≡◌, inr, refl, sym, ap, ap₂, ◌∙◌, List, [], ◌∷◌, ◌++◌, true, not,
  length, replicate, arith, append_assoc, append-nil, length-append, length-replicate, bit_and,
  ◌==◌, ==_gt, ⊎-elim, dec_lt, if◌then◌else◌, some,
}
use mathlib.Core.Path.{subst}
use dbprimkit.Error.{ok}
use dbprimkit.Wal.Platform.{Platform}
use dbprimkit.Wal.Packing.{LogEntry, Sink, FlushingControlBlock, fix, flush, flush_idle}
use dbprimkit.Wal.Frames.{
  Partial, advance_all, Block, all_frames, frame_bytes, block_bytes, Whole, lay,
}
use dbprimkit.Wal.Blocks.{length-lay, length-lay-mod}
use dbprimkit.Wal.Filling.{
  Buffer, empty, filled, blocks_of, bytes_of, IsBuffer, IsOpen, Filling, boundary-inside,
  boundary-full,
}
use dbprimkit.Wal.Begun.{same_frames, step_room}
use dbprimkit.Wal.Flushed.{Emptied, whole_flushed}

module _ (p : Platform) (sink : Sink) (k m quota : ℕ) (before : List ℕ) (start : Partial) where
  open sink use {State, IsGood, stream}

  idle-skips :
      (fcb : FlushingControlBlock State) → fcb.data_buf ≡ [] → flush_idle p sink true fcb ≡ ok fcb
  unfolding flush_idle
  idle-skips fcb e = rw (e)

  idle-flushes :
      (r : ℕ) (fcb : FlushingControlBlock State)
      → 0 < length fcb.data_buf
      → bit_and (length fcb.data_buf) fcb.block_mask ≡ r
      → flush_idle p sink true fcb
        ≡ flush p sink true (
            fix p (sink.min_lsn fcb.app) (record fcb {
              data_buf =
                  if not (r == 0)
                  then p.put_bytes fcb.data_buf 0 (fcb.block_size - r)
                  else fcb.data_buf;
            }))
  unfolding flush_idle
  idle-flushes r fcb l e = rw (==_gt (length fcb.data_buf) 0 l, e)

  -- What the flush of an idle task ends in: whole blocks, all of them written.
  pub record Settled (fcb : FlushingControlBlock State) (es : List LogEntry) (mid : Partial)
      : Type 0 where
    pub fcb' : FlushingControlBlock State
    pub idle_lem : flush_idle p sink true fcb ≡ ok fcb'
    pub blocks : List Block
    pub whole : Whole p (2 ^ k) blocks
    pub stream_lem : stream fcb'.app ≡ before ++ lay p blocks
    pub frames_lem : advance_all (all_frames blocks) start ≡ some (es, mid)

  settled :
      (q : ℕ) (fcb fcb' : FlushingControlBlock State) (es : List LogEntry) (mid : Partial)
      → flush_idle p sink true fcb ≡ ok fcb'
      → (f : Filling p sink k m q before start fcb' es mid) → f.buffer ≡ empty
      → Settled fcb es mid
  settled q fcb fcb' es mid i f e = record {
    fcb' = fcb';
    idle_lem = i;
    blocks = f.old;
    whole = f.kept.old_whole;
    stream_lem = f.kept.stream_lem;
    frames_lem =
        ap (λ bs. advance_all (all_frames bs) start) {x = f.old}
          (sym (append-nil f.old) ∙ ap (λ b. f.old ++ blocks_of b) (sym e))
        ∙ f.frames_lem;
  }

  module _ (fcb : FlushingControlBlock State) (es : List LogEntry) (mid : Partial)
      (f : Filling p sink k m (suc quota) before start fcb es mid) (done : List Block) (cur : Block)
      (e : f.buffer ≡ filled done cur) (done_whole : Whole p (2 ^ k) done)
      (open_lem : IsOpen p (2 ^ k) cur) where
    buf : fcb.data_buf ≡ lay p done ++ block_bytes p cur
    buf = f.buf_lem ∙ ap (bytes_of p) e

    size : length fcb.data_buf ≡ length (lay p done) + length (block_bytes p cur)
    size = ap length buf ∙ length-append (lay p done) (block_bytes p cur)

    cur_size : length (block_bytes p cur) ≡ 32 + (length (frame_bytes p cur.frames) + cur.pad)
    cur_size = omega (
      arith,
      length-append cur.header (frame_bytes p cur.frames ++ replicate cur.pad 0),
      length-append (frame_bytes p cur.frames) (replicate {A = ℕ} cur.pad 0),
      length-replicate {A = ℕ} cur.pad 0,
      open_lem.header_lem,
    )

    frames : advance_all (all_frames (f.old ++ (done ++ (cur ∷ [])))) start ≡ some (es, mid)
    frames = ap (λ b. advance_all (all_frames (f.old ++ blocks_of b)) start) (sym e) ∙ f.frames_lem

    emptied :
        (fcb1 : FlushingControlBlock State)
        → flush_idle p sink true fcb ≡ flush p sink true (fix p (sink.min_lsn fcb.app) fcb1)
        → Emptied p sink k m quota before start (sink.min_lsn fcb.app) true fcb1 es mid
        → Settled fcb es mid
    emptied fcb1 i e = settled quota fcb e.fcb' es mid (i ∙ e.flush_lem) e.filling e.buffer_empty

    Settled-full : length (block_bytes p cur) ≡ 2 ^ k → Settled fcb es mid
    Settled-full l =
        emptied fcb
          (idle-flushes 0 fcb (omega (arith, size, cur_size)) (
            ap₂ bit_and size f.kept.block_mask_lem
            ∙ boundary-full k _ _ (length-lay-mod p (2 ^ k) done done_whole) l))
          (whole_flushed p sink k m quota before start (sink.min_lsn fcb.app) fcb es mid
            (record {
              old = f.old;
              done = done;
              cur = cur;
              kept = f.kept;
              done_whole = done_whole;
              open_lem = open_lem;
              buf_lem = buf;
              room = omega (arith, f.room);
              frames_lem = frames;
            })
            true l)

    Settled-inside : length (block_bytes p cur) < 2 ^ k → Settled fcb es mid
    Settled-inside l =
        let gap = fcb.block_size - length (block_bytes p cur) in
        let gap_lem : length (block_bytes p cur) + gap ≡ 2 ^ k =
          omega (arith, f.kept.block_size_lem, l) in
        let tight : cur.pad ≡ 0 =
          ⊎-elim open_lem.pad_lem (λ q. q) (λ q. absurd (omega (arith, q, l))) in
        let cur' : Block = record cur { pad = gap } in
        let cur_size' : length (block_bytes p cur') ≡ 2 ^ k = omega (
          arith,
          length-append cur.header (frame_bytes p cur.frames ++ replicate gap 0),
          length-append (frame_bytes p cur.frames) (replicate {A = ℕ} gap 0),
          length-replicate {A = ℕ} gap 0,
          open_lem.header_lem,
          gap_lem,
          cur_size,
          tight,
        ) in
        let bare : block_bytes p cur ≡ cur.header ++ frame_bytes p cur.frames =
          ap (λ n. cur.header ++ (frame_bytes p cur.frames ++ replicate n 0)) tight
          ∙ ap (λ l. cur.header ++ l) (append-nil (frame_bytes p cur.frames)) in
        let buf' : p.put_bytes fcb.data_buf 0 gap ≡ lay p done ++ block_bytes p cur' =
          p.put_bytes_lem fcb.data_buf 0 gap
          ∙ ap (λ l. l ++ replicate gap 0) (buf ∙ ap (λ l. lay p done ++ l) bare)
          ∙ append_assoc (lay p done) _ (replicate gap 0)
          ∙ ap (λ l. lay p done ++ l)
              (append_assoc cur.header (frame_bytes p cur.frames) (replicate gap 0)) in
        let pos : 0 < length (block_bytes p cur) = omega (arith, cur_size) in
        emptied (record fcb { data_buf = p.put_bytes fcb.data_buf 0 gap })
          (idle-flushes (length (block_bytes p cur)) fcb (omega (arith, size, pos)) (
              ap₂ bit_and size f.kept.block_mask_lem
              ∙ boundary-inside k _ _ (length-lay-mod p (2 ^ k) done done_whole) l)
            ∙ rw (==_gt (length (block_bytes p cur)) 0 pos))
          (whole_flushed p sink k m quota before start (sink.min_lsn fcb.app)
            (record fcb { data_buf = p.put_bytes fcb.data_buf 0 gap }) es mid
            (record {
              old = f.old;
              done = done;
              cur = cur';
              kept = f.kept;
              done_whole = done_whole;
              open_lem = record {
                header_lem = open_lem.header_lem;
                clean = open_lem.clean;
                some_frame = open_lem.some_frame;
                fits = omega (arith, cur_size');
                pad_lem = inr cur_size';
              };
              buf_lem = buf';
              room = omega (
                arith,
                ap length buf',
                length-append (lay p done) (block_bytes p cur'),
                cur_size',
                length-lay p (2 ^ k) done done_whole,
                step_room p (length done) m (2 ^ k)
                    (rw (← length-lay p (2 ^ k) done done_whole) (omega (arith, f.room, size))),
              );
              frames_lem =
                  ap (λ l. advance_all l start) (same_frames p f.old done cur cur' refl) ∙ frames;
            })
            true cur_size')

  pub Settled-all :
      (fcb : FlushingControlBlock State) (es : List LogEntry) (mid : Partial)
      → Filling p sink k m (suc quota) before start fcb es mid
      → Settled fcb es mid
  Settled-all fcb es mid f = on f.buffer refl
    where
      on : (b : Buffer) → f.buffer ≡ b → Settled fcb es mid
      on empty e =
          settled (suc quota) fcb fcb es mid (idle-skips fcb (f.buf_lem ∙ ap (bytes_of p) e)) f e
      on (filled done cur) e =
          let (w, o) = subst (IsBuffer p (2 ^ k)) e f.buffer_lem in
          elim (dec_lt (length (block_bytes p cur)) (2 ^ k)) [
            | yes l ↦ Settled-inside fcb es mid f done cur e w o l
            | no l ↦ Settled-full fcb es mid f done cur e w o (omega (arith, l, o.fits))
          ]
