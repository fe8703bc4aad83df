-- ===== src/Wal/Begun.antt =====
-- `begin_block` leaves room for a frame in the last block.
use dbprimkit.Base.{
  ℕ, suc, ◌+◌, ◌*◌, ◌%◌, ◌^◌, ◌≤◌, ◌<◌, ◌≡◌, inl, inr, refl, sym, ap, ap₂, ◌∙◌, List, [], ◌∷◌, ◌++◌,
  length, replicate, arith, append_assoc, append-nil, length-append, bit_and, bit_and-mask, ltb,
  ==_gt, if◌then◌else◌, ⊎-elim, dec_lt,
}
use native.Mathlib.Nat.{zero-mod, mul-le-mul_right, lt_of_mul-lt-mul_right}
use dbprimkit.Wal.Platform.{Platform}
use dbprimkit.Wal.BlockHeader
use dbprimkit.Wal.BlockHeader.{fix_block_headers}
use dbprimkit.Wal.HeaderFix.{fix_header}
use dbprimkit.Wal.Packing.{LogEntry, Sink, FlushingControlBlock, fix, begin_block}
use dbprimkit.Wal.Frames.{
  Partial, advance_all, Block, all_frames, frame_bytes, block_bytes, IsWhole, lay,
}
use dbprimkit.Wal.Blocks.{
  all_frames-append, lay-append, Whole-append, length-lay, length-lay-mod, some_bytes,
}
use mathlib.Core.Path.{subst}
use dbprimkit.Wal.Filling.{
  Buffer, empty, filled, blocks_of, bytes_of, IsBuffer, Filling, Ready, boundary-full,
  boundary-inside,
}

module _ (p : Platform) where
  encode_header-append :
      (buf : List ℕ) (lsn : ℕ)
      → (h : List ℕ) × (length h ≡ 32) × (BlockHeader.encode p buf lsn ≡ buf ++ h)
  unfolding BlockHeader.encode
  encode_header-append buf lsn = (
    p.to_ne_bytes 8 0 ++ (p.to_ne_bytes 8 lsn ++ (p.to_ne_bytes 8 0 ++ p.to_ne_bytes 8 0)),
    simp (length-append, p.length-to_ne_bytes),
    simp (p.put_ne_lem, append_assoc),
  )

  fix_empty : (mask last min : ℕ) → fix_block_headers p mask last min [] ≡ []
  unfolding fix_block_headers
  fix_empty mask last min = refl

  module _ {S : Type 0} where
    begun :
        (min lsn : ℕ) (fcb : FlushingControlBlock S) (buf : List ℕ)
        → bit_and (length fcb.data_buf) fcb.block_mask ≡ 0
        → BlockHeader.encode p
            (fix_block_headers p fcb.block_mask fcb.last_filled_lsn min fcb.data_buf)
            lsn
          ≡ buf
        → begin_block p min lsn fcb ≡ record fcb {
          data_buf = buf;
          last_min_lsn = if ltb 0 (length fcb.data_buf) then min else fcb.last_min_lsn;
        }
    unfolding begin_block fix
    begun min lsn fcb buf c e = rw (c, e)

    going_on :
        (min lsn r : ℕ) (fcb : FlushingControlBlock S)
        → bit_and (length fcb.data_buf) fcb.block_mask ≡ r
        → 0 < r
        → begin_block p min lsn fcb ≡ fcb
    unfolding begin_block
    going_on min lsn r fcb c h = rw (c, ==_gt r 0 h)

  pub step_room : (a m s : ℕ) → a * s < m * s → a * s + s ≤ m * s
  step_room a m s h =
      omega
        (arith, mul-le-mul_right {m = suc a} {n = m} s (lt_of_mul-lt-mul_right s {m = a} {n = m} h))

  pub last_frames :
      (old done : List Block) (cur : Block)
      → all_frames (old ++ done) ++ cur.frames ≡ all_frames (old ++ (done ++ (cur ∷ [])))
  last_frames old done cur =
      ap (λ l. all_frames (old ++ done) ++ l) (sym (append-nil (cur.frames)))
      ∙ sym (all_frames-append (old ++ done) (cur ∷ []))
      ∙ ap all_frames (append_assoc old done (cur ∷ []))

  pub same_frames :
      (old done : List Block) (cur cur' : Block)
      → cur'.frames ≡ cur.frames
      → all_frames (old ++ (done ++ (cur' ∷ []))) ≡ all_frames (old ++ (done ++ (cur ∷ [])))
  same_frames old done cur cur' e =
      sym (last_frames old done cur')
      ∙ ap (λ l. all_frames (old ++ done) ++ l) e
      ∙ last_frames old done cur

  module _ (sink : Sink) where
    open sink use {State}

    begin_full :
        (k m quota : ℕ) (before : List ℕ) (start : Partial) (min lsn : ℕ)
        (fcb : FlushingControlBlock State) (es : List LogEntry) (mid : Partial)
        → (f : Filling p sink k m quota before start fcb es mid) → (done : List Block) (cur : Block)
        → f.buffer ≡ filled done cur
        → length (block_bytes p cur) ≡ 2 ^ k
        → Ready p sink k m quota before start fcb (begin_block p min lsn fcb) es mid
    begin_full k m quota before start min lsn fcb es mid f done cur e l =
        let kept = f.kept in
        let (whole, open_block) = subst (IsBuffer p (2 ^ k)) e (f.buffer_lem) in
        let rest = frame_bytes p (cur.frames) ++ replicate (cur.pad) 0 in
        let buf = f.buf_lem ∙ ap (bytes_of p) e in
        let size = ap length buf ∙ length-append (lay p done) (block_bytes p cur) in
        let at_block = length-lay-mod p (2 ^ k) done whole in
        let boundary =
          ap₂ bit_and size (kept.block_mask_lem)
          ∙ boundary-full k (length (lay p done)) (length (block_bytes p cur)) at_block l in
        let (h', l', fixed) =
          fix_header p k fcb.last_filled_lsn min (lay p done) (cur.header) rest at_block
            (open_block.header_lem)
            (omega (arith, length-append (cur.header) rest, open_block.header_lem, l)) in
        let cur' : Block = record cur { header = h' } in
        let done' = done ++ (cur' ∷ []) in
        let laid =
          lay-append p done (cur' ∷ [])
          ∙ ap (λ l. lay p done ++ l) (append-nil (block_bytes p cur')) in
        let cur_whole : IsWhole p (2 ^ k) cur' = (
          l',
          length-append h' rest
              ∙ omega (arith, length-append (cur.header) rest, open_block.header_lem, l', l),
          open_block.clean,
          open_block.some_frame,
        ) in
        let done_whole = Whole-append p (2 ^ k) done (cur' ∷ []) whole (cur_whole, tt) in
        let (h, hl, enc) = encode_header-append (lay p done') lsn in
        subst (λ fcb'. Ready p sink k m quota before start fcb fcb' es mid)
          (sym (
            begun min lsn fcb (lay p done' ++ h) boundary (
              ap₂
                (λ mask b.
                  BlockHeader.encode p (fix_block_headers p mask fcb.last_filled_lsn min b) lsn)
                (kept.block_mask_lem) buf
              ∙ ap (λ b. BlockHeader.encode p b lsn) (fixed ∙ sym laid)
              ∙ enc)))
          (record {
            old = f.old;
            done = done';
            header = h;
            frames = [];
            app_lem = refl;
            kept = kept;
            done_whole = done_whole;
            header_lem = hl;
            clean = tt;
            buf_lem = ap (λ l. lay p done' ++ l) (sym (append-nil h));
            short = omega (
              arith,
              length-append (cur.header) rest,
              open_block.header_lem,
              l,
              length-append (frame_bytes p (cur.frames)) (replicate {A = ℕ} (cur.pad) 0),
              some_bytes p (cur.frames) (open_block.some_frame),
            );
            room = rw (length-lay p (2 ^ k) done' done_whole) (
                step_room (length done') m (2 ^ k) (
                  rw (← length-lay p (2 ^ k) done' done_whole) (
                    omega (
                      arith,
                      f.room,
                      size,
                      ap length laid,
                      length-append (lay p done) (block_bytes p cur'),
                      cur_whole.1,
                      l,
                    ))));
            frames_lem =
                ap (λ l. advance_all l start)
                  (append-nil _ ∙ same_frames (f.old) done cur cur' refl)
                ∙ ap (λ b. advance_all (all_frames (f.old ++ blocks_of b)) start) (sym e)
                ∙ f.frames_lem;
            fresh = inl (
              ap (λ n. n % 2 ^ k) size
                  ∙ sym (bit_and-mask k _)
                  ∙ ap₂ bit_and (sym size) (sym (kept.block_mask_lem))
                  ∙ boundary,
              refl,
            );
          })

    begin_inside :
        (k m quota : ℕ) (before : List ℕ) (start : Partial) (min lsn : ℕ)
        (fcb : FlushingControlBlock State) (es : List LogEntry) (mid : Partial)
        → (f : Filling p sink k m quota before start fcb es mid) → (done : List Block) (cur : Block)
        → f.buffer ≡ filled done cur
        → length (block_bytes p cur) < 2 ^ k
        → Ready p sink k m quota before start fcb (begin_block p min lsn fcb) es mid
    begin_inside k m quota before start min lsn fcb es mid f done cur e l =
        let kept = f.kept in
        let (whole, open_block) = subst (IsBuffer p (2 ^ k)) e (f.buffer_lem) in
        let buf = f.buf_lem ∙ ap (bytes_of p) e in
        let size = ap length buf ∙ length-append (lay p done) (block_bytes p cur) in
        let at_block = length-lay-mod p (2 ^ k) done whole in
        let rest = frame_bytes p (cur.frames) ++ replicate (cur.pad) 0 in
        let tight : cur.pad ≡ 0 =
          ⊎-elim (open_block.pad_lem) (λ q. q) (λ q. absurd (omega (arith, q, l))) in
        let pos : 0 < length (block_bytes p cur) =
          omega (arith, length-append (cur.header) rest, open_block.header_lem) in
        let cond =
          ap₂ bit_and size (kept.block_mask_lem)
          ∙ boundary-inside k (length (lay p done)) (length (block_bytes p cur)) at_block l in
        let bare : block_bytes p cur ≡ cur.header ++ frame_bytes p (cur.frames) =
          ap (λ n. cur.header ++ (frame_bytes p (cur.frames) ++ replicate n 0)) tight
          ∙ ap (λ l. cur.header ++ l) (append-nil (frame_bytes p (cur.frames))) in
        subst (λ fcb'. Ready p sink k m quota before start fcb fcb' es mid)
          (sym (going_on min lsn (length (block_bytes p cur)) fcb cond pos))
          (record {
            old = f.old;
            done = done;
            header = cur.header;
            frames = cur.frames;
            app_lem = refl;
            kept = kept;
            done_whole = whole;
            header_lem = open_block.header_lem;
            clean = open_block.clean;
            buf_lem = buf ∙ ap (λ l. lay p done ++ l) bare;
            short = omega (
              arith,
              ap length bare,
              l,
              open_block.header_lem,
              length-append (cur.header) (frame_bytes p (cur.frames)),
            );
            room = rw (length-lay p (2 ^ k) done whole) (
                step_room (length done) m (2 ^ k)
                  (rw (← length-lay p (2 ^ k) done whole) (omega (arith, f.room, size))));
            frames_lem =
                ap (λ l. advance_all l start) (last_frames (f.old) done cur)
                ∙ ap (λ b. advance_all (all_frames (f.old ++ blocks_of b)) start) (sym e)
                ∙ f.frames_lem;
            fresh = inr (
              subst (λ n. 0 < n)
                  (sym (
                    ap (λ n. n % 2 ^ k) size
                    ∙ sym (bit_and-mask k _)
                    ∙ boundary-inside k (length (lay p done)) (length (block_bytes p cur)) at_block
                        l))
                  pos,
              open_block.some_frame,
            );
          })

    begin_empty :
        (k m quota : ℕ) (before : List ℕ) (start : Partial) (min lsn : ℕ)
        (fcb : FlushingControlBlock State) (es : List LogEntry) (mid : Partial)
        → 32 < 2 ^ k
        → (f : Filling p sink k m quota before start fcb es mid) → f.buffer ≡ empty
        → Ready p sink k m quota before start fcb (begin_block p min lsn fcb) es mid
    begin_empty k m quota before start min lsn fcb es mid big f e =
        let kept = f.kept in
        let buf = f.buf_lem ∙ ap (bytes_of p) e in
        let len = ap length buf in
        let (h, l, enc) = encode_header-append [] lsn in
        subst (λ fcb'. Ready p sink k m quota before start fcb fcb' es mid)
          (sym (
            begun min lsn fcb h
              (ap₂ bit_and len (kept.block_mask_lem) ∙ bit_and-mask k 0 ∙ zero-mod (2 ^ k))
              (ap
                  (λ b.
                    BlockHeader.encode p
                      (fix_block_headers p fcb.block_mask fcb.last_filled_lsn min b) lsn)
                  buf
                ∙ ap (λ b. BlockHeader.encode p b lsn) (fix_empty _ _ _)
                ∙ enc)))
          (record {
            old = f.old;
            done = [];
            header = h;
            frames = [];
            app_lem = refl;
            kept = kept;
            done_whole = tt;
            header_lem = l;
            clean = tt;
            buf_lem = sym (append-nil h);
            short = big;
            room = omega (arith, step_room 0 m (2 ^ k) (omega (arith, f.room, len)));
            frames_lem =
                ap (λ l. advance_all l start) (append-nil (all_frames (f.old ++ [])))
                ∙ ap (λ b. advance_all (all_frames (f.old ++ blocks_of b)) start) (sym e)
                ∙ f.frames_lem;
            fresh = inl (rw (len) (zero-mod (2 ^ k)), refl);
          })

    pub begin_lem :
        (k m quota : ℕ) (before : List ℕ) (start : Partial) (min lsn : ℕ)
        (fcb : FlushingControlBlock State) (es : List LogEntry) (mid : Partial)
        → 32 < 2 ^ k
        → Filling p sink k m quota before start fcb es mid
        → Ready p sink k m quota before start fcb (begin_block p min lsn fcb) es mid
    begin_lem k m quota before start min lsn fcb es mid big f = on (f.buffer) refl
      where
        on :
            (b : Buffer)
            → f.buffer ≡ b
            → Ready p sink k m quota before start fcb (begin_block p min lsn fcb) es mid
        on empty e = begin_empty k m quota before start min lsn fcb es mid big f e
        on (filled done cur) e =
            let (_, open_block) = subst (IsBuffer p (2 ^ k)) e (f.buffer_lem) in
            elim (dec_lt (length (block_bytes p cur)) (2 ^ k)) [
              | yes l ↦ begin_inside k m quota before start min lsn fcb es mid f done cur e l
              | no l ↦
                  begin_full k m quota before start min lsn fcb es mid f done cur e
                    (omega (arith, open_block.fits, l))
            ]
