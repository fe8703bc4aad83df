-- ===== src/Wal/Flushed.antt =====
-- `flush_full` writes whole blocks only, and leaves the last block alone otherwise.
use dbprimkit.Base.{
  ℕ, suc, ◌+◌, ◌-◌, ◌%◌, ◌^◌, ◌<◌, ◌≡◌, refl, sym, ap, ◌∙◌, List, [], ◌∷◌, ◌++◌, Bool, true, false,
  false≢true, not, ◌&&◌, ◌||◌, length, replicate, arith, append_assoc, append-nil, length-append,
  bit_and, bit_and-mask, ltb, ◌==◌, ==_iff, lt_of_ne, pos_of_ne, and_true, or_true, or_false,
  Bool-cases, ⊎-elim, dec_lt, if◌then◌else◌,
}
use native.Mathlib.Nat.{mul-mod_left, zero-mod}
use mathlib.Core.Path.{subst}
use dbprimkit.Error.{ok}
use dbprimkit.Wal.Platform.{Platform}
use dbprimkit.Wal.BlockHeader.{fix_block_headers}
use dbprimkit.Wal.BlockFixed.{behind-mod}
use dbprimkit.Wal.HeaderFix.{fix_header}
use dbprimkit.Wal.Packing.{LogEntry, Sink, FlushingControlBlock, fix, flush, flush_full}
use dbprimkit.Wal.Frames.{
  Partial, advance_all, Block, all_frames, frame_bytes, block_bytes, IsWhole, lay,
}
use dbprimkit.Wal.Blocks.{lay-append, Whole-append, length-lay-mod}
use dbprimkit.Wal.Filling.{empty, filled, Filling}
use dbprimkit.Wal.Begun.{same_frames}
use dbprimkit.Wal.PutLog.{Placed}

module _ (p : Platform) (sink : Sink) where
  open sink use {State, needs_new_rot, flush_data_blocks, stream}

  -- Whether the buffer is written out.
  abbrev is_full : FlushingControlBlock State → Bool
  is_full fcb =
      (length fcb.data_buf == fcb.buf_size)
      || (needs_new_rot fcb.app && (bit_and (length fcb.data_buf) fcb.block_mask == 0))

  -- `last_min_lsn` behind `fix`.
  abbrev last_min : ℕ → FlushingControlBlock State → ℕ
  last_min min fcb = if ltb 0 (length fcb.data_buf) then min else fcb.last_min_lsn

  writes :
      (min : ℕ) (rotatable : Bool) (fcb : FlushingControlBlock State) (buf : List ℕ) (n : ℕ)
      (t : State)
      → fix_block_headers p fcb.block_mask fcb.last_filled_lsn min fcb.data_buf ≡ buf
      → flush_data_blocks rotatable
          (last_min min fcb)
          fcb.last_filled_lsn
          fcb.max_flushed_lsn
          buf
          fcb.app
        ≡ ok (n, t)
      → flush p sink rotatable (fix p min fcb)
        ≡ ok (record fcb { app = t; data_buf = []; last_min_lsn = n })
  unfolding flush fix
  writes min rotatable fcb buf n t e h = rw (e, h)

  flushes :
      (min : ℕ) (split : Bool) (fcb : FlushingControlBlock State)
      → is_full fcb ≡ true
      → flush_full p sink min split fcb ≡ flush p sink (not split) (fix p min fcb)
  unfolding flush_full
  flushes min split fcb c = rw (c)

  keeps :
      (min : ℕ) (split : Bool) (fcb : FlushingControlBlock State)
      → is_full fcb ≡ false
      → flush_full p sink min split fcb ≡ ok fcb
  unfolding flush_full
  keeps min split fcb c = rw (c)

  -- What the flush of whole blocks ends in.
  pub record Emptied (k m quota : ℕ) (before : List ℕ) (start : Partial) (min : ℕ)
      (rotatable : Bool) (fcb : FlushingControlBlock State) (es : List LogEntry) (mid : Partial)
      : Type 0 where
    pub fcb' : FlushingControlBlock State
    pub flush_lem : flush p sink rotatable (fix p min fcb) ≡ ok fcb'
    pub filling : Filling p sink k m quota before start fcb' es mid
    pub empty_lem : fcb'.data_buf ≡ []
    pub buffer_empty : filling.buffer ≡ empty
    pub rotated : rotatable ≡ true → needs_new_rot fcb'.app ≡ false

  pub record Flushed (k m quota : ℕ) (before : List ℕ) (start : Partial) (min : ℕ) (split : Bool)
      (fcb : FlushingControlBlock State) (es : List LogEntry) (mid : Partial) : Type 0 where
    pub fcb' : FlushingControlBlock State
    pub flush_full_lem : flush_full p sink min split fcb ≡ ok fcb'
    pub filling : Filling p sink k m quota before start fcb' es mid
    pub calm : split ≡ false → needs_new_rot fcb'.app ≡ true → 0 < length fcb'.data_buf % 2 ^ k
    pub boundary : length fcb.data_buf % 2 ^ k ≡ 0 → length fcb'.data_buf % 2 ^ k ≡ 0

  module _ (k m quota : ℕ) (before : List ℕ) (start : Partial) (min : ℕ)
      (fcb : FlushingControlBlock State) (es : List LogEntry) (mid : Partial)
      (r : Placed p sink k m
        (suc quota)
        before
        start
        fcb.app
        fcb.block_size
        fcb.block_mask
        fcb.buf_size
        fcb.last_filled_lsn
        fcb.data_buf
        es
        mid) where
    abbrev rest : List ℕ
    rest = frame_bytes p (r.cur.frames) ++ replicate (r.cur.pad) 0

    size : length fcb.data_buf ≡ length (lay p r.done) + length (block_bytes p r.cur)
    size = ap length r.buf_lem ∙ length-append (lay p r.done) (block_bytes p r.cur)

    cur_size : length (block_bytes p r.cur) ≡ 32 + length rest
    cur_size = omega (arith, length-append r.cur.header rest, r.open_lem.header_lem)

    at_mask : bit_and (length fcb.data_buf) fcb.block_mask ≡ length fcb.data_buf % 2 ^ k
    at_mask = ap (bit_and (length fcb.data_buf)) r.kept.block_mask_lem ∙ bit_and-mask k _

    -- A buffer of whole blocks ends with a whole block.
    cur_full : length fcb.data_buf % 2 ^ k ≡ 0 → length (block_bytes p r.cur) ≡ 2 ^ k
    cur_full z = elim (dec_lt (length (block_bytes p r.cur)) (2 ^ k)) [
      | yes l ↦
          let inside =
            ap (λ n. n % 2 ^ k) size
            ∙ behind-mod (2 ^ k) _ _ (length-lay-mod p (2 ^ k) r.done r.done_whole) l in
          absurd (omega (arith, z, inside, cur_size))
      | no l ↦ omega (arith, l, r.open_lem.fits)
    ]

    full_boundary : is_full fcb ≡ true → length fcb.data_buf % 2 ^ k ≡ 0
    full_boundary c =
        ⊎-elim (or_true _ _ c)
          (λ e.
            ap (λ n. n % 2 ^ k) ((==_iff _ _).0 e ∙ r.kept.buf_size_lem) ∙ mul-mod_left m (2 ^ k))
          (λ e. sym at_mask ∙ (==_iff _ 0).0 ((and_true _ _ e).1))

    not_full :
        (split : Bool) → is_full fcb ≡ false → Flushed k m quota before start min split fcb es mid
    not_full split c = record {
      fcb' = fcb;
      flush_full_lem = keeps min split fcb c;
      filling = record {
        old = r.old;
        buffer = filled r.done r.cur;
        kept = record {
          good = sink.IsGood_le quota (suc quota) fcb.app (omega arith) r.kept.good;
          block_size_lem = r.kept.block_size_lem;
          block_mask_lem = r.kept.block_mask_lem;
          buf_size_lem = r.kept.buf_size_lem;
          last_lem = r.kept.last_lem;
          old_whole = r.kept.old_whole;
          stream_lem = r.kept.stream_lem;
        };
        buffer_lem = (r.done_whole, r.open_lem);
        buf_lem = r.buf_lem;
        room = rw (← r.kept.buf_size_lem) (
            lt_of_ne (length fcb.data_buf) fcb.buf_size (omega (arith, r.room, r.kept.buf_size_lem))
              ((or_false _ _ c).0));
        frames_lem = r.frames_lem;
      };
      calm = λ _ n.
          subst (λ x. 0 < x) at_mask
            (pos_of_ne _ (
              ap (λ b. b && (bit_and (length fcb.data_buf) fcb.block_mask == 0)) (sym n)
              ∙ (or_false _ _ c).1));
      boundary = λ e. e;
    }

    pub whole_flushed :
        (rotatable : Bool)
        → length (block_bytes p r.cur) ≡ 2 ^ k
        → Emptied k m quota before start min rotatable fcb es mid
    whole_flushed rotatable whole =
        let (h', l', fixed) =
          fix_header p k fcb.last_filled_lsn min (lay p r.done) r.cur.header rest
            (length-lay-mod p (2 ^ k) r.done r.done_whole) r.open_lem.header_lem
            (omega (arith, cur_size, r.open_lem.fits)) in
        let cur' : Block = record r.cur { header = h' } in
        let last : IsWhole p (2 ^ k) cur' = (
          l',
          omega (arith, length-append h' rest, l', cur_size, whole),
          r.open_lem.clean,
          r.open_lem.some_frame,
        ) in
        let buf = lay p (r.done ++ (cur' ∷ [])) in
        let laid =
          ap (λ mask. fix_block_headers p mask fcb.last_filled_lsn min fcb.data_buf)
            r.kept.block_mask_lem
          ∙ ap (fix_block_headers p (2 ^ k - 1) fcb.last_filled_lsn min) r.buf_lem
          ∙ fixed
          ∙ sym (
              lay-append p r.done (cur' ∷ [])
              ∙ ap (λ l. lay p r.done ++ l) (append-nil (block_bytes p cur'))) in
        let (n, t, ran, good, grown, rotated) =
          sink.flush_data_blocks_lem quota rotatable (last_min min fcb) fcb.last_filled_lsn
            fcb.max_flushed_lsn buf fcb.app r.kept.last_lem r.kept.good in
        record {
          fcb' = record fcb { app = t; data_buf = []; last_min_lsn = n };
          flush_lem = writes min rotatable fcb buf n t laid ran;
          filling = record {
            old = r.old ++ (r.done ++ (cur' ∷ []));
            buffer = empty;
            kept = record {
              good = good;
              block_size_lem = r.kept.block_size_lem;
              block_mask_lem = r.kept.block_mask_lem;
              buf_size_lem = r.kept.buf_size_lem;
              last_lem = r.kept.last_lem;
              old_whole =
                  Whole-append p (2 ^ k) r.old (r.done ++ (cur' ∷ [])) r.kept.old_whole
                    (Whole-append p (2 ^ k) r.done (cur' ∷ []) r.done_whole (last, tt));
              stream_lem =
                  grown
                  ∙ ap (λ l. l ++ buf) r.kept.stream_lem
                  ∙ append_assoc before (lay p r.old) buf
                  ∙ ap (λ l. before ++ l) (sym (lay-append p r.old (r.done ++ (cur' ∷ []))));
            };
            buffer_lem = tt;
            buf_lem = refl;
            room = omega (arith, r.room, size, cur_size);
            frames_lem =
                ap (λ bs. advance_all (all_frames bs) start) {y = r.old ++ (r.done ++ (cur' ∷ []))}
                  (append-nil _)
                ∙ ap (λ l. advance_all l start) (same_frames p r.old r.done r.cur cur' refl)
                ∙ r.frames_lem;
          };
          empty_lem = refl;
          buffer_empty = refl;
          rotated = rotated;
        }

    full : (split : Bool) → is_full fcb ≡ true → Flushed k m quota before start min split fcb es mid
    full split c =
        let e = whole_flushed (not split) (cur_full (full_boundary c)) in
        record {
          fcb' = e.fcb';
          flush_full_lem = flushes min split fcb c ∙ e.flush_lem;
          filling = e.filling;
          calm = λ s n. absurd (false≢true (sym (e.rotated (ap not s)) ∙ n));
          boundary = λ _. ap (λ b. length b % 2 ^ k) e.empty_lem ∙ zero-mod (2 ^ k);
        }

    pub flush_full_ends : (split : Bool) → Flushed k m quota before start min split fcb es mid
    flush_full_ends split = ⊎-elim (Bool-cases (is_full fcb)) (full split) (not_full split)
