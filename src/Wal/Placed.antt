-- ===== src/Wal/Placed.antt =====
-- `put_log` puts a part of an entry into the block, or fills the block up.
use dbprimkit.Base.{
  ℕ, ◌+◌, ◌-◌, ◌%◌, ◌^◌, ◌≤◌, ◌<◌, ◌≡◌, ◌⊎◌, inl, inr, refl, sym, ap, ◌∙◌, List, [], ◌∷◌, ◌++◌,
  Bool, true, false, true≢false, false≢true, not, ◌&&◌, ◌||◌, some, length, take, drop, replicate,
  arith, append_assoc, append-nil, length-append, length-replicate, length-take, length-drop,
  take-length, bit_and, ltb, lt→ltb, ltb→lt, Bool-cases, and_true, ⊎-elim, dec_le, if◌then◌else◌,
}
use mathlib.Core.Path.{subst}
use native.Mathlib.Nat.{add-mod_right}
use dbprimkit.Wal.Platform.{Platform}
use dbprimkit.Wal.Fullness.{full, first, middle, last}
use dbprimkit.Wal.Log
use dbprimkit.Wal.LogFacts.{framed, length-framed, encode-eq-append}
use dbprimkit.Wal.Packing.{LogEntry, Sink, FlushingControlBlock, Piece}
use dbprimkit.Wal.Frames.{
  Frame, Partial, advance, advance_all, IsClean, Block, all_frames, frame_bytes, block_bytes, lay,
}
use dbprimkit.Wal.Blocks.{
  Clean-append, frame_bytes-append, advance_all-snoc, length-lay-mod, Held, advance-end,
  advance-part,
}
use dbprimkit.Wal.Filling.{Ready}
use dbprimkit.Wal.Begun.{last_frames}
use dbprimkit.Wal.PutLog.{Placed, Put, After, put-end, put-part, put-zeros}

both_false : (a b : Bool) → (a || not b) ≡ false → (a ≡ false) × (b ≡ true)
both_false true b h = absurd (true≢false h)
both_false false true h = (refl, refl)
both_false false false h = absurd (true≢false h)

module _ (p : Platform) (sink : Sink) where
  open sink use {State}

  -- The blocks behind a new frame.
  place_frame :
      (k m quota : ℕ) (before : List ℕ) (start : Partial) (fcb fcb' : FlushingControlBlock State)
      (es gs : List LogEntry) (mid end : Partial) (f : Frame)
      → IsClean f
      → (r : Ready p sink k m quota before start fcb fcb' es mid)
      → 52 + length (frame_bytes p r.frames) + length f.payload ≤ 2 ^ k
      → advance f mid ≡ some (gs, end)
      → Placed p sink k m quota before start fcb'.app fcb'.block_size fcb'.block_mask fcb'.buf_size
          f.lsn
          (Log.encode p fcb'.data_buf f.lsn f.payload f.fullness)
          (es ++ gs)
          end
  place_frame k m quota before start fcb fcb' es gs mid end f c r l a =
      let cur : Block = record { header = r.header; frames = r.frames ++ (f ∷ []); pad = 0 } in
      let size : length (block_bytes p cur)
          ≡ 52 + length (frame_bytes p r.frames) + length f.payload =
        length-append r.header _
        ∙ omega (
          arith,
          r.header_lem,
          ap length
              (append-nil (frame_bytes p (r.frames ++ (f ∷ []))) ∙ frame_bytes-append p r.frames f),
          length-append (frame_bytes p r.frames) (framed p f.lsn f.payload f.fullness),
          length-framed p f.lsn f.payload f.fullness,
        ) in
      let buf =
        encode-eq-append p fcb'.data_buf f.lsn f.payload f.fullness
        ∙ ap (λ b. b ++ framed p f.lsn f.payload f.fullness) r.buf_lem
        ∙ append_assoc (lay p r.done) _ _
        ∙ ap (λ b. lay p r.done ++ b)
            (append_assoc r.header _ _
              ∙ ap (λ b. r.header ++ b) (sym (append-nil _ ∙ frame_bytes-append p r.frames f))) in
      record {
        old = r.old;
        done = r.done;
        cur = cur;
        kept = record {
          good = r.kept.good;
          block_size_lem = r.kept.block_size_lem;
          block_mask_lem = r.kept.block_mask_lem;
          buf_size_lem = r.kept.buf_size_lem;
          last_lem = c.0;
          old_whole = r.kept.old_whole;
          stream_lem = r.kept.stream_lem;
        };
        done_whole = r.done_whole;
        open_lem = record {
          header_lem = r.header_lem;
          clean = Clean-append r.frames f r.clean c;
          some_frame = omega (arith, length-append r.frames (f ∷ []));
          fits = omega (arith, size, l);
          pad_lem = inl refl;
        };
        buf_lem = buf;
        room = omega (
          arith,
          ap length buf,
          length-append (lay p r.done) (block_bytes p cur),
          size,
          l,
          r.room,
        );
        frames_lem =
            ap (λ l. advance_all l start)
              (sym (last_frames p r.old r.done cur)
                ∙ sym (append_assoc (all_frames (r.old ++ r.done)) r.frames (f ∷ [])))
            ∙ advance_all-snoc (all_frames (r.old ++ r.done) ++ r.frames) f start mid end es gs
                r.frames_lem a;
      }

  module _ (k m quota : ℕ) (before : List ℕ) (start : Partial) (needs : Bool) (lsn : ℕ)
      (payload : List ℕ) (piece : Piece) (fcb fcb' : FlushingControlBlock State)
      (es : List LogEntry) (mid : Partial) (r : Ready p sink k m quota before start fcb fcb' es mid)
      (bk : ℕ) (left : fcb'.block_size - bit_and (length fcb'.data_buf) fcb'.block_mask ≡ bk)
      (bk_lem : 32 + length (frame_bytes p r.frames) + bk ≡ 2 ^ k) (lsn_fits : lsn < 2 ^ 64 - 1)
      (payload_fits : length payload < 2 ^ 32) (held : Held piece.split lsn payload piece.log mid)
      (some_left : 0 < length piece.log) (log_fits : length piece.log ≤ length payload)
      (unhandled : piece.handled ≡ false) where
    -- A buffer that ends where its last block does.
    whole_blocks : (n : ℕ) → n ≡ length (lay p r.done) + 2 ^ k → n % 2 ^ k ≡ 0
    whole_blocks n e =
        ap (λ n. n % 2 ^ k) e
        ∙ add-mod_right (length (lay p r.done)) (2 ^ k)
        ∙ length-lay-mod p (2 ^ k) r.done r.done_whole

    buf_length :
        length fcb'.data_buf ≡ length (lay p r.done) + (32 + length (frame_bytes p r.frames))
    buf_length = omega (
      arith,
      ap length r.buf_lem,
      length-append (lay p r.done) (r.header ++ frame_bytes p r.frames),
      length-append r.header (frame_bytes p r.frames),
      r.header_lem,
    )

    put_end_lem :
        20 + length piece.log ≤ bk
        → Put p sink k m quota before start needs lsn payload piece fcb fcb' es mid
    put_end_lem l =
        let whole = take-length piece.log in
        let (end, a, closed) = advance-end piece.split lsn payload piece.log mid held in
        record {
          piece' = record {
            log = drop (length piece.log) piece.log;
            split = false;
            handled = true;
          };
          put = record fcb' {
            data_buf =
                Log.encode p fcb'.data_buf lsn (take (length piece.log) piece.log)
                  (if piece.split then last else full);
            last_filled_lsn = lsn;
            max_flushed_lsn = lsn;
          };
          es' = es ++ (record { lsn = lsn; payload = payload } ∷ []);
          mid' = end;
          put_log_lem = put-end p sink needs lsn bk piece fcb' left l;
          app_lem = refl;
          placed =
              subst
                (λ part.
                  Placed p sink k m quota before start fcb'.app fcb'.block_size fcb'.block_mask
                    fcb'.buf_size lsn
                    (Log.encode p fcb'.data_buf lsn part (if piece.split then last else full))
                    (es ++ (record { lsn = lsn; payload = payload } ∷ [])) end)
                (sym whole)
                (place_frame k m quota before start fcb fcb' es _ mid end
                  (record {
                    lsn = lsn;
                    payload = piece.log;
                    fullness = if piece.split then last else full;
                  })
                  (lsn_fits, omega (arith, log_fits, payload_fits), some_left) r
                  (omega (arith, l, bk_lem)) a);
          after = (refl, closed);
          at_end = λ _. refl;
          full_lem = λ e. absurd (true≢false e);
          shorter = λ e. absurd (true≢false e);
        }

    put_part_lem :
        bk < 20 + length piece.log
        → 20 < bk
        → (piece.split || not needs) ≡ true
        → Put p sink k m quota before start needs lsn payload piece fcb fcb' es mid
    put_part_lem l h c =
        let part = take (bk - 20) piece.log in
        let part_length : length part ≡ bk - 20 =
          omega (arith, length-take (bk - 20) piece.log, l) in
        let rest_length = length-drop (bk - 20) piece.log in
        let fullness = if piece.split then middle else first in
        let (end, a, held') = advance-part piece.split lsn (bk - 20) payload piece.log mid held in
        let buf = Log.encode p fcb'.data_buf lsn part fullness in
        record {
          piece' = record { log = drop (bk - 20) piece.log; split = true; handled = false };
          put = record fcb' { data_buf = buf; last_filled_lsn = lsn };
          es' = es ++ [];
          mid' = end;
          put_log_lem = put-part p sink needs lsn bk piece fcb' left l h c;
          app_lem = refl;
          placed =
              place_frame k m quota before start fcb fcb' es [] mid end
                (record { lsn = lsn; payload = part; fullness = fullness })
                (
                  lsn_fits,
                  omega (arith, part_length, l, log_fits, payload_fits),
                  omega (arith, part_length, h),
                )
                r (omega (arith, part_length, h, bk_lem)) a;
          after = (append-nil es, held', omega (arith, rest_length, l, h));
          at_end = λ e. absurd (false≢true e);
          full_lem = λ _. whole_blocks (length buf) (
              omega (
                arith,
                ap length (encode-eq-append p fcb'.data_buf lsn part fullness),
                length-append fcb'.data_buf (framed p lsn part fullness),
                length-framed p lsn part fullness,
                part_length,
                buf_length,
                bk_lem,
                h,
              ));
          shorter = λ _. inl (omega (arith, rest_length, l, h));
        }

    put_zeros_lem :
        bk < 20 + length piece.log
        → (ltb 20 bk && (piece.split || not needs)) ≡ false
        → 0 < length r.frames
        → 0 < length fcb.data_buf % 2 ^ k
        → 0 < bk
        → Put p sink k m quota before start needs lsn payload piece fcb fcb' es mid
    put_zeros_lem l c some_frame inside h =
        let cur : Block = record { header = r.header; frames = r.frames; pad = bk } in
        let size : length (block_bytes p cur) ≡ 2 ^ k = omega (
          arith,
          length-append r.header (frame_bytes p r.frames ++ replicate bk 0),
          length-append (frame_bytes p r.frames) (replicate {A = ℕ} bk 0),
          length-replicate {A = ℕ} bk 0,
          r.header_lem,
          bk_lem,
        ) in
        let buf : fcb'.data_buf ++ replicate bk 0 ≡ lay p r.done ++ block_bytes p cur =
          ap (λ b. b ++ replicate bk 0) r.buf_lem
          ∙ append_assoc (lay p r.done) _ (replicate {A = ℕ} bk 0)
          ∙ ap (λ b. lay p r.done ++ b)
              (append_assoc r.header (frame_bytes p r.frames) (replicate {A = ℕ} bk 0)) in
        let total : length (fcb'.data_buf ++ replicate bk 0) ≡ length (lay p r.done) + 2 ^ k =
          omega (arith, ap length buf, length-append (lay p r.done) (block_bytes p cur), size) in
        record {
          piece' = piece;
          put = record fcb' { data_buf = fcb'.data_buf ++ replicate bk 0 };
          es' = es;
          mid' = mid;
          put_log_lem = put-zeros p sink needs lsn bk piece fcb' left l c h;
          app_lem = refl;
          placed = record {
            old = r.old;
            done = r.done;
            cur = cur;
            kept = r.kept;
            done_whole = r.done_whole;
            open_lem = record {
              header_lem = r.header_lem;
              clean = r.clean;
              some_frame = some_frame;
              fits = omega (arith, size);
              pad_lem = inr size;
            };
            buf_lem = buf;
            room = omega (arith, total, r.room);
            frames_lem =
                ap (λ l. advance_all l start) (sym (last_frames p r.old r.done cur)) ∙ r.frames_lem;
          };
          after =
              subst (λ b. After p sink b lsn payload piece es es mid) (sym unhandled)
                (refl, held, some_left);
          at_end = λ e. absurd (false≢true (sym unhandled ∙ e));
          full_lem = λ _. whole_blocks _ total;
          shorter = λ _. inr (refl, inside);
        }

    -- `put_log` succeeds. An entry of which no part is there must not meet a full rotation in a block
    -- that was begun just now.
    pub put_lem :
        52 < 2 ^ k
        → (piece.split ≡ false → needs ≡ true → 0 < length fcb.data_buf % 2 ^ k)
        → Put p sink k m quota before start needs lsn payload piece fcb fcb' es mid
    put_lem big calm = elim (dec_le (20 + length piece.log) bk) [
      | yes l ↦ put_end_lem l
      | no l ↦
          ⊎-elim (Bool-cases (ltb 20 bk && (piece.split || not needs)))
            (λ c.
              put_part_lem (omega arith) (ltb→lt 20 bk ((and_true _ _ c).0)) ((and_true _ _ c).1))
            (λ c.
              let inside = begun_before c (r.fresh) in
              put_zeros_lem (omega arith) c (inside.1) (inside.0) (omega (arith, bk_lem, r.short)))
    ]
      where
        begun_before :
            (ltb 20 bk && (piece.split || not needs)) ≡ false
            → ((length fcb.data_buf % 2 ^ k ≡ 0) × (r.frames ≡ []))
              ⊎ ((0 < length fcb.data_buf % 2 ^ k) × (0 < length r.frames))
            → (0 < length fcb.data_buf % 2 ^ k) × (0 < length r.frames)
        begun_before c (inr h) = h
        begun_before c (inl (z, e)) =
            let room : 20 < bk =
              omega (arith, ap (λ fs. length (frame_bytes p fs)) e, bk_lem, big) in
            let stale =
              both_false piece.split needs
                (ap (λ b. b && (piece.split || not needs)) (sym (lt→ltb 20 bk room)) ∙ c) in
            absurd (omega (arith, z, calm (stale.0) (stale.1)))
