-- ===== src/Wal/Handled.antt =====
-- The loops of `flushing_task_inner` of src/wal/sync.rs end, with every entry in the blocks.
use dbprimkit.Base.{
  ℕ, zero, suc, ◌+◌, ◌-◌, ◌*◌, ◌%◌, ◌^◌, ◌≤◌, ◌<◌, ◌≡◌, ◌⊎◌, inl, inr, refl, sym, ap, ap₂, ◌∙◌,
  List, [], ◌∷◌, ◌++◌, Bool, true, false, length, arith, append_assoc, append-nil, length-append,
  bit_and, ⊎-elim,
}
use mathlib.Core.Path.{subst}
use native.Mathlib.Nat.{suc-add}
use dbprimkit.Error.{Outcome, ok}
use dbprimkit.Wal.Platform.{Platform}
use dbprimkit.Wal.Reading.{joined}
use dbprimkit.Wal.Packing.{
  LogEntry, Sink, FlushingControlBlock, Piece, begin_block, round, handle, enough, pack,
}
use dbprimkit.Wal.Frames.{Partial, frame_bytes, lay}
use dbprimkit.Wal.Blocks.{Held, length-lay-mod}
use dbprimkit.Wal.Filling.{Filling, lowered, Ready, boundary-inside}
use dbprimkit.Wal.Begun.{begin_lem}
use dbprimkit.Wal.PutLog.{After, Put}
use dbprimkit.Wal.Placed.{put_lem}
use dbprimkit.Wal.Flushed.{Flushed, flush_full_ends}

-- What the format needs of an entry: fields that fit, and a byte of a payload.
abbrev pub IsLoggable : LogEntry → Type 0
IsLoggable e = (e.lsn < 2 ^ 64 - 1) × (length e.payload < 2 ^ 32) × (0 < length e.payload)

abbrev pub Loggable : List LogEntry → Type 0
Loggable [] = Unit
Loggable (e ∷ es) = IsLoggable e × Loggable es

Held-length :
    (split : Bool) (lsn : ℕ) (payload log : List ℕ) (m : Partial)
    → Held split lsn payload log m
    → length log ≤ length payload
Held-length true lsn payload log m (_, _, e) =
    omega (arith, ap length e, length-append (joined (m.bufs)) log)
Held-length false lsn payload log m (_, e) = omega (arith, ap length e)

-- No more flushes than rounds.
abbrev pub flushes_of : List LogEntry → ℕ
flushes_of [] = 0
flushes_of (e ∷ es) = (2 * length e.payload + 3) + flushes_of es

module _ (p : Platform) (sink : Sink) (k m : ℕ) (before : List ℕ) (start : Partial) where
  open sink use {State, needs_new_rot}

  -- No rotation is full at a block boundary, unless the parts of an entry go on.
  abbrev pub Calm : Bool → FlushingControlBlock State → Type 0
  Calm split fcb = split ≡ false → needs_new_rot fcb.app ≡ true → 0 < length fcb.data_buf % 2 ^ k

  -- What one round ends in.
  record Rounded (quota lsn : ℕ) (payload : List ℕ) (piece : Piece)
      (fcb : FlushingControlBlock State) (es : List LogEntry) (mid : Partial) : Type 0 where
    piece' : Piece
    fcb' : FlushingControlBlock State
    es' : List LogEntry
    mid' : Partial
    round_lem : round p sink lsn piece fcb ≡ ok (piece', fcb')
    filling : Filling p sink k m quota before start fcb' es' mid'
    after : After p sink piece'.handled lsn payload piece' es es' mid'
    at_end : piece'.handled ≡ true → piece'.split ≡ false
    calm : Calm piece'.split fcb'
    boundary : piece'.handled ≡ false → length fcb'.data_buf % 2 ^ k ≡ 0
    shorter :
        piece'.handled ≡ false
        → (length piece'.log < length piece.log)
          ⊎ ((length piece'.log ≡ length piece.log) × (0 < length fcb.data_buf % 2 ^ k))

  room_left :
      (quota : ℕ) (fcb fcb' : FlushingControlBlock State) (es : List LogEntry) (mid : Partial)
      (r : Ready p sink k m quota before start fcb fcb' es mid)
      → fcb'.block_size - bit_and (length fcb'.data_buf) fcb'.block_mask
        ≡ 2 ^ k - (32 + length (frame_bytes p r.frames))
  room_left quota fcb fcb' es mid r =
      ap₂ (λ a b. a - b) r.kept.block_size_lem
        (ap₂ bit_and size r.kept.block_mask_lem
          ∙ boundary-inside k _ _ (length-lay-mod p (2 ^ k) r.done r.done_whole) r.short)
    where
      size : length fcb'.data_buf ≡ length (lay p r.done) + (32 + length (frame_bytes p r.frames))
      size = omega (
        arith,
        ap length r.buf_lem,
        length-append (lay p r.done) (r.header ++ frame_bytes p r.frames),
        length-append r.header (frame_bytes p r.frames),
        r.header_lem,
      )

  -- A round from what its parts end in.
  rounded :
      (quota lsn : ℕ) (payload : List ℕ) (piece : Piece) (fcb : FlushingControlBlock State)
      (es : List LogEntry) (mid : Partial)
      (u : Put p sink k m
        (suc quota)
        before
        start
        (needs_new_rot fcb.app)
        lsn
        payload
        piece
        fcb
        (begin_block p (sink.min_lsn fcb.app) lsn fcb)
        es
        mid)
      → Flushed p sink k m quota before start
          (sink.min_lsn u.put.app)
          u.piece'.split
          u.put
          u.es'
          u.mid'
      → Rounded quota lsn payload piece fcb es mid
  unfolding round
  rounded quota lsn payload piece fcb es mid u f = record {
    piece' = u.piece';
    fcb' = f.fcb';
    es' = u.es';
    mid' = u.mid';
    round_lem = rw (u.put_log_lem, f.flush_full_lem);
    filling = f.filling;
    after = u.after;
    at_end = u.at_end;
    calm = f.calm;
    boundary = λ e. f.boundary (u.full_lem e);
    shorter = u.shorter;
  }

  -- What the packing of one entry, or of several, ends in.
  pub record Packed (quota : ℕ) (run : Outcome (FlushingControlBlock State)) (es : List LogEntry)
      : Type 0 where
    pub fcb' : FlushingControlBlock State
    pub mid' : Partial
    pub run_lem : run ≡ ok fcb'
    pub filling : Filling p sink k m quota before start fcb' es mid'
    pub closed : mid'.bufs ≡ []
    pub calm : Calm false fcb'

  module _ (big : 52 < 2 ^ k) where
    round_ends :
        (quota lsn : ℕ) (payload : List ℕ) (piece : Piece) (fcb : FlushingControlBlock State)
        (es : List LogEntry) (mid : Partial)
        → IsLoggable (record { lsn = lsn; payload = payload })
        → Filling p sink k m (suc quota) before start fcb es mid
        → Held piece.split lsn payload piece.log mid
        → 0 < length piece.log
        → piece.handled ≡ false
        → Calm piece.split fcb
        → Rounded quota lsn payload piece fcb es mid
    round_ends quota lsn payload piece fcb es mid (lsn_fits, fits, _) f held some_left un calm =
        let r =
          begin_lem p sink k m (suc quota) before start (sink.min_lsn fcb.app) lsn fcb es mid
            (omega (arith, big)) f in
        let u =
          put_lem p sink k m (suc quota) before start (needs_new_rot fcb.app) lsn payload piece fcb
            (begin_block p (sink.min_lsn fcb.app) lsn fcb) es mid r
            (2 ^ k - (32 + length (frame_bytes p r.frames)))
            (room_left (suc quota) fcb (begin_block p (sink.min_lsn fcb.app) lsn fcb) es mid r)
            (omega (arith, r.short)) lsn_fits fits held some_left
            (Held-length piece.split lsn payload piece.log mid held) un big calm in
        rounded quota lsn payload piece fcb es mid u (
          flush_full_ends p sink k m quota before start (sink.min_lsn u.put.app) u.put u.es' u.mid'
            u.placed u.piece'.split)

    -- Enough fuel for what is left of an entry.
    abbrev Fueled : ℕ → Piece → FlushingControlBlock State → Type 0
    Fueled fuel piece fcb =
        (2 * length piece.log + 1 < fuel)
        ⊎ ((length fcb.data_buf % 2 ^ k ≡ 0) × (2 * length piece.log < fuel))

    handle_ends :
        (fuel quota lsn : ℕ) (payload : List ℕ) (piece : Piece) (fcb : FlushingControlBlock State)
        (es : List LogEntry) (mid : Partial)
        → IsLoggable (record { lsn = lsn; payload = payload })
        → Filling p sink k m (fuel + quota) before start fcb es mid
        → Held piece.split lsn payload piece.log mid
        → 0 < length piece.log
        → piece.handled ≡ false
        → Calm piece.split fcb
        → Fueled fuel piece fcb
        → Packed quota
            (handle p sink fuel lsn piece fcb)
            (es ++ (record { lsn = lsn; payload = payload } ∷ []))
    unfolding handle
    handle_ends zero quota lsn payload piece fcb es mid i f held l un calm fuel =
        absurd (⊎-elim fuel (λ h. omega (arith, h)) (λ h. omega (arith, h.1)))
    handle_ends (suc fuel) quota lsn payload piece fcb es mid i f held l un calm fuel_lem =
        let u =
          round_ends (fuel + quota) lsn payload piece fcb es mid i
            (subst (λ n. Filling p sink k m n before start fcb es mid) (suc-add fuel quota) f) held
            l un calm in
        on u (u.piece'.handled) refl
          (handle_ends fuel quota lsn payload (u.piece') (u.fcb') (u.es') (u.mid') i (u.filling))
      where
        on :
            (u : Rounded (fuel + quota) lsn payload piece fcb es mid) (h : Bool)
            → u.piece'.handled ≡ h
            → (Held u.piece'.split lsn payload u.piece'.log u.mid'
                → 0 < length u.piece'.log
                → u.piece'.handled ≡ false
                → Calm u.piece'.split u.fcb'
                → Fueled fuel u.piece' u.fcb'
                → Packed quota
                    (handle p sink fuel lsn u.piece' u.fcb')
                    (u.es' ++ (record { lsn = lsn; payload = payload } ∷ [])))
            → Packed quota
                (handle p sink (suc fuel) lsn piece fcb)
                (es ++ (record { lsn = lsn; payload = payload } ∷ []))
        on u true e again =
            let (grown, closed) =
              subst (λ b. After p sink b lsn payload u.piece' es u.es' u.mid') e u.after in
            record {
              fcb' = u.fcb';
              mid' = u.mid';
              run_lem = rw (u.round_lem, e);
              filling =
                  lowered p sink k m before start (fuel + quota) quota u.fcb' _ u.mid' (omega arith)
                    (subst (λ es. Filling p sink k m (fuel + quota) before start u.fcb' es u.mid')
                      grown u.filling);
              closed = closed;
              calm = subst (λ b. Calm b u.fcb') (u.at_end e) u.calm;
            }
        on u false e again =
            let (same, held', l') =
              subst (λ b. After p sink b lsn payload u.piece' es u.es' u.mid') e u.after in
            let less : 2 * length u.piece'.log < fuel =
              ⊎-elim (u.shorter e)
                (λ h. ⊎-elim fuel_lem (λ g. omega (arith, g, h)) (λ g. omega (arith, g.1, h)))
                (λ h.
                  ⊎-elim fuel_lem (λ g. omega (arith, g, h.0))
                    (λ g. absurd (omega (arith, g.0, h.1)))) in
            let r = again held' l' e u.calm (inr (u.boundary e, less)) in
            record {
              fcb' = r.fcb';
              mid' = r.mid';
              run_lem = rw (u.round_lem, e) (r.run_lem);
              filling =
                  subst
                    (λ es.
                      Filling p sink k m quota before start r.fcb'
                        (es ++ (record { lsn = lsn; payload = payload } ∷ [])) r.mid')
                    same r.filling;
              closed = r.closed;
              calm = r.calm;
            }

    -- The loop over the entries.
    pub pack_ends :
        (quota : ℕ) (entries : List LogEntry) (fcb : FlushingControlBlock State)
        (es : List LogEntry) (mid : Partial)
        → Loggable entries
        → Filling p sink k m (flushes_of entries + quota) before start fcb es mid
        → mid.bufs ≡ []
        → Calm false fcb
        → Packed quota (pack p sink entries fcb) (es ++ entries)
    unfolding pack
    pack_ends quota [] fcb es mid i f closed calm = record {
      fcb' = fcb;
      mid' = mid;
      run_lem = refl;
      filling = lowered p sink k m before start (0 + quota) quota fcb _ mid (omega arith) (
          subst (λ es. Filling p sink k m (0 + quota) before start fcb es mid) (sym (append-nil es))
            f);
      closed = closed;
      calm = calm;
    }
    pack_ends quota (entry ∷ entries) fcb es mid (i, is) f closed calm =
        let h =
          handle_ends (enough p sink entry.payload) (flushes_of entries + quota) entry.lsn
            entry.payload (record { log = entry.payload; split = false; handled = false }) fcb es
            mid i (lowered p sink k m before start _ _ fcb es mid (omega arith) f) (closed, refl)
            (i.2) refl calm (inl (omega arith)) in
        let r =
          pack_ends quota entries h.fcb' (es ++ (entry ∷ [])) h.mid' is h.filling h.closed h.calm in
        record {
          fcb' = r.fcb';
          mid' = r.mid';
          run_lem = rw (h.run_lem) (r.run_lem);
          filling =
              subst (λ es. Filling p sink k m quota before start r.fcb' es r.mid')
                (append_assoc es (entry ∷ []) entries) r.filling;
          closed = r.closed;
          calm = r.calm;
        }
