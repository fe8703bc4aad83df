-- ===== src/Wal/LogRingFacts.antt =====
-- `LogRingBuffer` of src/wal.rs against `RingBuffer` of src/ringbuffer.rs.
use native.Mathlib.Nat.{mod-add-mod, add_assoc}
use dbprimkit.Base.{
  ℕ, ◌+◌, ◌^◌, ◌≡◌, refl, sym, ap, bit_and, Bool, true, not, ◌&&◌, Option, none, some, List, map,
  ◌==◌, Bool-cases, ⊎-elim, map-set, get_elem?-map_cases,
}
use dbprimkit.Error.{ok, ◌>>=◌}
use dbprimkit.RingBuffer
use dbprimkit.RingBuffer.{
  Cell, RingBuffer, Pc, judge_push, step, pop_for_sc, wrapping_add, is_negative, wrapping_sub,
}
use dbprimkit.Wal.Packing.{LogEntry}
use dbprimkit.Wal.LogRing.{
  LogRingBuffer, LogPc, load_tail, load_seq, exchange, write_entry, store_seq, pushed, refused,
  no_cell, log_cell, judge_log, log_step, pop_log,
}

-- A cell, a ring, and a thread without the LSNs.
abbrev pub payload_of : Option LogEntry → Option (List ℕ)
payload_of none = none
payload_of (some entry) = some entry.payload

abbrev pub bare_cell : Cell LogEntry → Cell (List ℕ)
bare_cell c = record { seq = c.seq; slot = payload_of c.slot }

abbrev pub bare : LogRingBuffer → RingBuffer (List ℕ)
bare r = record {
  buf = map bare_cell r.buf;
  size = r.mask + 1;
  mask = r.mask;
  head = r.head;
  tail = r.tail;
}

abbrev pub bare_pc : LogPc → Pc (List ℕ)
bare_pc (load_tail log) = RingBuffer.push_load log
bare_pc (load_seq log t) = RingBuffer.push_seq log t
bare_pc (exchange log t seq) = RingBuffer.push_cas log t
bare_pc (write_entry log t seq) = RingBuffer.push_write log t
bare_pc (store_seq entry t) = RingBuffer.push_store entry.payload t
bare_pc (pushed lsn) = RingBuffer.push_ok
bare_pc (refused log) = RingBuffer.push_err log
bare_pc no_cell = RingBuffer.fault

abbrev pub bare_both : LogPc × LogRingBuffer → Pc (List ℕ) × RingBuffer (List ℕ)
bare_both (pc, r) = (bare_pc pc, bare r)

pub judge_push-bare :
    (log : List ℕ) (t seq : ℕ) → bare_pc (judge_log log t seq) ≡ judge_push log t seq
unfolding judge_log judge_push
judge_push-bare log t seq =
    ⊎-elim (Bool-cases (wrapping_sub seq t == 0)) (λ e. rw e refl)
      (λ e.
        ⊎-elim (Bool-cases (is_negative (wrapping_sub seq t))) (λ n. rw (e, n) refl)
          (λ n. rw (e, n) refl))

pub step-bare :
    (spurious : Bool) (pc : LogPc) (r : LogRingBuffer)
    → step spurious (bare_pc pc) (bare r) ≡ bare_both (log_step spurious pc r)
unfolding log_step step
step-bare spurious (load_tail log) r = refl
step-bare spurious (load_seq log t) r =
    ⊎-elim (get_elem?-map_cases bare_cell r.buf (bit_and t r.mask))
      (λ (e, f). rw (e, f, log_step, step) refl)
      (λ (c, e, f).
        rw (e, f, log_step, step) (ap (λ pc. (pc, bare r)) (sym (judge_push-bare log t c.seq))))
step-bare spurious (exchange log t seq) r =
    ⊎-elim (Bool-cases ((r.tail == t) && not spurious)) (λ e. rw (e, log_step, step) refl)
      (λ e. rw (e, log_step, step) refl)
step-bare spurious (write_entry log t seq) r =
    ⊎-elim (get_elem?-map_cases bare_cell r.buf (bit_and t r.mask))
      (λ (e, f). rw (e, f, log_step, step) refl)
      (λ (c, e, f). rw (e, f, log_step, step, map-set bare_cell r.buf (bit_and t r.mask) _) refl)
step-bare spurious (store_seq entry t) r =
    ⊎-elim (get_elem?-map_cases bare_cell r.buf (bit_and t r.mask))
      (λ (e, f). rw (e, f, log_step, step) refl)
      (λ (c, e, f). rw (e, f, log_step, step, map-set bare_cell r.buf (bit_and t r.mask) _) refl)
step-bare spurious (pushed lsn) r = refl
step-bare spurious (refused log) r = refl
step-bare spurious no_cell r = refl

-- With a cell that is ready, whatever its slot holds.
pop-ready :
    (r : LogRingBuffer) (c : Cell LogEntry) (o : Option LogEntry)
    → c.slot ≡ o
    → log_cell r r.head ≡ some c
    → RingBuffer.cell (bare r) r.head ≡ some (bare_cell c)
    → (c.seq == wrapping_add r.head 1) ≡ true
    → pop_for_sc (bare r) ≡ (do (entry, r) ← pop_log r; ok (payload_of entry, bare r))
unfolding pop_log pop_for_sc
pop-ready r c none h e f g = rw (e, f, pop_log, pop_for_sc, g, h) refl
pop-ready r c (some entry) h e f g =
    rw
      (
        e,
        f,
        pop_log,
        pop_for_sc,
        g,
        h,
        map-set bare_cell r.buf (bit_and r.head r.mask) _,
        mod-add-mod (r.head + r.mask) (2 ^ 64) 1,
        add_assoc r.head r.mask 1,
      )
      refl

pub pop_for_sc-bare :
    (r : LogRingBuffer)
    → pop_for_sc (bare r) ≡ (do (entry, r) ← pop_log r; ok (payload_of entry, bare r))
unfolding pop_log pop_for_sc
pop_for_sc-bare r =
    ⊎-elim (get_elem?-map_cases bare_cell r.buf (bit_and r.head r.mask))
      (λ (e, f). rw (e, f, pop_log, pop_for_sc) refl)
      (λ (c, e, f).
        ⊎-elim (Bool-cases (c.seq == wrapping_add r.head 1)) (λ g. pop-ready r c c.slot refl e f g)
          (λ g. rw (e, f, pop_log, pop_for_sc, g) refl))
