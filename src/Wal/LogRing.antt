-- ===== src/Wal/LogRing.antt =====
-- src/wal.rs: `LogRingBuffer`, the ring that `append` pushes log entries to and the flushing task pops
-- them from, with `push` as the sequence of its atomic accesses.
use dbprimkit.Base.{
  ℕ, ◌-◌, ◌%◌, ◌^◌, bit_and, Bool, not, ◌&&◌, Option, none, some, List, get_elem?, set, ◌==◌,
  if◌then◌else◌,
}
use dbprimkit.Error.{Outcome, ok, panic}
use dbprimkit.RingBuffer.{Cell, fresh_cells, wrapping_add, wrapping_sub, is_negative}
use dbprimkit.Wal.Packing.{LogEntry}

pub record LogRingBuffer : Type 0 where
  pub lsn_base : ℕ
  pub buf : List (Cell LogEntry)
  pub mask : ℕ
  pub head : ℕ
  pub tail : ℕ

-- `LogRingBuffer::new`; a release build shifts by the amount modulo 64.
unfoldable pub new_log_ring : (size_order lsn_base : ℕ) → LogRingBuffer
new_log_ring size_order lsn_base =
    let size = 2 ^ (size_order % 64) in
    record { lsn_base = lsn_base; buf = fresh_cells 0 size; mask = size - 1; head = 0; tail = 0 }

-- Where a thread stands in `push`, with the local variables that are live there.
pub data LogPc : Type 0 where
  load_tail : List ℕ → LogPc  -- before a load of `tail`
  load_seq : List ℕ → ℕ → LogPc  -- head of the loop, with `tail` read
  exchange : List ℕ → ℕ → ℕ → LogPc  -- `diff == 0` was seen, for that `tail` and `seq`
  write_entry : List ℕ → ℕ → ℕ → LogPc  -- the exchange succeeded
  store_seq : LogEntry → ℕ → LogPc  -- the entry is in the cell of `tail`
  pushed : ℕ → LogPc  -- `Ok(lsn)`
  refused : List ℕ → LogPc  -- `RingBufferFull`; the log is dropped
  no_cell : LogPc  -- an index out of bounds

abbrev pub log_cell : LogRingBuffer → ℕ → Option (Cell LogEntry)
log_cell r pos = get_elem? r.buf (bit_and pos r.mask)

abbrev pub put_log_cell : LogRingBuffer → ℕ → Cell LogEntry → LogRingBuffer
put_log_cell r pos c = record r { buf = set r.buf (bit_and pos r.mask) c }

-- The test of `push` on the sequence number that it read.
unfoldable pub judge_log : List ℕ → ℕ → ℕ → LogPc
judge_log log t seq =
    let diff = wrapping_sub seq t in
    if diff == 0
    then exchange log t seq
    else if is_negative diff
    then refused log
    else load_tail log

-- One atomic access of a thread in `push`. `spurious` says whether a weak exchange fails for no reason.
unfoldable pub log_step : (spurious : Bool) → LogPc → LogRingBuffer → LogPc × LogRingBuffer
unfolding judge_log
log_step spurious (load_tail log) r = (load_seq log r.tail, r)
log_step spurious (load_seq log t) r = elim (log_cell r t) [
  | none ↦ (no_cell, r)
  | some c ↦ (judge_log log t c.seq, r)
]
log_step spurious (exchange log t seq) r =
    if r.tail == t && not spurious
    then (write_entry log t seq, record r { tail = wrapping_add t 1 })
    else (load_seq log r.tail, r)
log_step spurious (write_entry log t seq) r = elim (log_cell r t) [
  | none ↦ (no_cell, r)
  | some c ↦
      let entry : LogEntry = record { lsn = wrapping_add r.lsn_base seq; payload = log } in
      (store_seq entry t, put_log_cell r t (record c { slot = some entry }))
]
log_step spurious (store_seq entry t) r = elim (log_cell r t) [
  | none ↦ (no_cell, r)
  | some c ↦ (pushed entry.lsn, put_log_cell r t (record c { seq = wrapping_add t 1 }))
]
log_step spurious (pushed lsn) r = (pushed lsn, r)
log_step spurious (refused log) r = (refused log, r)
log_step spurious no_cell r = (no_cell, r)

-- `pop_for_sc`, for a consumer that is alone.
unfoldable pub pop_log : LogRingBuffer → Outcome (Option LogEntry × LogRingBuffer)
pop_log r = elim (log_cell r r.head) [
  | none ↦ panic
  | some c ↦
      if c.seq == wrapping_add r.head 1
      then elim c.slot [
        | none ↦ panic
        | some entry ↦ ok (
          some entry,
          record (put_log_cell r r.head
              (record c { seq = wrapping_add (wrapping_add r.head r.mask) 1 })) {
                head = wrapping_add r.head 1;
              },
        )
      ]
      else ok (none, r)
]
