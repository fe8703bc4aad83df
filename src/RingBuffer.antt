-- ===== src/RingBuffer.antt =====
-- src/ringbuffer.rs: the cells, the constructor and the atomic steps of `push` and `pop`.
-- Arithmetic on `usize` is that of a release build on a 64-bit target: it wraps at 2^64.
pub mod Index
pub mod Threads
pub mod Cells
pub mod Accesses
pub mod Claims
pub mod Stores
pub mod Wins
pub mod Invariant
pub mod Safety
pub mod OneSlot
pub mod Queue
pub mod Alone
pub mod Lone
pub mod Drain
mod Tests
use dbprimkit.Base.{
  ℕ, zero, suc, ◌+◌, ◌-◌, ◌%◌, ◌^◌, min, bit_and, Bool, true, false, not, ◌&&◌, Option, none, some,
  List, [], ◌∷◌, get_elem?, set, ltb, leb, ◌==◌, if◌then◌else◌,
}
use dbprimkit.Error.{invalid_argument, Outcome, ok, err, panic}

-- `usize` addition and subtraction.
abbrev pub wrapping_add : ℕ → ℕ → ℕ
wrapping_add a b = (a + b) % 2 ^ 64

abbrev pub wrapping_sub : ℕ → ℕ → ℕ
wrapping_sub a b = (a + 2 ^ 64 - b) % 2 ^ 64

-- The sign of a word read as an `isize`.
abbrev pub is_negative : ℕ → Bool
is_negative w = leb (2 ^ 63) w

-- `Cell<T>`; `none` is memory that was never written.
pub record Cell {ℓ} (A : Type ℓ) : Type ℓ where
  pub seq : ℕ
  pub slot : Option A

pub record RingBuffer {ℓ} (A : Type ℓ) : Type ℓ where
  pub buf : List (Cell A)
  pub size : ℕ
  pub mask : ℕ
  pub head : ℕ
  pub tail : ℕ

-- The cells that `new` makes, numbered from `i` on.
unfoldable pub fresh_cells {ℓ} : {A : Type ℓ} → ℕ → ℕ → List (Cell A)
fresh_cells i zero = []
fresh_cells i (suc n) = record { seq = i; slot = none } ∷ fresh_cells (i + 1) n

abbrev pub empty_ring {ℓ} : {A : Type ℓ} → ℕ → RingBuffer A
empty_ring size = record {
  buf = fresh_cells 0 size;
  size = size;
  mask = size - 1;
  head = 0;
  tail = 0;
}

-- A release build shifts by the amount modulo 64.
unfoldable pub new {ℓ} : {A : Type ℓ} → ℕ → Outcome (RingBuffer A)
new size_order =
    let size = 2 ^ (size_order % 64) in
    if ltb (2 ^ 63 - 1) size
    then err (invalid_argument "`size_order` is too large")
    else ok (empty_ring size)

-- Where a thread stands in `push` or `pop`, with the local variables that are live there.
pub data Pc {ℓ} (A : Type ℓ) : Type ℓ where
  idle : Pc A
  push_load : A → Pc A  -- before `tail.load`
  push_seq : A → ℕ → Pc A  -- head of the loop, with `tail` read
  push_cas : A → ℕ → Pc A  -- `diff == 0` was seen
  push_write : A → ℕ → Pc A  -- the exchange succeeded
  push_store : A → ℕ → Pc A  -- before `seq.store`
  push_ok : Pc A
  push_err : A → Pc A
  pop_load : Pc A
  pop_seq : ℕ → Pc A
  pop_cas : ℕ → Pc A
  pop_read : ℕ → Pc A
  pop_store : ℕ → A → Pc A
  pop_ok : A → Pc A
  pop_empty : Pc A
  fault : Pc A  -- an index out of bounds, or a read of memory that was never written

-- What a call of `push_for_sp` returns: `Ok`, or the value given back.
pub data Pushed {ℓ} (A : Type ℓ) : Type ℓ where
  accepted : Pushed A
  rejected : A → Pushed A

module _ {ℓ} {A : Type ℓ} where
  abbrev pub cell : RingBuffer A → ℕ → Option (Cell A)
  cell r pos = get_elem? r.buf (bit_and pos r.mask)

  abbrev pub put_cell : RingBuffer A → ℕ → Cell A → RingBuffer A
  put_cell r pos c = record r { buf = set r.buf (bit_and pos r.mask) c }

  -- The test of `push` on the sequence number that it read.
  unfoldable pub judge_push : A → ℕ → ℕ → Pc A
  judge_push v t seq =
      let diff = wrapping_sub seq t in
      if diff == 0 then push_cas v t else if is_negative diff then push_err v else push_load v

  -- The test of `pop`.
  unfoldable pub judge_pop : ℕ → ℕ → Pc A
  judge_pop h seq =
      let diff = wrapping_sub seq (wrapping_add h 1) in
      if diff == 0 then pop_cas h else if is_negative diff then pop_empty else pop_load

  -- One atomic access of a thread. `spurious` says whether a weak exchange fails for no reason.
  unfoldable pub step : Bool → Pc A → RingBuffer A → Pc A × RingBuffer A
  step spurious idle r = (idle, r)
  step spurious (push_load v) r = (push_seq v r.tail, r)
  step spurious (push_seq v t) r = elim (cell r t) [
    | none ↦ (fault, r)
    | some c ↦ (judge_push v t c.seq, r)
  ]
  step spurious (push_cas v t) r =
      if r.tail == t && not spurious
      then (push_write v t, record r { tail = wrapping_add t 1 })
      else (push_seq v r.tail, r)
  step spurious (push_write v t) r = elim (cell r t) [
    | none ↦ (fault, r)
    | some c ↦ (push_store v t, put_cell r t (record c { slot = some v }))
  ]
  step spurious (push_store v t) r = elim (cell r t) [
    | none ↦ (fault, r)
    | some c ↦ (push_ok, put_cell r t (record c { seq = wrapping_add t 1 }))
  ]
  step spurious push_ok r = (push_ok, r)
  step spurious (push_err v) r = (push_err v, r)
  step spurious pop_load r = (pop_seq r.head, r)
  step spurious (pop_seq h) r = elim (cell r h) [
    | none ↦ (fault, r)
    | some c ↦ (judge_pop h c.seq, r)
  ]
  step spurious (pop_cas h) r =
      if r.head == h && not spurious
      then (pop_read h, record r { head = wrapping_add h 1 })
      else (pop_seq r.head, r)
  step spurious (pop_read h) r = elim (cell r h) [
    | none ↦ (fault, r)
    | some c ↦ elim c.slot [ none ↦ (fault, r) | some x ↦ (pop_store h x, r) ]
  ]
  step spurious (pop_store h x) r = elim (cell r h) [
    | none ↦ (fault, r)
    | some c ↦ (pop_ok x, put_cell r h (record c { seq = wrapping_add h r.size }))
  ]
  step spurious (pop_ok x) r = (pop_ok x, r)
  step spurious pop_empty r = (pop_empty, r)
  step spurious fault r = (fault, r)

  -- `push_for_sp`, for a producer that is alone.
  unfoldable pub push_for_sp : RingBuffer A → A → Outcome (Pushed A × RingBuffer A)
  push_for_sp r v = elim (cell r r.tail) [
    | none ↦ panic
    | some c ↦
        if c.seq == r.tail
        then ok (
          accepted,
          record (put_cell r r.tail (record { seq = wrapping_add r.tail 1; slot = some v })) {
            tail = wrapping_add r.tail 1;
          },
        )
        else ok (rejected v, r)
  ]

  -- `pop_for_sc`, for a consumer that is alone.
  unfoldable pub pop_for_sc : RingBuffer A → Outcome (Option A × RingBuffer A)
  pop_for_sc r = elim (cell r r.head) [
    | none ↦ panic
    | some c ↦
        if c.seq == wrapping_add r.head 1
        then elim c.slot [
          | none ↦ panic
          | some x ↦ ok (
            some x,
            record (put_cell r r.head (record c { seq = wrapping_add r.head r.size })) {
              head = wrapping_add r.head 1;
            },
          )
        ]
        else ok (none, r)
  ]

  unfoldable pub len : RingBuffer A → ℕ
  len r = min (r.tail - r.head) r.size

  unfoldable pub capa : RingBuffer A → ℕ
  capa r = r.size
