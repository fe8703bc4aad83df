-- ===== src/RingBuffer/Safety.antt =====
-- What `push` and `pop` of src/ringbuffer.rs promise under every interleaving of any threads.
use mathlib.Core.Path.{subst}
use dbprimkit.Base.{
  ℕ, zero, suc, ◌+◌, ◌%◌, ◌^◌, ◌≤◌, ◌<◌, ◌≡◌, ◌≢◌, ◌⊎◌, ap, sym, List, some, arith, length,
  pow-two-suc, pow-two-pos,
}
use dbprimkit.Error.{ok}
use dbprimkit.RingBuffer.{RingBuffer, fault, new, empty_ring}
use dbprimkit.RingBuffer.Cells.{at-same}
use dbprimkit.RingBuffer.Index.{mod-gap}
use dbprimkit.RingBuffer.Claims.{Inv, Delivered, pushing, popping}
use dbprimkit.RingBuffer.Threads.{System, Event, run, started}
use dbprimkit.RingBuffer.Invariant.{run-started-Inv}

two-le-pow : (k : ℕ) → 1 ≤ k → 2 ≤ 2 ^ k
two-le-pow zero h = absurd (omega arith)
two-le-pow (suc k) h = omega (arith, pow-two-suc k, pow-two-pos k)

-- What `new` accepts is the empty ring of that size.
new-ok :
    {A : Type 0} (order : ℕ) (r : RingBuffer A)
    → order < 64
    → new order ≡ ok r
    → empty_ring (2 ^ order) ≡ r
unfolding new
new-ok order r small e = ground arith

module _ {A : Type 0} (order : ℕ) (r : RingBuffer A) (several : 1 ≤ order) (small : order < 64)
    (made : new order ≡ ok r) (es : List (Event A)) (fits : length es + r.size ≤ 2 ^ 63) where
  abbrev final : System A
  final = run es (started r)

  reached : Inv order final
  reached =
      subst (λ ring. length es + ring.size ≤ 2 ^ 63 → Inv order (run es (started ring)))
        (new-ok order r small made)
        (λ room. run-started-Inv order es (two-le-pow order several) room) fits

  sized : r.size ≡ 2 ^ order
  sized = ap (λ (ring : RingBuffer A). ring.size) (sym (new-ok order r small made))

  open reached use {shape, counted, ordered, bounded, claims, one_pusher, one_popper, delivered}

  -- For a ring that `new` made of at least two cells, and any schedule of begins and accesses that
  -- with the size of the ring stays within 2^63: each value that a `pop` took is the one that the
  -- `push` with the same place in the order of claims put in, its place was claimed by a `pop`, and
  -- no place is taken twice.
  pub fifo : Delivered final.ring.head final.sent final.got
  fifo = delivered

  -- For a ring that `new` made of at least two cells, and any schedule that with the size of the ring
  -- stays within 2^63: the tail counts the claims of `push`, no `pop` claims a place before the
  -- `push` of it does, and at most as many places are open as the ring has cells.
  pub capacity :
      (final.ring.tail ≡ length final.sent)
      × (final.ring.head ≤ final.ring.tail)
      × (final.ring.tail ≤ final.ring.head + r.size)
  capacity = (counted, ordered, omega (arith, sized, bounded))

  -- For a ring that `new` made of at least two cells, and any schedule that with the size of the ring
  -- stays within 2^63: no thread indexes out of bounds, and none reads memory that was never written.
  pub no_fault : (i : ℕ) → final.pc i ≢ fault
  no_fault i e = ground (arith, claims i)

  -- Where a thread has the data of a cell to itself: between its exchange and its store.
  abbrev Owns : ℕ → ℕ → Type 0
  Owns i p = (pushing (final.pc i) ≡ some p) ⊎ (popping (final.pc i) ≡ some p)

  -- For a ring that `new` made of at least two cells, and any schedule that with the size of the ring
  -- stays within 2^63: two threads that are both between their exchange and their store of the
  -- sequence number never work on one cell.
  pub no_data_race : (i j p q : ℕ) → i ≢ j → Owns i p → Owns j q → p % r.size ≢ q % r.size
  no_data_race i j p q ne own own' same = ground (
    arith,
    claims i,
    claims j,
    at-same final.ring.buf (2 ^ order) p q,
    mod-gap (2 ^ order) p q,
    mod-gap (2 ^ order) q p,
    one_pusher i j p,
    one_popper i j p,
    two-le-pow order several,
    shape.sized,
    sized,
  )
