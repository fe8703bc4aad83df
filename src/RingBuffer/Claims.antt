-- ===== src/RingBuffer/Claims.antt =====
-- What each thread may rely on between two of its accesses, and the invariant of the whole system
-- (src/ringbuffer.rs).
use dbprimkit.Base.{
  ℕ, ◌+◌, ◌^◌, ◌≤◌, ◌<◌, ◌≡◌, ◌≢◌, List, [], ◌∷◌, Option, none, some, length, get_elem?,
}
use dbprimkit.RingBuffer.{
  RingBuffer, Pc, push_seq, push_cas, push_write, push_store, pop_seq, pop_cas, pop_read, pop_store,
  fault,
}
use dbprimkit.RingBuffer.Cells.{IsShaped, at}
use dbprimkit.RingBuffer.Threads.{System}

module _ {A : Type 0} where
  abbrev pub seq_at : RingBuffer A → ℕ → ℕ
  seq_at r p = (at r.buf r.size p).seq

  -- The position that a thread owns after it won the exchange.
  abbrev pub pushing : Pc A → Option ℕ
  pushing (push_write v t) = some t
  pushing (push_store v t) = some t
  pushing _ = none

  abbrev pub popping : Pc A → Option ℕ
  popping (pop_read h) = some h
  popping (pop_store h x) = some h
  popping _ = none

  -- The position that a thread has in hand.
  abbrev pub spot : Pc A → ℕ
  spot (push_cas v t) = t
  spot (push_write v t) = t
  spot (push_store v t) = t
  spot (pop_cas h) = h
  spot (pop_read h) = h
  spot (pop_store h x) = h
  spot _ = 0

  abbrev pub Claim : RingBuffer A → List A → Pc A → Type 0
  Claim r sent (push_seq v t) = t ≤ r.tail
  Claim r sent (push_cas v t) = (t ≤ r.tail) × (r.tail ≡ t → seq_at r t ≡ t)
  Claim r sent (push_write v t) = (t < r.tail) × (seq_at r t ≡ t) × (get_elem? sent t ≡ some v)
  Claim r sent (push_store v t) =
      (t < r.tail)
      × (seq_at r t ≡ t)
      × (get_elem? sent t ≡ some v)
      × ((at r.buf r.size t).slot ≡ some v)
  Claim r sent (pop_seq h) = h ≤ r.head
  Claim r sent (pop_cas h) = (h ≤ r.head) × (r.head ≡ h → seq_at r h ≡ h + 1)
  Claim r sent (pop_read h) = (h < r.head) × (seq_at r h ≡ h + 1)
  Claim r sent (pop_store h x) = (h < r.head) × (seq_at r h ≡ h + 1) × (get_elem? sent h ≡ some x)
  Claim r sent fault = ⊥
  Claim r sent _ = Unit

  -- No entry of the list stands for position `h`.
  abbrev pub NotIn : ℕ → List (ℕ × A) → Type 0
  NotIn h [] = Unit
  NotIn h ((j, x) ∷ l) = (h ≢ j) × NotIn h l

  -- Each delivery is of a position that was claimed, gave the value sent there, and is the only one
  -- of that position.
  abbrev pub Delivered : ℕ → List A → List (ℕ × A) → Type 0
  Delivered head sent [] = Unit
  Delivered head sent ((h, x) ∷ l) =
      (h < head) × (get_elem? sent h ≡ some x) × NotIn h l × Delivered head sent l

  pub record Inv (k : ℕ) (s : System A) : Type 0 where
    pub shape : IsShaped k s.ring
    pub two : 2 ≤ 2 ^ k
    pub room : length s.sent + 2 ^ k ≤ 2 ^ 63
    pub counted : s.ring.tail ≡ length s.sent
    pub ordered : s.ring.head ≤ s.ring.tail
    pub bounded : s.ring.tail ≤ s.ring.head + 2 ^ k
    pub words : (p : ℕ) → seq_at s.ring p < 2 ^ 64
    pub ready :
        (p : ℕ)
        → seq_at s.ring p ≡ p + 1
        → (p < s.ring.tail) × ((at s.ring.buf s.ring.size p).slot ≡ get_elem? s.sent p)
    pub free : (p : ℕ) → seq_at s.ring p ≡ p → p < s.ring.head + 2 ^ k
    pub claims : (i : ℕ) → Claim s.ring s.sent (s.pc i)
    pub one_pusher : (i j t : ℕ) → pushing (s.pc i) ≡ some t → pushing (s.pc j) ≡ some t → i ≡ j
    pub one_popper : (i j h : ℕ) → popping (s.pc i) ≡ some h → popping (s.pc j) ≡ some h → i ≡ j
    pub delivered : Delivered s.ring.head s.sent s.got
    pub unread : (i h : ℕ) → s.pc i ≡ pop_read h → NotIn h s.got
