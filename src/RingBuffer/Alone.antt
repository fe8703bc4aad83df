-- ===== src/RingBuffer/Alone.antt =====
-- `push_for_sp`, `pop_for_sc` and `len` of src/ringbuffer.rs against the queue that the ring holds.
use native.Mathlib.Nat.{add-mod_right, mod-eq_of_lt}
use dbprimkit.Base.{
  ℕ, suc, ◌+◌, ◌^◌, ◌≤◌, ◌<◌, ◌≡◌, refl, List, [], ◌∷◌, ◌++◌, none, some, arith, length, get_elem?,
  length-append, get_elem?-append_of_lt, get_elem?-append_length,
}
use dbprimkit.Error.{ok}
use dbprimkit.RingBuffer.{
  Cell, RingBuffer, accepted, rejected, push_for_sp, pop_for_sc, len, put_cell, wrapping_add,
  empty_ring,
}
use dbprimkit.RingBuffer.Cells.{
  IsShaped, at, at-same, cell-at, at-put, at-put_cases, put-IsShaped, moved-IsShaped,
  empty_ring-IsShaped, at-fresh_cells,
}

-- The ring `r` of `2 ^ k` cells holds the values `q`, and no call is under way.
pub record Holds {A : Type 0} (k : ℕ) (r : RingBuffer A) (q : List A) : Type 0 where
  pub shape : IsShaped k r
  pub two : 2 ≤ 2 ^ k
  pub words : r.head + 2 ^ k < 2 ^ 63
  pub counted : r.tail ≡ r.head + length q
  pub bounded : length q ≤ 2 ^ k
  pub filled :
      (j : ℕ)
      → j < length q
      → ((at r.buf r.size (r.head + j)).seq ≡ r.head + j + 1)
        × ((at r.buf r.size (r.head + j)).slot ≡ get_elem? q j)
  pub vacant : (p : ℕ) → r.tail ≤ p → p < r.head + 2 ^ k → (at r.buf r.size p).seq ≡ p

module _ {A : Type 0} {k : ℕ} {r : RingBuffer A} {q : List A} (h : Holds k r q) where
  open h use {shape, two, words, counted, bounded, filled, vacant}

  abbrev pub stamped : A → Cell A
  stamped v = record { seq = wrapping_add r.tail 1; slot = some v }

  abbrev pub put : A → RingBuffer A
  put v = record (put_cell r r.tail (stamped v)) { tail = wrapping_add r.tail 1 }

  pub push_for_sp-room : (v : A) → length q < 2 ^ k → push_for_sp r v ≡ ok (accepted, put v)
  unfolding push_for_sp
  push_for_sp-room v room = rw (cell-at shape r.tail, push_for_sp) (ground (arith, vacant r.tail))

  put-filled :
      (v : A) (j : ℕ)
      → length q < 2 ^ k
      → j < length q + 1
      → ((at (put_cell r r.tail (stamped v)).buf r.size (r.head + j)).seq ≡ r.head + j + 1)
        × ((at (put_cell r r.tail (stamped v)).buf r.size (r.head + j)).slot
            ≡ get_elem? (q ++ (v ∷ [])) j)
  put-filled v j room lt = ground (
    arith,
    at-put_cases shape r.tail (stamped v) (r.head + j),
    filled j,
    get_elem?-append_of_lt q (v ∷ []) j,
    get_elem?-append_length q v,
  )

  pub put-Holds : (v : A) → length q < 2 ^ k → Holds k (put v) (q ++ (v ∷ []))
  put-Holds v room = record {
    shape = moved-IsShaped (put-IsShaped shape r.tail (stamped v)) r.head (wrapping_add r.tail 1);
    two = two;
    words = words;
    counted = omega (arith, length-append q (v ∷ []));
    bounded = omega (arith, length-append q (v ∷ []));
    filled = λ j lt. put-filled v j room (omega (arith, length-append q (v ∷ [])));
    vacant = λ p a b. ground (arith, at-put_cases shape r.tail (stamped v) p, vacant p);
  }

  -- The cell at the tail of a full ring is that of the head.
  pub tail-full : length q ≡ 2 ^ k → at r.buf r.size r.tail ≡ at r.buf r.size r.head
  tail-full full =
      at-same r.buf r.size r.tail r.head (ground (arith, shape.sized, add-mod_right r.head (2 ^ k)))

  pub push_for_sp-full : (v : A) → length q ≡ 2 ^ k → push_for_sp r v ≡ ok (rejected v, r)
  unfolding push_for_sp
  push_for_sp-full v full =
      rw (cell-at shape r.tail, push_for_sp) (ground (arith, tail-full full, filled 0))

  -- `len` is the number of values held.
  pub len-eq-length : len r ≡ length q
  unfolding len
  len-eq-length = omega (arith, shape.sized)

-- The cell and the ring after the value at the head was taken.
abbrev pub released : {A : Type 0} → RingBuffer A → Cell A
released r = record (at r.buf r.size r.head) { seq = wrapping_add r.head r.size }

abbrev pub taken : {A : Type 0} → RingBuffer A → RingBuffer A
taken r = record (put_cell r r.head (released r)) { head = wrapping_add r.head 1 }

module _ {A : Type 0} {k : ℕ} {r : RingBuffer A} where
  pub pop_for_sc-empty : Holds k r [] → pop_for_sc r ≡ ok (none, r)
  unfolding pop_for_sc
  pop_for_sc-empty h =
      rw (cell-at h.shape r.head, pop_for_sc)
        (ground (arith, h.two, h.words, h.counted, h.vacant r.head))

  module _ {x : A} {q : List A} (h : Holds k r (x ∷ q)) where
    pub head-seq : (at r.buf r.size r.head).seq ≡ r.head + 1
    head-seq = ground (arith, h.filled 0)

    pub head-slot : (at r.buf r.size r.head).slot ≡ some x
    head-slot = ground (arith, h.filled 0)

    pub pop_for_sc-some : pop_for_sc r ≡ ok (some x, taken r)
    unfolding pop_for_sc
    pop_for_sc-some =
        rw (cell-at h.shape r.head, pop_for_sc)
          (ground (arith, head-seq, head-slot, h.words, h.two))

    taken-filled :
        (j : ℕ)
        → j < length q
        → ((at (put_cell r r.head (released r)).buf r.size (r.head + 1 + j)).seq
            ≡ r.head + 1 + j + 1)
          × ((at (put_cell r r.head (released r)).buf r.size (r.head + 1 + j)).slot ≡ get_elem? q j)
    taken-filled j lt = ground (
      arith,
      at-put_cases h.shape r.head (released r) (r.head + 1 + j),
      h.filled (suc j),
      h.bounded,
    )

    taken-vacant :
        (p : ℕ)
        → r.tail ≤ p
        → p < r.head + 1 + 2 ^ k
        → (at (put_cell r r.head (released r)).buf r.size p).seq ≡ p
    taken-vacant p a b = ground (
      arith,
      at-put_cases h.shape r.head (released r) p,
      at-put h.shape r.head (released r) p,
      add-mod_right r.head r.size,
      h.vacant p,
      h.counted,
      h.words,
      h.shape.sized,
    )

    pub taken-Holds : r.head + 1 + 2 ^ k < 2 ^ 63 → Holds k (taken r) q
    taken-Holds small = record {
      shape =
          moved-IsShaped (put-IsShaped h.shape r.head (released r)) (wrapping_add r.head 1) r.tail;
      two = h.two;
      words = omega arith;
      counted = omega (arith, h.counted);
      bounded = omega (arith, h.bounded);
      filled = λ j lt. ground (arith, taken-filled j lt);
      vacant = λ p a b. taken-vacant p a (omega (arith, h.words));
    }

-- A new ring of at least two cells holds nothing.
pub empty_ring-Holds :
    {A : Type 0} (k : ℕ) → 2 ≤ 2 ^ k → 2 ^ k < 2 ^ 63 → Holds {A = A} k (empty_ring (2 ^ k)) []
empty_ring-Holds {A} k two small = record {
  shape = empty_ring-IsShaped A k;
  two = two;
  words = omega arith;
  counted = refl;
  bounded = omega arith;
  filled = λ j lt. absurd (omega arith);
  vacant =
      λ p a b. ground (arith, at-fresh_cells {A = A} (2 ^ k) p, mod-eq_of_lt {n = p} {m = 2 ^ k});
}
