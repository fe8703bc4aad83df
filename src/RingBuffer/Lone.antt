-- ===== src/RingBuffer/Lone.antt =====
-- A call of `push` or `pop` (src/ringbuffer.rs) that no other thread disturbs: five accesses, with
-- the answer and the ring of `push_for_sp` and `pop_for_sc`.
use dbprimkit.Base.{
  ℕ, ◌+◌, ◌^◌, ◌<◌, ◌≡◌, refl, Bool, false, List, [], ◌∷◌, Option, none, some, arith, length,
  set-set, ltb, ltb→lt, Bool-cases, inl, inr,
}
use dbprimkit.Error.{ok}
use dbprimkit.RingBuffer.{
  RingBuffer, Pushed, accepted, rejected, Pc, push_load, push_cas, push_ok, push_err, pop_load,
  pop_cas, pop_ok, pop_empty, step, judge_push, judge_pop, put_cell, wrapping_add, push_for_sp,
  pop_for_sc,
}
use dbprimkit.RingBuffer.Cells.{IsShaped, at, at-put, put-IsShaped, moved-IsShaped}
use dbprimkit.RingBuffer.Accesses.{
  step-push_seq, step-push_write, step-push_store, step-pop_seq, step-pop_read, step-pop_store,
  step-push_cas_won, step-pop_cas_won, step-push_load, step-pop_load, step-push_err, step-pop_empty,
}
use dbprimkit.RingBuffer.Alone.{
  Holds, put, taken, put-Holds, push_for_sp-room, push_for_sp-full, pop_for_sc-empty,
  pop_for_sc-some, taken-Holds, tail-full, head-seq, head-slot,
}
use dbprimkit.RingBuffer.Queue

abbrev pub five : List Bool
five = false ∷ false ∷ false ∷ false ∷ false ∷ []

module _ {A : Type 0} where
  -- The accesses of one thread, with a flag for each that says whether an exchange fails spuriously.
  unfoldable pub solo : List Bool → Pc A → RingBuffer A → Pc A × RingBuffer A
  solo [] p r = (p, r)
  solo (w ∷ ws) p r = let (p', r') = step w p r in solo ws p' r'

  -- Where a call of `push` or `pop` ends, by its answer.
  abbrev pub push_answer : Pushed A → Pc A
  push_answer accepted = push_ok
  push_answer (rejected v) = push_err v

  abbrev pub pop_answer : Option A → Pc A
  pop_answer none = pop_empty
  pop_answer (some x) = pop_ok x

module _ {A : Type 0} {k : ℕ} {r : RingBuffer A} {q : List A} (h : Holds k r q) (v : A) where
  open h use {shape, two, words, counted, bounded, filled, vacant}

  abbrev claimed : RingBuffer A
  claimed = record r { tail = wrapping_add r.tail 1 }

  claimed-IsShaped : IsShaped k claimed
  claimed-IsShaped = moved-IsShaped shape r.head (wrapping_add r.tail 1)

  abbrev written : RingBuffer A
  written = put_cell claimed r.tail (record (at r.buf r.size r.tail) { slot = some v })

  written-here : at written.buf r.size r.tail ≡ record (at r.buf r.size r.tail) { slot = some v }
  written-here =
      ground (arith, at-put shape r.tail (record (at r.buf r.size r.tail) { slot = some v }) r.tail)

  written-IsShaped : IsShaped k written
  written-IsShaped =
      put-IsShaped claimed-IsShaped r.tail (record (at r.buf r.size r.tail) { slot = some v })

  stored-eq-put :
      put_cell written r.tail
        (record (at written.buf r.size r.tail) { seq = wrapping_add r.tail 1 })
      ≡ put h v
  stored-eq-put = rw (written-here, set-set)

  free_seq : length q < 2 ^ k → judge_push v r.tail (at r.buf r.size r.tail).seq ≡ push_cas v r.tail
  unfolding judge_push
  free_seq room = ground (arith, vacant r.tail)

  full_seq : length q ≡ 2 ^ k → judge_push v r.tail (at r.buf r.size r.tail).seq ≡ push_err v
  unfolding judge_push
  full_seq full = ground (arith, tail-full h full, filled 0)

  lone_push-room : length q < 2 ^ k → solo five (push_load v) r ≡ (push_ok, put h v)
  unfolding solo
  lone_push-room room = rw (
    step-push_load r false v,
    step-push_seq shape false v r.tail,
    free_seq room,
    step-push_cas_won r false v r.tail (refl, refl),
    step-push_write claimed-IsShaped false v r.tail,
    step-push_store written-IsShaped false v r.tail,
    stored-eq-put,
  )

  lone_push-full : length q ≡ 2 ^ k → solo five (push_load v) r ≡ (push_err v, r)
  unfolding solo
  lone_push-full full = rw (
    step-push_load r false v,
    step-push_seq shape false v r.tail,
    full_seq full,
    step-push_err r false v,
    step-push_err r false v,
    step-push_err r false v,
  )

  -- On a ring of at least two cells that holds `q`: an undisturbed `push` ends after at most five
  -- accesses with the answer of the bounded queue, `push_for_sp` gives the same answer and the same
  -- ring, and that ring holds what the queue then is.
  pub lone_push_refines :
      let (answer, q') = Queue.push (2 ^ k) q v in
      (r' : RingBuffer A) × (solo five (push_load v) r ≡ (push_answer answer, r'))
      × (push_for_sp r v ≡ ok (answer, r'))
      × Holds k r' q'
  unfolding Queue.push
  lone_push_refines = elim (Bool-cases (ltb (length q) (2 ^ k))) [
    | inl room ↦
        let lt = ltb→lt _ _ room in
        rw room (put h v, lone_push-room lt, push_for_sp-room h v lt, put-Holds h v lt)
    | inr full ↦
        let eq : length q ≡ 2 ^ k = ground arith in
        rw full (r, lone_push-full eq, push_for_sp-full h v eq, h)
  ]

module _ {A : Type 0} {k : ℕ} {r : RingBuffer A} where
  empty_seq : Holds k r [] → judge_pop {A = A} r.head (at r.buf r.size r.head).seq ≡ pop_empty
  unfolding judge_pop
  empty_seq h = ground (arith, h.two, h.words, h.counted, h.vacant r.head)

  pub lone_pop-empty : Holds k r [] → solo five pop_load r ≡ (pop_empty, r)
  unfolding solo
  lone_pop-empty h = rw (
    step-pop_load r false,
    step-pop_seq h.shape false r.head,
    empty_seq h,
    step-pop_empty r false,
    step-pop_empty r false,
    step-pop_empty r false,
  )

  module _ {x : A} {q : List A} (h : Holds k r (x ∷ q)) where
    abbrev left : RingBuffer A
    left = record r { head = wrapping_add r.head 1 }

    filled_seq : judge_pop {A = A} r.head (at r.buf r.size r.head).seq ≡ pop_cas r.head
    unfolding judge_pop
    filled_seq = ground (arith, head-seq h, h.words)

    pub lone_pop-some : solo five pop_load r ≡ (pop_ok x, taken r)
    unfolding solo
    lone_pop-some = rw (
      step-pop_load r false,
      step-pop_seq h.shape false r.head,
      filled_seq,
      step-pop_cas_won r false r.head (refl, refl),
      step-pop_read (moved-IsShaped h.shape (wrapping_add r.head 1) r.tail) false r.head x
          (head-slot h),
      step-pop_store (moved-IsShaped h.shape (wrapping_add r.head 1) r.tail) false r.head x,
    )

-- On a ring of at least two cells that holds `q`, whose counters are not yet used up: an undisturbed
-- `pop` ends after at most five accesses with the answer of the queue, `pop_for_sc` gives the same
-- answer and the same ring, and that ring holds the rest of the queue.
pub lone_pop_refines :
    {A : Type 0} {k : ℕ} {r : RingBuffer A} (q : List A)
    → Holds k r q
    → r.head + 1 + 2 ^ k < 2 ^ 63
    → let (answer, q') = Queue.pop q in
      (r' : RingBuffer A) × (solo five pop_load r ≡ (pop_answer answer, r'))
      × (pop_for_sc r ≡ ok (answer, r'))
      × Holds k r' q'
unfolding Queue.pop
lone_pop_refines {r = r} [] h small = (r, lone_pop-empty h, pop_for_sc-empty h, h)
lone_pop_refines {r = r} (x ∷ q) h small =
    (taken r, lone_pop-some h, pop_for_sc-some h, taken-Holds h small)
