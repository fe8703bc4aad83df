-- ===== src/RingBuffer/Accesses.antt =====
-- The atomic accesses of `push` and `pop` on a ring of the right shape: the cell is always there
-- (src/ringbuffer.rs).
use dbprimkit.Base.{ℕ, ◌≡◌, ◌≢◌, ◌⊎◌, refl, Bool, true, false, some, arith}
use dbprimkit.RingBuffer.{
  Cell, RingBuffer, push_load, push_err, pop_load, pop_empty, push_seq, push_cas, push_write,
  push_store, push_ok, pop_seq, pop_cas, pop_read, pop_store, pop_ok, step, judge_push, judge_pop,
  put_cell, wrapping_add,
}
use dbprimkit.RingBuffer.Cells.{IsShaped, at, cell-at}

module _ {A : Type 0} {k : ℕ} {r : RingBuffer A} (shape : IsShaped k r) (w : Bool) where
  abbrev here : ℕ → Cell A
  here t = at r.buf r.size t

  pub step-push_seq : (v : A) (t : ℕ) → step w (push_seq v t) r ≡ (judge_push v t (here t).seq, r)
  unfolding step
  step-push_seq v t = rw (cell-at shape t, step)

  pub step-push_write :
      (v : A) (t : ℕ)
      → step w (push_write v t) r
        ≡ (push_store v t, put_cell r t (record (here t) { slot = some v }))
  unfolding step
  step-push_write v t = rw (cell-at shape t, step)

  pub step-push_store :
      (v : A) (t : ℕ)
      → step w (push_store v t) r
        ≡ (push_ok, put_cell r t (record (here t) { seq = wrapping_add t 1 }))
  unfolding step
  step-push_store v t = rw (cell-at shape t, step)

  pub step-pop_seq : (h : ℕ) → step w (pop_seq h) r ≡ (judge_pop h (here h).seq, r)
  unfolding step
  step-pop_seq h = rw (cell-at shape h, step)

  pub step-pop_read :
      (h : ℕ) (x : A) → (here h).slot ≡ some x → step w (pop_read h) r ≡ (pop_store h x, r)
  unfolding step
  step-pop_read h x e = rw (cell-at shape h, e, step)

  pub step-pop_store :
      (h : ℕ) (x : A)
      → step w (pop_store h x) r
        ≡ (pop_ok x, put_cell r h (record (here h) { seq = wrapping_add h r.size }))
  unfolding step
  step-pop_store h x = rw (cell-at shape h, step)

module _ {A : Type 0} (r : RingBuffer A) where
  pub step-push_cas_won :
      (w : Bool) (v : A) (t : ℕ)
      → (r.tail ≡ t) × (w ≡ false)
      → step w (push_cas v t) r ≡ (push_write v t, record r { tail = wrapping_add t 1 })
  unfolding step
  step-push_cas_won w v t e = ground arith

  pub step-push_cas_lost :
      (w : Bool) (v : A) (t : ℕ)
      → (r.tail ≢ t) ⊎ (w ≡ true)
      → step w (push_cas v t) r ≡ (push_seq v r.tail, r)
  unfolding step
  step-push_cas_lost w v t e = ground arith

  pub step-pop_cas_won :
      (w : Bool) (h : ℕ)
      → (r.head ≡ h) × (w ≡ false)
      → step w (pop_cas h) r ≡ (pop_read h, record r { head = wrapping_add h 1 })
  unfolding step
  step-pop_cas_won w h e = ground arith

  pub step-pop_cas_lost :
      (w : Bool) (h : ℕ) → (r.head ≢ h) ⊎ (w ≡ true) → step w (pop_cas h) r ≡ (pop_seq r.head, r)
  unfolding step
  step-pop_cas_lost w h e = ground arith

  pub step-push_load : (w : Bool) (v : A) → step w (push_load v) r ≡ (push_seq v r.tail, r)
  unfolding step
  step-push_load w v = refl

  pub step-pop_load : (w : Bool) → step w pop_load r ≡ (pop_seq r.head, r)
  unfolding step
  step-pop_load w = refl

  pub step-push_err : (w : Bool) (v : A) → step w (push_err v) r ≡ (push_err v, r)
  unfolding step
  step-push_err w v = refl

  pub step-pop_empty : (w : Bool) → step w pop_empty r ≡ (pop_empty, r)
  unfolding step
  step-pop_empty w = refl
