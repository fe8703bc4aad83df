-- ===== src/RingBuffer/Stores.antt =====
-- An access that writes to a cell keeps the invariant: the value of a push, and the sequence number
-- that ends a push or a pop (src/ringbuffer.rs).
use dbprimkit.Base.{ℕ, ◌≡◌, ◌≢◌, refl, List, some, arith, Bool-cases, ◌==◌, inl, inr}
use dbprimkit.RingBuffer.{
  Cell, RingBuffer, Pc, idle, push_write, push_store, push_ok, pop_store, pop_ok, put_cell,
  wrapping_add,
}
use dbprimkit.RingBuffer.Cells.{at, at-put, at-put_cases, put-IsShaped}
use dbprimkit.RingBuffer.Claims.{spot, Claim, Inv}
use dbprimkit.RingBuffer.Threads.{System, update}

-- The claims after a move of thread `i`: its own, and those of the others.
pub Claim-update :
    {A : Type 0} (r : RingBuffer A) (sent : List A) (pc : ℕ → Pc A) (i : ℕ) (p : Pc A)
    → Claim r sent p
    → ((j : ℕ) → i ≢ j → Claim r sent (pc j))
    → (j : ℕ) → Claim r sent (update pc i p j)
Claim-update r sent pc i p own others j = elim (Bool-cases (i == j)) [
  | inl same ↦ rw same own
  | inr diff ↦ rw diff (others j (ground arith))
]

module _ {A : Type 0} {k : ℕ} {s : System A} (inv : Inv k s) (i : ℕ) where
  open inv use {shape, ready, free, claims, one_pusher, one_popper, unread}

  abbrev here : ℕ → Cell A
  here t = at s.ring.buf s.ring.size t

  -- The system after thread `i` put the cell `c` at `t` and went on to `p`.
  abbrev stored : ℕ → Cell A → Pc A → System A
  stored t c p = record s { pc = update s.pc i p; ring = put_cell s.ring t c }

  write-Claim :
      (v : A) (t : ℕ)
      → s.pc i ≡ push_write v t
      → (j : ℕ) (q : Pc A) → s.pc j ≡ q
      → i ≢ j
      → Claim (stored t (record (here t) { slot = some v }) (push_store v t)).ring s.sent q
  write-Claim v t e j idle ej ne = tt
  write-Claim v t e j q ej ne = ground (
    arith,
    at-put_cases shape t (record (here t) { slot = some v }) (spot q),
    shape.sized,
    claims i,
    claims j,
    one_pusher i j t,
  )

  pub write-Inv :
      (v : A) (t : ℕ)
      → s.pc i ≡ push_write v t
      → Inv k (stored t (record (here t) { slot = some v }) (push_store v t))
  write-Inv v t e = record {
    shape = put-IsShaped shape t (record (here t) { slot = some v });
    two = inv.two;
    room = inv.room;
    counted = inv.counted;
    ordered = inv.ordered;
    bounded = inv.bounded;
    words = λ p.
        ground (arith, at-put_cases shape t (record (here t) { slot = some v }) p, inv.words p);
    ready = λ p h. ground (
      arith,
      at-put_cases shape t (record (here t) { slot = some v }) p,
      shape.sized,
      claims i,
      ready p,
    );
    free = λ p h. ground (
      arith,
      at-put_cases shape t (record (here t) { slot = some v }) p,
      shape.sized,
      claims i,
      free p,
    );
    claims =
        Claim-update (put_cell s.ring t (record (here t) { slot = some v })) s.sent s.pc i
          (push_store v t)
          (ground (arith, claims i, at-put shape t (record (here t) { slot = some v }) t))
          (λ j. write-Claim v t e j (s.pc j) refl);
    one_pusher = λ a b p x y. ground (arith, one_pusher a b p);
    one_popper = λ a b p x y. ground (arith, one_popper a b p);
    delivered = inv.delivered;
    unread = λ j h e'. ground (arith, unread j h);
  }

  store_push-Claim :
      (v : A) (t : ℕ)
      → s.pc i ≡ push_store v t
      → (j : ℕ) (q : Pc A) → s.pc j ≡ q
      → i ≢ j
      → Claim (stored t (record (here t) { seq = wrapping_add t 1 }) (push_ok)).ring s.sent q
  store_push-Claim v t e j idle ej ne = tt
  store_push-Claim v t e j q ej ne = ground (
    arith,
    at-put_cases shape t (record (here t) { seq = wrapping_add t 1 }) (spot q),
    shape.sized,
    claims i,
    claims j,
    one_pusher i j t,
  )

  pub store_push-Inv :
      (v : A) (t : ℕ)
      → s.pc i ≡ push_store v t
      → Inv k (stored t (record (here t) { seq = wrapping_add t 1 }) (push_ok))
  store_push-Inv v t e = record {
    shape = put-IsShaped shape t (record (here t) { seq = wrapping_add t 1 });
    two = inv.two;
    room = inv.room;
    counted = inv.counted;
    ordered = inv.ordered;
    bounded = inv.bounded;
    words = λ p.
        ground
          (arith, at-put_cases shape t (record (here t) { seq = wrapping_add t 1 }) p, inv.words p);
    ready = λ p h. ground (
      arith,
      at-put_cases shape t (record (here t) { seq = wrapping_add t 1 }) p,
      shape.sized,
      claims i,
      ready p,
    );
    free = λ p h. ground (
      arith,
      at-put_cases shape t (record (here t) { seq = wrapping_add t 1 }) p,
      shape.sized,
      claims i,
      free p,
    );
    claims =
        Claim-update (put_cell s.ring t (record (here t) { seq = wrapping_add t 1 })) s.sent s.pc i
          (push_ok) (tt) (λ j. store_push-Claim v t e j (s.pc j) refl);
    one_pusher = λ a b p x y. ground (arith, one_pusher a b p);
    one_popper = λ a b p x y. ground (arith, one_popper a b p);
    delivered = inv.delivered;
    unread = λ j h e'. ground (arith, unread j h);
  }

  store_pop-Claim :
      (t : ℕ) (x : A)
      → s.pc i ≡ pop_store t x
      → (j : ℕ) (q : Pc A) → s.pc j ≡ q
      → i ≢ j
      → Claim
          (stored t (record (here t) { seq = wrapping_add t s.ring.size }) (pop_ok x)).ring
          s.sent
          q
  store_pop-Claim t x e j idle ej ne = tt
  store_pop-Claim t x e j q ej ne = ground (
    arith,
    at-put_cases shape t (record (here t) { seq = wrapping_add t s.ring.size }) (spot q),
    shape.sized,
    claims i,
    claims j,
    one_popper i j t,
  )

  pub store_pop-Inv :
      (t : ℕ) (x : A)
      → s.pc i ≡ pop_store t x
      → Inv k (stored t (record (here t) { seq = wrapping_add t s.ring.size }) (pop_ok x))
  store_pop-Inv t x e = record {
    shape = put-IsShaped shape t (record (here t) { seq = wrapping_add t s.ring.size });
    two = inv.two;
    room = inv.room;
    counted = inv.counted;
    ordered = inv.ordered;
    bounded = inv.bounded;
    words = λ p. ground (
      arith,
      at-put_cases shape t (record (here t) { seq = wrapping_add t s.ring.size }) p,
      inv.words p,
    );
    ready = λ p h. ground (
      arith,
      at-put_cases shape t (record (here t) { seq = wrapping_add t s.ring.size }) p,
      shape.sized,
      claims i,
      ready p,
    );
    free = λ p h. ground (
      arith,
      at-put_cases shape t (record (here t) { seq = wrapping_add t s.ring.size }) p,
      shape.sized,
      claims i,
      free p,
    );
    claims =
        Claim-update (put_cell s.ring t (record (here t) { seq = wrapping_add t s.ring.size }))
          s.sent s.pc i (pop_ok x) (tt) (λ j. store_pop-Claim t x e j (s.pc j) refl);
    one_pusher = λ a b p x y. ground (arith, one_pusher a b p);
    one_popper = λ a b p x y. ground (arith, one_popper a b p);
    delivered = inv.delivered;
    unread = λ j h e'. ground (arith, unread j h);
  }
