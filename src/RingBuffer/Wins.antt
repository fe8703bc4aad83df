-- ===== src/RingBuffer/Wins.antt =====
-- An access that claims a position, or reads what a claimed position holds, keeps the invariant
-- (src/ringbuffer.rs).
use dbprimkit.Base.{
  ℕ, ◌+◌, ◌^◌, ◌≤◌, ◌≡◌, ◌≢◌, refl, List, [], ◌∷◌, ◌++◌, none, some, arith, length,
  get_elem?-append_of_lt, get_elem?-append_length, length-append,
}
use dbprimkit.RingBuffer.{
  Pc, idle, push_cas, push_write, pop_cas, pop_read, pop_store, wrapping_add,
}
use dbprimkit.RingBuffer.Cells.{at, moved-IsShaped}
use dbprimkit.RingBuffer.Claims.{spot, pushing, popping, Claim, NotIn, Delivered, Inv}
use dbprimkit.RingBuffer.Threads.{System, update}
use dbprimkit.RingBuffer.Stores.{Claim-update}

module _ {A : Type 0} where
  Delivered-mono :
      (h h' : ℕ) (sent : List A) (l : List (ℕ × A))
      → h ≤ h'
      → Delivered h sent l
      → Delivered h' sent l
  Delivered-mono h h' sent [] le d = tt
  Delivered-mono h h' sent ((j, x) ∷ l) le d = ground (arith, Delivered-mono h h' sent l)

  Delivered-append :
      (h : ℕ) (sent ys : List A) (l : List (ℕ × A))
      → h ≤ length sent
      → Delivered h sent l
      → Delivered h (sent ++ ys) l
  Delivered-append h sent ys [] room d = tt
  Delivered-append h sent ys ((j, x) ∷ l) room d =
      ground (arith, get_elem?-append_of_lt sent ys j, Delivered-append h sent ys l)

  -- A position that is yet to be claimed is in no entry.
  NotIn-of_le :
      (h p : ℕ) (sent : List A) (l : List (ℕ × A)) → Delivered h sent l → h ≤ p → NotIn p l
  NotIn-of_le h p sent [] d le = tt
  NotIn-of_le h p sent ((j, x) ∷ l) d le = ground (arith, NotIn-of_le h p sent l)

module _ {A : Type 0} {k : ℕ} {s : System A} (inv : Inv k s) (i : ℕ) where
  open inv use {
    shape, counted, room, ordered, bounded, ready, free, claims, one_pusher, one_popper, delivered,
    unread,
  }

  -- The exchange of `push` at the tail `t` succeeds.
  module _ (v : A) (t : ℕ) (at_cas : s.pc i ≡ push_cas v t) (won : s.ring.tail ≡ t)
      (fits : length (s.sent ++ (v ∷ [])) + 2 ^ k ≤ 2 ^ 63) where
    abbrev pushed : System A
    pushed = record {
      ring = record s.ring { tail = wrapping_add t 1 };
      pc = update s.pc i (push_write v t);
      sent = s.sent ++ (v ∷ []);
      got = s.got;
    }

    win_push-Claim : (j : ℕ) (q : Pc A) → s.pc j ≡ q → i ≢ j → Claim pushed.ring pushed.sent q
    win_push-Claim j idle ej ne = tt
    win_push-Claim j q ej ne = ground (
      arith,
      claims j,
      length-append s.sent (v ∷ []),
      get_elem?-append_of_lt s.sent (v ∷ []) (spot q),
    )

    pub win_push-Inv : Inv k pushed
    win_push-Inv = record {
      shape = moved-IsShaped shape _ _;
      two = inv.two;
      room = fits;
      counted = ground (arith, length-append s.sent (v ∷ []));
      ordered = ground (arith, length-append s.sent (v ∷ []));
      bounded = ground (arith, length-append s.sent (v ∷ []), claims i, free t);
      words = inv.words;
      ready = λ p h.
          ground (
            arith,
            length-append s.sent (v ∷ []),
            ready p,
            get_elem?-append_of_lt s.sent (v ∷ []) p,
          );
      free = free;
      claims =
          Claim-update pushed.ring pushed.sent s.pc i (push_write v t)
            (ground
              (arith, claims i, length-append s.sent (v ∷ []), get_elem?-append_length s.sent v))
            (λ j. win_push-Claim j (s.pc j) refl);
      one_pusher = λ a b p x y. ground (arith, one_pusher a b p, claims a, claims b);
      one_popper = λ a b p x y. ground (arith, one_popper a b p);
      delivered = Delivered-append s.ring.head s.sent (v ∷ []) s.got (omega arith) delivered;
      unread = λ j h e. ground (arith, unread j h);
    }

  -- The exchange of `pop` at the head `h` succeeds.
  module _ (h : ℕ) (at_cas : s.pc i ≡ pop_cas h) (won : s.ring.head ≡ h) where
    abbrev popped : System A
    popped = record s {
      ring = record s.ring { head = wrapping_add h 1 };
      pc = update s.pc i (pop_read h);
    }

    win_pop-Claim : (j : ℕ) (q : Pc A) → s.pc j ≡ q → i ≢ j → Claim popped.ring s.sent q
    win_pop-Claim j idle ej ne = tt
    win_pop-Claim j q ej ne = ground (arith, claims j)

    pub win_pop-Inv : Inv k popped
    win_pop-Inv = record {
      shape = moved-IsShaped shape _ _;
      two = inv.two;
      room = room;
      counted = counted;
      ordered = ground (arith, claims i, ready h);
      bounded = omega arith;
      words = inv.words;
      ready = ready;
      free = λ p e. omega (arith, free p e);
      claims =
          Claim-update popped.ring s.sent s.pc i (pop_read h) (ground (arith, claims i))
            (λ j. win_pop-Claim j (s.pc j) refl);
      one_pusher = λ a b p x y. ground (arith, one_pusher a b p);
      one_popper = λ a b p x y. ground (arith, one_popper a b p, claims a, claims b);
      delivered =
          Delivered-mono s.ring.head (wrapping_add h 1) s.sent s.got (omega arith) delivered;
      unread =
          λ j p e. ground (arith, unread j p, NotIn-of_le s.ring.head p s.sent s.got delivered);
    }

  -- The owner of a claimed position reads the value that was sent there.
  module _ (h : ℕ) (x : A) (at_read : s.pc i ≡ pop_read h)
      (found : (at s.ring.buf s.ring.size h).slot ≡ some x) where
    pub read-Inv : Inv k (record s { pc = update s.pc i (pop_store h x); got = (h, x) ∷ s.got })
    read-Inv = record {
      shape = shape;
      two = inv.two;
      room = room;
      counted = counted;
      ordered = ordered;
      bounded = bounded;
      words = inv.words;
      ready = ready;
      free = free;
      claims =
          Claim-update s.ring s.sent s.pc i (pop_store h x) (ground (arith, claims i, ready h))
            (λ j _. claims j);
      one_pusher = λ a b p e f. ground (arith, one_pusher a b p);
      one_popper = λ a b p e f. ground (arith, one_popper a b p);
      delivered = ground (arith, claims i, ready h, unread i h);
      unread = λ j p e. ground (arith, unread j p, one_popper i j h);
    }

  -- Nothing changes but where the thread stands, and it holds no position.
  pub quiet-Inv :
      (p : Pc A)
      → Claim s.ring s.sent p
      → pushing p ≡ none
      → popping p ≡ none
      → Inv k (record s { pc = update s.pc i p })
  quiet-Inv p c no_push no_pop = record {
    shape = shape;
    two = inv.two;
    room = room;
    counted = counted;
    ordered = ordered;
    bounded = bounded;
    words = inv.words;
    ready = ready;
    free = free;
    claims = Claim-update s.ring s.sent s.pc i p c (λ j _. claims j);
    one_pusher = λ a b t e f. ground (arith, one_pusher a b t);
    one_popper = λ a b t e f. ground (arith, one_popper a b t);
    delivered = delivered;
    unread = λ j h e. ground (arith, unread j h);
  }
