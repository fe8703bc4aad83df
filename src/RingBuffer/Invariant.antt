-- ===== src/RingBuffer/Invariant.antt =====
-- The invariant holds at the start, and in every state that any schedule reaches
-- (src/ringbuffer.rs).
use native.Mathlib.Nat.{mod-lt}
use dbprimkit.Base.{
  ℕ, ◌+◌, ◌%◌, ◌^◌, ◌≤◌, ◌≡◌, ◌≢◌, ◌⊎◌, refl, Bool, true, false, List, [], ◌∷◌, none, some, arith,
  length, get_elem?, get_elem?_of_lt, ⊎-elim, inl, inr, length-append, pow-two-pos, Bool-cases,
}
use dbprimkit.RingBuffer.{
  RingBuffer, Pc, idle, push_load, push_seq, push_cas, push_write, push_store, push_ok, push_err,
  pop_load, pop_seq, pop_cas, pop_read, pop_store, pop_ok, pop_empty, fault, step, judge_push,
  judge_pop, fresh_cells, empty_ring,
}
use dbprimkit.RingBuffer.Cells.{at, at-fresh_cells, empty_ring-IsShaped}
use dbprimkit.RingBuffer.Accesses.{
  step-push_seq, step-push_write, step-push_store, step-pop_seq, step-pop_read, step-pop_store,
  step-push_cas_won, step-push_cas_lost, step-pop_cas_won, step-pop_cas_lost,
}
use dbprimkit.RingBuffer.Claims.{Claim, pushing, popping, Inv, seq_at}
use dbprimkit.RingBuffer.Threads.{
  System, Event, start_push, start_pop, act, settle, after, is_resting, note_sent, turn, run,
  started,
}
use dbprimkit.RingBuffer.Stores.{write-Inv, store_push-Inv, store_pop-Inv}
use dbprimkit.RingBuffer.Wins.{win_push-Inv, win_pop-Inv, read-Inv, quiet-Inv}

module _ {A : Type 0} {k : ℕ} {s : System A} (inv : Inv k s) (i : ℕ) (w : Bool) where
  open inv use {shape, claims, words, ready}

  -- The comparison of `push` tells whether the cell is free for `t`.
  judge_push-Claim :
      (v : A) (t : ℕ)
      → s.pc i ≡ push_seq v t
      → Claim s.ring s.sent (judge_push v t (seq_at s.ring t))
  unfolding judge_push
  judge_push-Claim v t e = ground (arith, claims i, words t)

  judge_push-quiet :
      (v : A) (t seq : ℕ)
      → (pushing (judge_push v t seq) ≡ none) × (popping (judge_push v t seq) ≡ none)
  unfolding judge_push
  judge_push-quiet v t seq = ground arith

  -- The comparison of `pop` tells whether the cell holds the value of `h`.
  judge_pop-Claim :
      (h : ℕ) → s.pc i ≡ pop_seq h → Claim s.ring s.sent (judge_pop h (seq_at s.ring h))
  unfolding judge_pop
  judge_pop-Claim h e = ground (arith, claims i, words h, inv.counted, inv.ordered, inv.room)

  judge_pop-quiet :
      (h seq : ℕ)
      → (pushing (judge_pop {A = A} h seq) ≡ none) × (popping (judge_pop {A = A} h seq) ≡ none)
  unfolding judge_pop
  judge_pop-quiet h seq = ground arith

  settled :
      (p : Pc A) (res : Pc A × RingBuffer A)
      → step w p s.ring ≡ res
      → Inv k (settle i p res s)
      → Inv k (after i w p s)
  unfolding after
  settled p res e v = rw e v

  after_push_seq : (v : A) (t : ℕ) → s.pc i ≡ push_seq v t → Inv k (after i w (push_seq v t) s)
  after_push_seq v t e =
      settled (push_seq v t) (judge_push v t (seq_at s.ring t), s.ring) (step-push_seq shape w v t)
        (quiet-Inv inv i _ (judge_push-Claim v t e) (judge_push-quiet v t _).0
          (judge_push-quiet v t _).1)

  after_pop_seq : (h : ℕ) → s.pc i ≡ pop_seq h → Inv k (after i w (pop_seq h) s)
  after_pop_seq h e =
      settled (pop_seq h) (judge_pop h (seq_at s.ring h), s.ring) (step-pop_seq shape w h)
        (quiet-Inv inv i _ (judge_pop-Claim h e) (judge_pop-quiet h _).0 (judge_pop-quiet h _).1)

  after_pop_read : (h : ℕ) → s.pc i ≡ pop_read h → Inv k (after i w (pop_read h) s)
  after_pop_read h e =
      settled (pop_read h) (pop_store h sent_here.0, s.ring)
        (step-pop_read shape w h sent_here.0 found) (read-Inv inv i h sent_here.0 e found)
    where
      sent_here : (x : A) × (get_elem? s.sent h ≡ some x)
      sent_here = get_elem?_of_lt s.sent h (ground (arith, claims i, inv.ordered, inv.counted))

      found : (at s.ring.buf s.ring.size h).slot ≡ some sent_here.0
      found = ground (arith, claims i, ready h, sent_here.1)

  -- An exchange is lost if another thread moved the counter, or for no reason.
  exchange_cases : (counter t : ℕ) → ((counter ≢ t) ⊎ (w ≡ true)) ⊎ ((counter ≡ t) × (w ≡ false))
  exchange_cases counter t = ground arith

  after_push_cas :
      (v : A) (t : ℕ)
      → s.pc i ≡ push_cas v t
      → length s.sent + 1 + 2 ^ k ≤ 2 ^ 63
      → Inv k (after i w (push_cas v t) s)
  after_push_cas v t e fits =
      ⊎-elim (exchange_cases s.ring.tail t)
        (λ lost.
          settled (push_cas v t) _ (step-push_cas_lost s.ring w v t lost)
            (quiet-Inv inv i _ (omega arith) refl refl))
        (λ won.
          settled (push_cas v t) _ (step-push_cas_won s.ring w v t won)
            (win_push-Inv inv i v t e won.0 (omega (arith, length-append s.sent (v ∷ [])))))

  after_pop_cas : (h : ℕ) → s.pc i ≡ pop_cas h → Inv k (after i w (pop_cas h) s)
  after_pop_cas h e =
      ⊎-elim (exchange_cases s.ring.head h)
        (λ lost.
          settled (pop_cas h) _ (step-pop_cas_lost s.ring w h lost)
            (quiet-Inv inv i _ (omega arith) refl refl))
        (λ won.
          settled (pop_cas h) _ (step-pop_cas_won s.ring w h won) (win_pop-Inv inv i h e won.0))

  -- One access of thread `i`, by where the thread stands.
  after-Inv : (p : Pc A) → s.pc i ≡ p → length s.sent + 1 + 2 ^ k ≤ 2 ^ 63 → Inv k (after i w p s)
  unfolding step
  after-Inv idle e fits = settled _ _ refl (quiet-Inv inv i idle tt refl refl)
  after-Inv (push_load v) e fits =
      settled _ _ refl (quiet-Inv inv i (push_seq v s.ring.tail) (omega arith) refl refl)
  after-Inv (push_seq v t) e fits = after_push_seq v t e
  after-Inv (push_cas v t) e fits = after_push_cas v t e fits
  after-Inv (push_write v t) e fits =
      settled _ _ (step-push_write shape w v t) (write-Inv inv i v t e)
  after-Inv (push_store v t) e fits =
      settled _ _ (step-push_store shape w v t) (store_push-Inv inv i v t e)
  after-Inv push_ok e fits = settled _ _ refl (quiet-Inv inv i push_ok tt refl refl)
  after-Inv (push_err v) e fits = settled _ _ refl (quiet-Inv inv i (push_err v) tt refl refl)
  after-Inv pop_load e fits =
      settled _ _ refl (quiet-Inv inv i (pop_seq s.ring.head) (omega arith) refl refl)
  after-Inv (pop_seq h) e fits = after_pop_seq h e
  after-Inv (pop_cas h) e fits = after_pop_cas h e
  after-Inv (pop_read h) e fits = after_pop_read h e
  after-Inv (pop_store h x) e fits =
      settled _ _ (step-pop_store shape w h x) (store_pop-Inv inv i h x e)
  after-Inv (pop_ok x) e fits = settled _ _ refl (quiet-Inv inv i (pop_ok x) tt refl refl)
  after-Inv pop_empty e fits = settled _ _ refl (quiet-Inv inv i pop_empty tt refl refl)
  after-Inv fault e fits = absurd (ground (arith, claims i))

-- A new ring with no thread inside satisfies the invariant, if it has at least two cells.
started-Inv :
    {A : Type 0} (k : ℕ) → 2 ≤ 2 ^ k → 2 ^ k ≤ 2 ^ 63 → Inv {A = A} k (started (empty_ring (2 ^ k)))
started-Inv {A} k two small = record {
  shape = empty_ring-IsShaped A k;
  two = two;
  room = omega arith;
  counted = refl;
  ordered = omega arith;
  bounded = omega arith;
  words = λ p. ground (arith, fresh p, mod-lt p (pow-two-pos k));
  ready = λ p e. absurd (ground (arith, fresh p, mod-le p));
  free = λ p e. ground (arith, fresh p, mod-lt p (pow-two-pos k));
  claims = λ i. tt;
  one_pusher = λ i j t e f. cc;
  one_popper = λ i j h e f. cc;
  delivered = tt;
  unread = λ i h e. cc;
}
  where
    fresh :
        (p : ℕ)
        → at {A = A} (fresh_cells 0 (2 ^ k)) (2 ^ k) p ≡ record { seq = p % 2 ^ k; slot = none }
    fresh p = at-fresh_cells (2 ^ k) p (pow-two-pos k)

    mod-le : (p : ℕ) → p % 2 ^ k ≤ p
    mod-le p = omega arith

-- Every access, and every begin of a call, keeps the invariant.
pub turn-Inv :
    {A : Type 0} {k : ℕ} {s : System A} (e : Event A)
    → Inv k s
    → length s.sent + 1 + 2 ^ k ≤ 2 ^ 63
    → Inv k (turn e s)
unfolding turn
turn-Inv {s = s} (start_push i v) inv fits = elim (Bool-cases (is_resting (s.pc i))) [
  | inl rest ↦ rw rest (quiet-Inv inv i (push_load v) tt refl refl)
  | inr busy ↦ rw busy inv
]
turn-Inv {s = s} (start_pop i) inv fits = elim (Bool-cases (is_resting (s.pc i))) [
  | inl rest ↦ rw rest (quiet-Inv inv i pop_load tt refl refl)
  | inr busy ↦ rw busy inv
]
turn-Inv {s = s} (act i w) inv fits = after-Inv inv i w (s.pc i) refl fits

-- One event claims at most one position.
length-note_sent : {A : Type 0} (p q : Pc A) (l : List A) → length (note_sent p q l) ≤ length l + 1
length-note_sent (push_cas v t) (push_write u t') l = omega (arith, length-append l (v ∷ []))
length-note_sent p q l = omega arith

length-sent-turn :
    {A : Type 0} (e : Event A) (s : System A) → length (turn e s).sent ≤ length s.sent + 1
unfolding turn after
length-sent-turn (start_push i v) s = ground arith
length-sent-turn (start_pop i) s = ground arith
length-sent-turn (act i w) s = length-note_sent (s.pc i) (step w (s.pc i) s.ring).0 s.sent

pub run-Inv :
    {A : Type 0} {k : ℕ} (es : List (Event A)) {s : System A}
    → Inv k s
    → length s.sent + length es + 2 ^ k ≤ 2 ^ 63
    → Inv k (run es s)
unfolding run
run-Inv [] inv fits = inv
run-Inv (e ∷ es) {s} inv fits =
    run-Inv es (turn-Inv e inv (omega arith)) (omega (arith, length-sent-turn e s))

pub run-started-Inv :
    {A : Type 0} (k : ℕ) (es : List (Event A))
    → 2 ≤ 2 ^ k
    → length es + 2 ^ k ≤ 2 ^ 63
    → Inv k (run es (started (empty_ring (2 ^ k))))
run-started-Inv k es two fits = run-Inv es (started-Inv k two (omega arith)) (omega arith)
