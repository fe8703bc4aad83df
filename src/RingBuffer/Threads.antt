-- ===== src/RingBuffer/Threads.antt =====
-- Any number of threads that call `push` and `pop` of one ring, in any interleaving of their atomic
-- accesses (src/ringbuffer.rs). Two ghost lists record the values in the order in which their
-- positions were claimed, and what each claimed position delivered.
use dbprimkit.Base.{ℕ, Bool, true, false, List, [], ◌∷◌, ◌++◌, ◌==◌, if◌then◌else◌}
use dbprimkit.RingBuffer.{
  RingBuffer, Pc, idle, push_load, push_cas, push_write, push_ok, push_err, pop_load, pop_read,
  pop_store, pop_ok, pop_empty, step,
}

pub record System {ℓ} (A : Type ℓ) : Type ℓ where
  pub ring : RingBuffer A
  pub pc : ℕ → Pc A
  pub sent : List A
  pub got : List (ℕ × A)

-- A thread begins a call, or makes its next access.
pub data Event {ℓ} (A : Type ℓ) : Type ℓ where
  start_push : ℕ → A → Event A
  start_pop : ℕ → Event A
  act : ℕ → Bool → Event A

module _ {ℓ} {A : Type ℓ} where
  abbrev pub update : (ℕ → Pc A) → ℕ → Pc A → ℕ → Pc A
  update f i p j = if i == j then p else f j

  -- A thread that is not in the middle of a call.
  abbrev pub is_resting : Pc A → Bool
  is_resting idle = true
  is_resting push_ok = true
  is_resting (push_err v) = true
  is_resting (pop_ok x) = true
  is_resting pop_empty = true
  is_resting _ = false

  -- A won exchange of `push` claims the next position for its value.
  abbrev pub note_sent : Pc A → Pc A → List A → List A
  note_sent (push_cas v t) (push_write _ _) l = l ++ (v ∷ [])
  note_sent _ _ l = l

  abbrev pub note_got : Pc A → Pc A → List (ℕ × A) → List (ℕ × A)
  note_got (pop_read h) (pop_store _ x) l = (h, x) ∷ l
  note_got _ _ l = l

  -- Thread `i` stood at `p`, and its access had the result `res`.
  abbrev pub settle : ℕ → Pc A → Pc A × RingBuffer A → System A → System A
  settle i p res s = record {
    ring = res.1;
    pc = update s.pc i res.0;
    sent = note_sent p res.0 s.sent;
    got = note_got p res.0 s.got;
  }

  -- The system after the next access of thread `i`, which stands at `p`.
  unfoldable pub after : ℕ → Bool → Pc A → System A → System A
  after i spurious p s = settle i p (step spurious p s.ring) s

  unfoldable pub turn : Event A → System A → System A
  turn (start_push i v) s =
      if is_resting (s.pc i) then record s { pc = update s.pc i (push_load v) } else s
  turn (start_pop i) s = if is_resting (s.pc i) then record s { pc = update s.pc i pop_load } else s
  turn (act i spurious) s = after i spurious (s.pc i) s

  unfoldable pub run : List (Event A) → System A → System A
  run [] s = s
  run (e ∷ es) s = run es (turn e s)

  abbrev pub started : RingBuffer A → System A
  started r = record { ring = r; pc = λ _. idle; sent = []; got = [] }
