-- ===== src/RingBuffer/OneSlot.antt =====
-- A ring of one cell (`RingBuffer::new(0)`, src/ringbuffer.rs): `push` and `pop` tell a full cell
-- from a free one by the sequence number, and with one cell `pos + 1` is also the number of the next
-- round.
use mathlib.Core.Path.{subst}
use dbprimkit.Base.{
  ℕ, ◌≡◌, ◌⊎◌, inl, inr, refl, ap, sym, Bool, false, List, [], ◌∷◌, ◌++◌, map, some, arith,
}
use dbprimkit.Error.{ok}
use dbprimkit.RingBuffer.{
  RingBuffer, Pc, push_ok, pop_load, pop_seq, new, empty_ring, fresh_cells, step, judge_push,
  judge_pop,
}
use dbprimkit.RingBuffer.Threads.{
  System, Event, start_push, start_pop, act, turn, after, run, started, update, is_resting,
}

module _ {A : Type 0} where
  -- Thread 0 calls `push` and is alone: the five accesses of an uncontended call.
  abbrev pub push_alone : A → List (Event A)
  push_alone v =
      start_push 0 v ∷ act 0 false ∷ act 0 false ∷ act 0 false ∷ act 0 false ∷ act 0 false ∷ []

  -- One cell that holds `u`, after two values went in.
  abbrev pub jammed : A → RingBuffer A
  jammed u = record {
    buf = record { seq = 2; slot = some u } ∷ [];
    size = 1;
    mask = 0;
    head = 0;
    tail = 2;
  }

  Waits : Pc A → Type 0
  Waits p = (p ≡ pop_load) ⊎ (p ≡ pop_seq 0)

  abbrev jam : A → (ℕ → Pc A) → List A → System A
  jam u f l = record { ring = jammed u; pc = f; sent = l; got = [] }

  stalled :
      (u : A) (ws : List Bool) (f : ℕ → Pc A) (l : List A)
      → Waits (f 0)
      → Waits ((run (map (act 0) ws) (jam u f l)).pc 0)
  unfolding Waits run turn after step judge_pop
  stalled u [] f l h = h
  stalled u (w ∷ ws) f l (inl e) =
      subst (λ s. Waits ((run (map (act 0) ws) s).pc 0)) (ap (λ p. after 0 w p (jam u f l)) (sym e))
        (stalled u ws (update f 0 (pop_seq 0)) l (inr refl))
  stalled u (w ∷ ws) f l (inr e) =
      subst (λ s. Waits ((run (map (act 0) ws) s).pc 0)) (ap (λ p. after 0 w p (jam u f l)) (sym e))
        (stalled u ws (update f 0 pop_load) l (inl refl))

  abbrev Jams : A → A → RingBuffer A → List Bool → Type 0
  Jams v u r ws =
      let full = run (push_alone v ++ push_alone u) (started r) in
      (full.pc 0 ≡ push_ok)
      × (full.sent ≡ v ∷ u ∷ [])
      × (full.ring ≡ jammed u)
      × (is_resting ((run (start_pop 0 ∷ map (act 0) ws) full).pc 0) ≡ false)

  Waits-busy : (p : Pc A) → Waits p → is_resting p ≡ false
  unfolding Waits
  Waits-busy p h = ground arith

  empty-Jams : (v u : A) (ws : List Bool) → Jams v u (empty_ring 1) ws
  unfolding run turn after step judge_push fresh_cells Waits
  empty-Jams v u ws = (
    refl,
    refl,
    refl,
    Waits-busy _ (
        stalled u ws
          (update (run (push_alone v ++ push_alone u) (started (empty_ring 1))).pc 0 pop_load)
          (v ∷ u ∷ []) (inl refl)),
  )

  -- On a ring of one cell two calls of `push` in a row are both accepted, and the second writes
  -- over the value of the first; a `pop` that follows then never returns, however many accesses it
  -- makes.
  pub one_slot_jams :
      (v u : A) (r : RingBuffer A)
      → new 0 ≡ ok r
      → (ws : List Bool)
      → let full = run (push_alone v ++ push_alone u) (started r) in
        (full.pc 0 ≡ push_ok)
        × (full.sent ≡ v ∷ u ∷ [])
        × (full.ring ≡ jammed u)
        × (is_resting ((run (start_pop 0 ∷ map (act 0) ws) full).pc 0) ≡ false)
  unfolding new
  one_slot_jams v u r e ws = subst (λ ring. Jams v u ring ws) made (empty-Jams v u ws)
    where
      made : empty_ring 1 ≡ r
      made = cc e
