-- ===== src/RingBuffer/Drain.antt =====
-- `Drop` of src/ringbuffer.rs: pop until the ring is empty.
use mathlib.Core.Option
use dbprimkit.Base.{
  ℕ, zero, suc, ◌+◌, ◌^◌, ◌<◌, ◌≡◌, List, [], ◌∷◌, Option, none, some, arith, length,
}
use dbprimkit.RingBuffer.{RingBuffer, Pc, pop_load, pop_ok, pop_empty}
use dbprimkit.RingBuffer.Alone.{Holds, taken-Holds}
use dbprimkit.RingBuffer.Lone.{solo, five, lone_pop-some, lone_pop-empty}

module _ {A : Type 0} where
  -- What the loop goes on to do after a `pop` that ended at `p`; `rest` is its next rounds.
  drain_next : Pc A → Option (List A) → Option (List A)
  drain_next (pop_ok x) rest = Option.map (λ xs. x ∷ xs) rest
  drain_next pop_empty rest = some []
  drain_next _ rest = none

  -- The values that the loop drops, in order; `none` if it has not ended after so many rounds.
  unfoldable pub drop : ℕ → RingBuffer A → Option (List A)
  unfolding drain_next
  drop zero r = none
  drop (suc n) r = let (p, r') = solo five pop_load r in drain_next p (drop n r')

  -- On a ring of at least two cells that holds `q`, with counters that still have room: the loop ends
  -- after one round more than there are values, and drops exactly the values of `q`, each once and
  -- the oldest first.
  pub drop_lem :
      {k : ℕ} (q : List A) {r : RingBuffer A}
      → Holds k r q
      → r.head + length q + 2 ^ k < 2 ^ 63
      → drop (suc (length q)) r ≡ some q
  unfolding drop
  drop_lem [] h small = rw (lone_pop-empty h)
  drop_lem (x ∷ q) h small =
      rw (lone_pop-some h, drop_lem q (taken-Holds h (omega arith)) (omega arith))
