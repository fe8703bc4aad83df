-- ===== src/RingBuffer/Queue.antt =====
-- The abstract view of a ring that nobody is in the middle of using: a queue of at most `cap` values,
-- oldest first (src/ringbuffer.rs).
use dbprimkit.Base.{ℕ, Option, none, some, List, [], ◌∷◌, ◌++◌, length, ltb, if◌then◌else◌}
use dbprimkit.RingBuffer.{Pushed, accepted, rejected}

module _ {A : Type 0} where
  unfoldable pub push : ℕ → List A → A → Pushed A × List A
  push cap q v = if ltb (length q) cap then (accepted, q ++ (v ∷ [])) else (rejected v, q)

  unfoldable pub pop : List A → Option A × List A
  pop [] = (none, [])
  pop (x ∷ q) = (some x, q)
