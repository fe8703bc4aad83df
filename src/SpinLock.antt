-- ===== src/SpinLock.antt =====
-- src/sync/spinlock.rs: the spin lock and its callers, one atomic access or access through the guard at a
-- time. A caller makes one call after another and has at most one guard. A thread that calls `lock` or
-- `try_lock` while it has a guard is two callers, one with that guard and one with the call; nothing
-- orders the actions of callers, so that those of a thread are among the orders that are looked at.
use dbprimkit.Base.{
  ℕ, zero, suc, ◌+◌, ◌%◌, ◌^◌, Bool, true, false, not, ◌&&◌, List, [], ◌∷◌, Option, none, some,
  get_elem?, set, replicate, leb, ◌==◌, if◌then◌else◌,
}
pub mod Exclusion
pub mod Trying
mod Tests

pub record SpinLock (A : Type 0) : Type 0 where
  pub locked : ℕ
  pub value : A

abbrev pub unlocked_word : ℕ
unlocked_word = 0

abbrev pub locked_word : ℕ
locked_word = 1

-- Where a caller stands: outside, in the loop of `lock`, in that of `try_lock`, with a guard and the
-- value that it last saw through it, or with the `None` of `try_lock`.
pub data Pc (A : Type 0) : Type 0 where
  idle : Pc A
  locking : Pc A
  trying : (retry_cnt retry : ℕ) → Pc A
  holding : Option A → Pc A
  gave_up : Pc A

-- What a caller does next. A weak exchange can fail for no reason.
pub data Act (A : Type 0) : Type 0 where
  lock : Act A
  try_lock : ℕ → Act A
  spin : (fails : Bool) → Act A
  deref : Act A
  deref_mut : A → Act A
  drop : Act A

-- The lock and all callers.
pub record System (A : Type 0) : Type 0 where
  pub shared : SpinLock A
  pub callers : List (Pc A)

module _ {A : Type 0} where
  unfoldable pub new : A → SpinLock A
  new value = record { locked = unlocked_word; value = value }

  -- `compare_exchange_weak(FALSE, TRUE)`: whether it succeeds.
  abbrev pub exchanges : Bool → SpinLock A → Bool
  exchanges fails s = not fails && (s.locked == unlocked_word)

  abbrev pub take_lock : SpinLock A → SpinLock A
  take_lock s = record s { locked = locked_word }

  -- One action of a caller; what its place does not allow changes nothing.
  unfoldable pub act : Act A → SpinLock A → Pc A → SpinLock A × Pc A
  act lock s idle = (s, locking)
  act (try_lock retry_cnt) s idle = (s, trying retry_cnt 0)
  act lock s gave_up = (s, locking)
  act (try_lock retry_cnt) s gave_up = (s, trying retry_cnt 0)
  act (spin fails) s locking =
      if exchanges fails s then (take_lock s, holding none) else (s, locking)
  act (spin fails) s (trying retry_cnt retry) =
      if leb retry retry_cnt
      then (if exchanges fails s
          then (take_lock s, holding none)
          else (s, trying retry_cnt ((retry + 1) % 2 ^ 64)))
      else (s, gave_up)
  act deref s (holding seen) = (s, holding (some (s.value)))
  act (deref_mut v) s (holding seen) = (record s { value = v }, holding (some v))
  act drop s (holding seen) = (record s { locked = unlocked_word }, idle)
  act _ s pc = (s, pc)

  abbrev pub settle : System A → ℕ → SpinLock A × Pc A → System A
  settle y t (s, pc) = record { shared = s; callers = set (y.callers) t pc }

  abbrev pub dispatch : System A → ℕ → Act A → Option (Pc A) → System A
  dispatch y t a none = y
  dispatch y t a (some pc) = settle y t (act a (y.shared) pc)

  -- Caller `t` acts.
  unfoldable pub step : System A → ℕ × Act A → System A
  unfolding act
  step y (t, a) = dispatch y t a (get_elem? (y.callers) t)

  unfoldable pub run : System A → List (ℕ × Act A) → System A
  unfolding step
  run y [] = y
  run y (e ∷ es) = run (step y e) es

  -- A new lock and so many callers.
  abbrev pub start : A → ℕ → System A
  start value n = record { shared = new value; callers = replicate n idle }
