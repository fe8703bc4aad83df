-- ===== src/SpinLock/Tests.antt =====
-- Runs of the spin lock.
use dbprimkit.Base.{none, arith, ℕ, ◌≡◌, refl, Bool, true, false, List, [], ◌∷◌, ◌++◌, some}
use dbprimkit.SpinLock.{
  try_lock, holding, idle, SpinLock, gave_up, trying, Act, lock, spin, deref, deref_mut, drop,
  start, run, step, act, new,
}
use dbprimkit.SpinLock.Exclusion.{exclusion, no_stale_value}
use dbprimkit.SpinLock.Trying.{rounds, try_lock_lem}

-- Caller 1 counts up, and caller 0, which came first, waits and then takes its turn.
abbrev two_turns : List (ℕ × Act ℕ)
two_turns =
    (0, lock)
    ∷ (1, lock)
    ∷ (1, spin false)
    ∷ (0, spin false)
    ∷ (1, deref)
    ∷ (1, deref_mut 6)
    ∷ (1, drop)
    ∷ (0, spin true)
    ∷ (0, spin false)
    ∷ (0, deref)
    ∷ []

exclusion_example : (◌≡◌ {A = ℕ} 0 0) × ((run (start 5 2) two_turns).shared.locked ≡ 1)
unfolding run step act new
exclusion_example = exclusion 5 2 two_turns 0 0 (some 6) (some 6) refl refl

no_stale_value_example : (run (start 5 2) two_turns).shared.value ≡ 6
unfolding run step act new
no_stale_value_example = no_stale_value 5 2 two_turns 0 6 refl

-- Two exchanges: one finds the lock taken, the other fails for no reason.
abbrev two_failures : List (Bool × SpinLock ℕ)
two_failures =
    (false, record { locked = 1; value = 5 }) ∷ (true, record { locked = 0; value = 5 }) ∷ []

try_lock_lem_example :
    rounds (two_failures ++ ((false, record { locked = 0; value = 5 }) ∷ [])) (trying 1 0) ≡ gave_up
try_lock_lem_example =
    try_lock_lem two_failures 1 false (record { locked = 0; value = 5 }) refl (omega arith)

-- A thread takes the guard, calls `try_lock` again, as caller 1, which gives `None`, drops the guard, and
-- then `try_lock` gives a guard.
abbrev again_while_held : List (ℕ × Act ℕ)
again_while_held =
    (0, try_lock 5)
    ∷ (0, spin false)
    ∷ (1, try_lock 1)
    ∷ (1, spin false)
    ∷ (1, spin false)
    ∷ (1, spin false)
    ∷ []

abbrev after_the_drop : List (ℕ × Act ℕ)
after_the_drop = again_while_held ++ ((0, drop) ∷ (1, try_lock 0) ∷ (1, spin false) ∷ [])

none_while_held : (run (start 10 2) again_while_held).callers ≡ holding none ∷ gave_up ∷ []
unfolding run step act new
none_while_held = refl

guard_after_the_drop : (run (start 10 2) after_the_drop).callers ≡ idle ∷ holding none ∷ []
unfolding run step act new
guard_after_the_drop = refl
