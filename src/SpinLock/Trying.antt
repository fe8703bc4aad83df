-- ===== src/SpinLock/Trying.antt =====
-- How often `try_lock` tries, and what it answers.
use native.Mathlib.Nat.{mod-eq_of_lt}
use dbprimkit.Base.{
  ℕ, suc, ◌+◌, ◌-◌, ◌^◌, ◌≡◌, refl, ap, ◌∙◌, ◌≤◌, ◌<◌, Bool, true, false, List, [], ◌∷◌, ◌++◌,
  leb-true, leb-false, none, length, if◌then◌else◌, arith, Bool-cases, ⊎-elim,
}
use dbprimkit.SpinLock.{SpinLock, Pc, trying, holding, gave_up, spin, exchanges, act}

module _ {A : Type 0} where
  -- A caller in its loop, with what each round finds: whether the exchange fails for no reason, and the
  -- lock as the other callers have left it.
  unfoldable pub rounds : List (Bool × SpinLock A) → Pc A → Pc A
  rounds [] pc = pc
  rounds ((fails, s) ∷ found) pc = rounds found ((act (spin fails) s pc).1)

  abbrev pub some_exchange : List (Bool × SpinLock A) → Bool
  some_exchange [] = false
  some_exchange ((fails, s) ∷ found) = if exchanges fails s then true else some_exchange found

  rounds-holding : (found : List (Bool × SpinLock A)) → rounds found (holding none) ≡ holding none
  unfolding rounds act
  rounds-holding [] = refl
  rounds-holding ((fails, s) ∷ found) = rounds-holding found

  act-late :
      (f : Bool) (s : SpinLock A) (c r : ℕ) → c < r → (act (spin f) s (trying c r)).1 ≡ gave_up
  unfolding act
  act-late f s c r h = rw (leb-false r c h)

  act-hit :
      (f : Bool) (s : SpinLock A) (c r : ℕ)
      → r ≤ c
      → exchanges f s ≡ true
      → (act (spin f) s (trying c r)).1 ≡ holding none
  unfolding act
  act-hit f s c r h e = rw (leb-true r c h, e)

  act-miss :
      (f : Bool) (s : SpinLock A) (c r : ℕ)
      → r ≤ c
      → c < 2 ^ 64 - 1
      → exchanges f s ≡ false
      → (act (spin f) s (trying c r)).1 ≡ trying c (r + 1)
  unfolding act
  act-miss f s c r h k e =
      rw (leb-true r c h, e) (ap (trying c) (mod-eq_of_lt {n = r + 1} {m = 2 ^ 64} (omega arith)))

  rounds-trying :
      (found : List (Bool × SpinLock A)) (c r : ℕ) (fails : Bool) (s : SpinLock A)
      → length found + r ≡ suc c
      → c < 2 ^ 64 - 1
      → rounds (found ++ ((fails, s) ∷ [])) (trying c r)
        ≡ (if some_exchange found then holding none else gave_up)
  unfolding rounds act
  rounds-trying [] c r fails s h k = act-late fails s c r (omega arith)
  rounds-trying ((f, s') ∷ found) c r fails s h k =
      ⊎-elim (Bool-cases (exchanges f s'))
        (λ e.
          ap (rounds (found ++ ((fails, s) ∷ []))) (act-hit f s' c r (omega arith) e)
          ∙ rw (e) (rounds-holding (found ++ ((fails, s) ∷ []))))
        (λ e.
          ap (rounds (found ++ ((fails, s) ∷ []))) (act-miss f s' c r (omega arith) k e)
          ∙ rw (e) (rounds-trying found c (r + 1) fails s (omega arith) k))

  -- `try_lock` with a `retry_cnt` below 2^64 - 1 tries the exchange one time more than that, whatever the
  -- other callers do, and after the check that follows it has ended: with the guard if one of the
  -- exchanges could succeed, and with `None` only if none could.
  pub try_lock_lem :
      (found : List (Bool × SpinLock A)) (retry_cnt : ℕ) (fails : Bool) (s : SpinLock A)
      → length found ≡ suc retry_cnt
      → retry_cnt < 2 ^ 64 - 1
      → rounds (found ++ ((fails, s) ∷ [])) (trying retry_cnt 0)
        ≡ (if some_exchange found then holding none else gave_up)
  try_lock_lem found retry_cnt fails s h k = rounds-trying found retry_cnt 0 fails s (omega arith) k
