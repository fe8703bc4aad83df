-- ===== src/SpinLock/Exclusion.antt =====
-- At most one caller has the guard of a spin lock.
use dbprimkit.Base.{
  ℕ, zero, suc, ◌+◌, ◌%◌, ◌^◌, ◌≡◌, ◌≢◌, refl, sym, ap, ◌∙◌, Bool, true, List, [], ◌∷◌, Option,
  none, some, get_elem?, set, replicate, leb, arith, get_elem?-set-cases, ⊎-elim, Bool-cases,
  Option-cases, some-injective, none-ne-some,
}
use dbprimkit.SpinLock.{
  SpinLock, Pc, idle, locking, trying, holding, gave_up, Act, lock, try_lock, spin, deref,
  deref_mut, drop, exchanges, take_lock, act, System, settle, step, run, start, new,
}

module _ {A : Type 0} where
  -- What holds at all times: a caller with a guard has the lock locked, is the only one, and what it
  -- last saw of the value is still the value.
  pub record Inv (y : System A) : Type 0 where
    pub held :
        (i : ℕ) (o : Option A) → get_elem? (y.callers) i ≡ some (holding o) → y.shared.locked ≡ 1
    pub sole :
        (i j : ℕ) (o o' : Option A)
        → get_elem? (y.callers) i ≡ some (holding o)
        → get_elem? (y.callers) j ≡ some (holding o')
        → i ≡ j
    pub fresh :
        (i : ℕ) (x : A) → get_elem? (y.callers) i ≡ some (holding (some x)) → y.shared.value ≡ x

  -- The caller `t` stands at `pc`.
  abbrev At : System A → ℕ → Pc A → Type 0
  At y t pc = get_elem? (y.callers) t ≡ some pc

  abbrev put : System A → SpinLock A → ℕ → Pc A → System A
  put y s t pc = record { shared = s; callers = set (y.callers) t pc }

  Holds : Pc A → Type 0
  Holds pc = (o : Option A) × (pc ≡ holding o)

  -- A caller that has no guard, and leaves the lock alone.
  quiet_lem : (y : System A) (t : ℕ) (pc : Pc A) → ¬ Holds pc → Inv y → Inv (put y (y.shared) t pc)
  unfolding Holds
  quiet_lem y t pc n v = record {
    held = λ i o h.
        ⊎-elim (get_elem?-set-cases (y.callers) t i pc (holding o) h) (λ (e, f). absurd (n (o, f)))
          (λ (e, f). v.held i o f);
    sole = λ i j o o' h k.
        ⊎-elim (get_elem?-set-cases (y.callers) t i pc (holding o) h) (λ (e, f). absurd (n (o, f)))
          (λ (e, f).
            ⊎-elim (get_elem?-set-cases (y.callers) t j pc (holding o') k)
              (λ (e, f). absurd (n (o', f))) (λ (e', f'). v.sole i j o o' f f'));
    fresh = λ i x h.
        ⊎-elim (get_elem?-set-cases (y.callers) t i pc (holding (some x)) h)
          (λ (e, f). absurd (n (some x, f))) (λ (e, f). v.fresh i x f);
  }

  -- A caller that acts while no other has a guard.
  alone_lem :
      (y : System A) (s : SpinLock A) (t : ℕ) (pc : Pc A)
      → ((i : ℕ) (o : Option A) → i ≢ t → ¬ At y i (holding o))
      → ((o : Option A) → pc ≡ holding o → s.locked ≡ 1)
      → ((x : A) → pc ≡ holding (some x) → s.value ≡ x)
      → Inv (put y s t pc)
  alone_lem y s t pc others l f = record {
    held = λ i o h.
        ⊎-elim (get_elem?-set-cases (y.callers) t i pc (holding o) h) (λ (e, q). l o q)
          (λ (e, q). absurd (others i o e q));
    sole = λ i j o o' h k.
        ⊎-elim (get_elem?-set-cases (y.callers) t i pc (holding o) h)
          (λ (e, _).
            ⊎-elim (get_elem?-set-cases (y.callers) t j pc (holding o') k) (λ (e', _). e ∙ sym e')
              (λ (e', q). absurd (others j o' e' q)))
          (λ (e, q). absurd (others i o e q));
    fresh = λ i x h.
        ⊎-elim (get_elem?-set-cases (y.callers) t i pc (holding (some x)) h) (λ (e, q). f x q)
          (λ (e, q). absurd (others i (some x) e q));
  }

  -- No other caller has a guard, if this one does or the lock is free.
  others-held :
      (y : System A) (t : ℕ) (o : Option A)
      → Inv y
      → At y t (holding o)
      → (i : ℕ) (o' : Option A) → i ≢ t
      → ¬ At y i (holding o')
  others-held y t o v h i o' n k = n (v.sole i t o' o k h)

  others-free :
      (y : System A) (t : ℕ)
      → Inv y
      → y.shared.locked ≡ 0
      → (i : ℕ) (o' : Option A) → i ≢ t
      → ¬ At y i (holding o')
  others-free y t v h i o' n k = absurd (omega (arith, h, v.held i o' k))

  exchanges→free : (fails : Bool) (s : SpinLock A) → exchanges fails s ≡ true → s.locked ≡ 0
  exchanges→free fails s h = ground arith

  abbrev seen : Pc A → Option (Option A)
  seen (holding o) = some o
  seen _ = none

  unseen : (pc : Pc A) → seen pc ≡ none → ¬ Holds pc
  unfolding Holds
  unseen pc h (o, e) = none-ne-some o (sym h ∙ ap seen e)

  acquire_lem :
      (y : System A) (t : ℕ) (fails : Bool)
      → exchanges fails (y.shared) ≡ true
      → Inv y
      → Inv (put y (take_lock (y.shared)) t (holding none))
  acquire_lem y t fails e v =
      alone_lem y (take_lock (y.shared)) t (holding none)
        (others-free y t v (exchanges→free fails (y.shared) e)) (λ o _. refl)
        (λ x e. absurd (none-ne-some x (some-injective none (some x) (ap seen e))))

  -- A caller with a guard that keeps it.
  keep_lem :
      (y : System A) (s : SpinLock A) (t : ℕ) (o o' : Option A)
      → Inv y
      → At y t (holding o)
      → s.locked ≡ 1
      → ((x : A) → holding o' ≡ holding (some x) → s.value ≡ x)
      → Inv (put y s t (holding o'))
  keep_lem y s t o o' v at l f = alone_lem y s t (holding o') (others-held y t o v at) (λ _ _. l) f

  act-Inv :
      (y : System A) (t : ℕ) (a : Act A) (pc : Pc A)
      → Inv y
      → At y t pc
      → Inv (settle y t (act a (y.shared) pc))
  unfolding act Holds
  act-Inv y t lock idle v at = quiet_lem y t locking (unseen locking refl) v
  act-Inv y t lock locking v at = quiet_lem y t locking (unseen locking refl) v
  act-Inv y t lock (trying c r) v at = quiet_lem y t (trying c r) (unseen (trying c r) refl) v
  act-Inv y t lock (holding o) v at =
      keep_lem y (y.shared) t o o v at (v.held t o at) (λ x e. v.fresh t x (at ∙ ap some e))
  act-Inv y t lock gave_up v at = quiet_lem y t locking (unseen locking refl) v
  act-Inv y t (try_lock n) idle v at = quiet_lem y t (trying n 0) (unseen (trying n 0) refl) v
  act-Inv y t (try_lock n) locking v at = quiet_lem y t locking (unseen locking refl) v
  act-Inv y t (try_lock n) (trying c r) v at =
      quiet_lem y t (trying c r) (unseen (trying c r) refl) v
  act-Inv y t (try_lock n) (holding o) v at =
      keep_lem y (y.shared) t o o v at (v.held t o at) (λ x e. v.fresh t x (at ∙ ap some e))
  act-Inv y t (try_lock n) gave_up v at = quiet_lem y t (trying n 0) (unseen (trying n 0) refl) v
  act-Inv y t (spin fails) idle v at = quiet_lem y t idle (unseen idle refl) v
  act-Inv y t (spin fails) locking v at =
      ⊎-elim (Bool-cases (exchanges fails (y.shared))) (λ e. rw (e) (acquire_lem y t fails e v))
        (λ e. rw (e) (quiet_lem y t locking (unseen locking refl) v))
  act-Inv y t (spin fails) (trying c r) v at =
      ⊎-elim (Bool-cases (leb r c))
        (λ l.
          ⊎-elim (Bool-cases (exchanges fails (y.shared)))
            (λ e. rw (l, e) (acquire_lem y t fails e v))
            (λ e.
              rw (l, e)
                (quiet_lem y t (trying c ((r + 1) % 2 ^ 64))
                  (unseen (trying c ((r + 1) % 2 ^ 64)) refl) v)))
        (λ l. rw (l) (quiet_lem y t gave_up (unseen gave_up refl) v))
  act-Inv y t (spin fails) (holding o) v at =
      keep_lem y (y.shared) t o o v at (v.held t o at) (λ x e. v.fresh t x (at ∙ ap some e))
  act-Inv y t (spin fails) gave_up v at = quiet_lem y t gave_up (unseen gave_up refl) v
  act-Inv y t deref idle v at = quiet_lem y t idle (unseen idle refl) v
  act-Inv y t deref locking v at = quiet_lem y t locking (unseen locking refl) v
  act-Inv y t deref (trying c r) v at = quiet_lem y t (trying c r) (unseen (trying c r) refl) v
  act-Inv y t deref (holding o) v at =
      keep_lem y (y.shared) t o (some (y.shared.value)) v at (v.held t o at) (λ x e.
        some-injective (y.shared.value) x
          (some-injective (some (y.shared.value)) (some x) (ap seen e)))
  act-Inv y t deref gave_up v at = quiet_lem y t gave_up (unseen gave_up refl) v
  act-Inv y t (deref_mut w) idle v at = quiet_lem y t idle (unseen idle refl) v
  act-Inv y t (deref_mut w) locking v at = quiet_lem y t locking (unseen locking refl) v
  act-Inv y t (deref_mut w) (trying c r) v at =
      quiet_lem y t (trying c r) (unseen (trying c r) refl) v
  act-Inv y t (deref_mut w) (holding o) v at =
      keep_lem y (record (y.shared) { value = w }) t o (some w) v at (v.held t o at)
        (λ x e. some-injective w x (some-injective (some w) (some x) (ap seen e)))
  act-Inv y t (deref_mut w) gave_up v at = quiet_lem y t gave_up (unseen gave_up refl) v
  act-Inv y t drop idle v at = quiet_lem y t idle (unseen idle refl) v
  act-Inv y t drop locking v at = quiet_lem y t locking (unseen locking refl) v
  act-Inv y t drop (trying c r) v at = quiet_lem y t (trying c r) (unseen (trying c r) refl) v
  act-Inv y t drop (holding o) v at =
      alone_lem y (record (y.shared) { locked = 0 }) t idle (others-held y t o v at)
        (λ o' e. absurd (unseen idle refl (o', e))) (λ x e. absurd (unseen idle refl (some x, e)))
  act-Inv y t drop gave_up v at = quiet_lem y t gave_up (unseen gave_up refl) v

  step-Inv : (y : System A) (t : ℕ) (a : Act A) → Inv y → Inv (step y (t, a))
  unfolding step
  step-Inv y t a v =
      ⊎-elim (Option-cases (get_elem? (y.callers) t)) (λ e. rw (e) v)
        (λ (pc, e). rw (e) (act-Inv y t a pc v e))

  run-Inv : (y : System A) (es : List (ℕ × Act A)) → Inv y → Inv (run y es)
  unfolding run
  run-Inv y [] v = v
  run-Inv y ((t, a) ∷ es) v = run-Inv (step y (t, a)) es (step-Inv y t a v)

  idle_only : (n i : ℕ) (o : Option A) → ¬ (get_elem? (replicate n idle) i ≡ some (holding o))
  idle_only zero i o h = none-ne-some _ h
  idle_only (suc n) zero o h = none-ne-some o (ap seen (some-injective idle (holding o) h))
  idle_only (suc n) (suc i) o h = idle_only n i o h

  start-Inv : (value : A) (n : ℕ) → Inv (start value n)
  unfolding new
  start-Inv value n = record {
    held = λ i o h. absurd (idle_only n i o h);
    sole = λ i j o o' h k. absurd (idle_only n i o h);
    fresh = λ i x h. absurd (idle_only n i (some x) h);
  }

  -- Whatever callers do with a new lock, in whatever order, also after a `None` of `try_lock`: two callers
  -- that have a guard are one and the same, and the lock is locked. A thread that calls while it has a
  -- guard is two callers.
  pub exclusion :
      (value : A) (n : ℕ) (es : List (ℕ × Act A)) (i j : ℕ) (o o' : Option A)
      → get_elem? ((run (start value n) es).callers) i ≡ some (holding o)
      → get_elem? ((run (start value n) es).callers) j ≡ some (holding o')
      → (i ≡ j) × ((run (start value n) es).shared.locked ≡ 1)
  exclusion value n es i j o o' h k =
      let v = run-Inv (start value n) es (start-Inv value n) in (v.sole i j o o' h k, v.held i o h)

  -- Whatever callers do with a new lock, in whatever order, also after a `None` of `try_lock`: what the
  -- caller that has the guard last read or wrote through it is the value. A thread that calls while it
  -- has a guard is two callers.
  pub no_stale_value :
      (value : A) (n : ℕ) (es : List (ℕ × Act A)) (i : ℕ) (x : A)
      → get_elem? ((run (start value n) es).callers) i ≡ some (holding (some x))
      → (run (start value n) es).shared.value ≡ x
  no_stale_value value n es i x h =
      let v = run-Inv (start value n) es (start-Inv value n) in v.fresh i x h
