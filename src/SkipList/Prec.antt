-- ===== src/SkipList/Prec.antt =====
-- The walk of `search_ext` along a level ends at the link before the place of the key.
use dbprimkit.Base.{
  ℕ, zero, suc, ◌<◌, ◌≡◌, refl, sym, ap, ◌∙◌, inl, inr, Bool, true, false, List, [], ◌∷◌, some,
  length, ltb, ltb→lt, if◌then◌else◌, arith, Bool-cases,
}
use dbprimkit.Error.{ok}
use dbprimkit.SkipList.{Order, NodePtr, SkipListMap, Addr, link, ptr_to_mut}
use dbprimkit.SkipList.Update.{StopExt, walk_ext}
use dbprimkit.SkipList.Model.{Entry, first_at, Below}
use dbprimkit.SkipList.Find.{Ordering-cases, Below-trans, Part, link_there}
use Prim.Native.Nat.{Ordering}
use mathlib.Core.Path.{subst}

module _ {K V : Type 0} where
  -- The last link on level `l` behind the entries, and the last node there.
  abbrev pub prec : ℕ → Addr → List (Entry K V) → Addr
  prec l d [] = d
  prec l d (e ∷ es) = prec l (if ltb l (e.height) then link (e.ptr) l else d) es

  abbrev pub last_at : ℕ → NodePtr → List (Entry K V) → NodePtr
  last_at l d [] = d
  last_at l d (e ∷ es) = last_at l (if ltb l (e.height) then some (e.ptr) else d) es

module _ {K V : Type 0} (order : Order K) (key : K) where
  -- The entries with keys below `key`, and the others.
  abbrev pub before : List (Entry K V) → List (Entry K V)
  before [] = []
  before (e ∷ es) = elim (order.cmp (e.key) key) [ Ordering.lt ↦ e ∷ before es | _ ↦ [] ]

  abbrev pub from : List (Entry K V) → List (Entry K V)
  from [] = []
  from (e ∷ es) = elim (order.cmp (e.key) key) [ Ordering.lt ↦ from es | _ ↦ e ∷ es ]

  abbrev pub equal_at : ℕ → List (Entry K V) → Bool
  equal_at l [] = false
  equal_at l (e ∷ es) =
      let rest = equal_at l es in
      if ltb l (e.height)
      then elim (order.cmp (e.key) key) [ Ordering.eq ↦ true | _ ↦ false ]
      else rest

  pub before-lt :
      (e : Entry K V) (es : List (Entry K V))
      → order.cmp (e.key) key ≡ Ordering.lt
      → before (e ∷ es) ≡ e ∷ before es
  before-lt e es h = rw (h, before)

  pub from-lt :
      (e : Entry K V) (es : List (Entry K V))
      → order.cmp (e.key) key ≡ Ordering.lt
      → from (e ∷ es) ≡ from es
  from-lt e es h = rw (h, from)

  -- Nothing of what lies above the key is before it.
  before-Below : (es : List (Entry K V)) → Below order key es → before es ≡ []
  before-Below [] b = refl
  before-Below (e ∷ es) (h, b) = rw (order.gt_of_lt key (e.key) h, before)

  from-Below : (es : List (Entry K V)) → Below order key es → from es ≡ es
  from-Below [] b = refl
  from-Below (e ∷ es) (h, b) = rw (order.gt_of_lt key (e.key) h, from)

  -- What `walk_ext` is to answer.
  abbrev pub stop_at : ℕ → Addr → NodePtr → List (Entry K V) → StopExt
  stop_at l addr prev es = record {
    equal = equal_at l (from es);
    next_addr = prec l addr (before es);
    next = first_at l (from es);
    prev_val = last_at l prev (before es);
  }

  -- The walk ends at an entry on the level that is not below the key.
  stop_at-eq :
      (l : ℕ) (addr : Addr) (prev : NodePtr) (e : Entry K V) (es : List (Entry K V))
      → ltb l (e.height) ≡ true
      → order.cmp (e.key) key ≡ Ordering.eq
      → stop_at l addr prev (e ∷ es)
        ≡ record { equal = true; next_addr = addr; next = some (e.ptr); prev_val = prev }
  stop_at-eq l addr prev e es t c = rw (c, before, from) (rw (c, t, equal_at, first_at))

  stop_at-gt :
      (l : ℕ) (addr : Addr) (prev : NodePtr) (e : Entry K V) (es : List (Entry K V))
      → ltb l (e.height) ≡ true
      → order.cmp (e.key) key ≡ Ordering.gt
      → stop_at l addr prev (e ∷ es)
        ≡ record { equal = false; next_addr = addr; next = some (e.ptr); prev_val = prev }
  stop_at-gt l addr prev e es t c = rw (c, before, from) (rw (c, t, equal_at, first_at))

  -- An entry that is not on the level, and not below the key, is not seen.
  stop_at-skip :
      (l : ℕ) (addr : Addr) (prev : NodePtr) (e : Entry K V) (es : List (Entry K V))
      → ltb l (e.height) ≡ false
      → Below order (e.key) es
      → stop_at l addr prev es ≡ stop_at l addr prev (e ∷ es)
  stop_at-skip l addr prev e es t b = elim (Ordering-cases (order.cmp (e.key) key)) [
    | inl c ↦ rw (before-lt e es c, from-lt e es c, t, prec, last_at)
    | inr (inl c) ↦
        unseen (subst (λ k. Below order k es) (order.eq_of-cmp (e.key) key c) b) (rw (c, before))
          (rw (c, from))
    | inr (inr c) ↦
        unseen (Below-trans order key (e.key) es (order.lt_of_gt (e.key) key c) b) (rw (c, before))
          (rw (c, from))
  ]
    where
      unseen :
          Below order key es
          → before (e ∷ es) ≡ []
          → from (e ∷ es) ≡ e ∷ es
          → stop_at l addr prev es ≡ stop_at l addr prev (e ∷ es)
      unseen b p q = rw (p, q, before-Below es b, from-Below es b, t)

module _ {K V : Type 0} (order : Order K) (m : SkipListMap K V) (key : K) where
  pub walk_ext_lem :
      (fuel l : ℕ) (addr : Addr) (prev : NodePtr) (es : List (Entry K V))
      → length es < fuel
      → Part order m key es
      → walk_ext order fuel m key l addr prev (first_at l es)
        ≡ ok (stop_at order key l addr prev es)
  unfolding walk_ext ptr_to_mut
  walk_ext_lem zero l addr prev es h p = absurd (omega arith)
  walk_ext_lem (suc fuel) l addr prev [] h p = refl
  walk_ext_lem (suc fuel) l addr prev (e ∷ es) h ((pos, at, st), (b, asc)) =
      elim (Bool-cases (ltb l (e.height))) [
        | inl t ↦ elim (Ordering-cases (order.cmp (e.key) key)) [
          | inl c ↦
              rw
                (
                  t,
                  at,
                  c,
                  link_there order m key l e es (ltb→lt l (e.height) t) at,
                  before-lt order key e es c,
                  from-lt order key e es c,
                )
                (walk_ext_lem fuel l (link (e.ptr) l) (some (e.ptr)) es (omega arith) (st, asc)
                  ∙ ap ok (rw (t, prec, last_at)))
          | inr (inl c) ↦ rw (t, at, c) (ap ok (sym (stop_at-eq order key l addr prev e es t c)))
          | inr (inr c) ↦ rw (t, at, c) (ap ok (sym (stop_at-gt order key l addr prev e es t c)))
        ]
        | inr t ↦ rw (t) (
            walk_ext_lem (suc fuel) l addr prev es (omega arith) (st, asc)
            ∙ ap ok (stop_at-skip order key l addr prev e es t b))
      ]
