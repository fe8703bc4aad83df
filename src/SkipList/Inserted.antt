-- ===== src/SkipList/Inserted.antt =====
-- `insert` of a key that is not there puts a new entry in its place.
use dbprimkit.Base.{
  ℕ, ◌≤◌, ◌<◌, ◌≡◌, refl, sym, ap, ◌∙◌, List, [], ◌∷◌, ◌++◌, some, length, get_elem?, arith,
  ltb-false, leb-true, if◌then◌else◌, ltb, leb, ⊎-elim, Bool-cases, get_elem?-append_of_lt, leb→le,
}
use dbprimkit.SkipList.{Order, NodePtr}
use dbprimkit.SkipList.Model.{Entry, first_at, cell, Stored, Below, Ascending}
use dbprimkit.SkipList.Linked.{tab-ext, links-eq-tab}
use dbprimkit.SkipList.Splice.{Heap, node_of, Elsewhere, pick, Woven, apart, get_elem?-lt}
use dbprimkit.SkipList.Round.{Distinct}

module _ {K V : Type 0} where
  -- An entry that is not on the level does not count.
  first_at-skip :
      (l : ℕ) (e : Entry K V) (xs bs : List (Entry K V))
      → e.height ≤ l
      → first_at l (xs ++ (e ∷ bs)) ≡ first_at l (xs ++ bs)
  first_at-skip l e [] bs h = rw (ltb-false l (e.height) h)
  first_at-skip l e (x ∷ xs) bs h =
      ap (λ p. if ltb l (x.height) then some (x.ptr) else p) (first_at-skip l e xs bs h)

  -- Before the first round.
  pub pick-all :
      (e : Entry K V) (bs xs : List (Entry K V)) (l : ℕ)
      → pick e bs (e.height) l xs ≡ first_at l (xs ++ bs)
  pick-all e bs xs l =
      ⊎-elim (Bool-cases (leb (e.height) l))
        (λ t. rw (t) (first_at-skip l e xs bs (leb→le (e.height) l t))) (λ t. rw (t))

  -- After the last.
  pub pick-none :
      (e : Entry K V) (bs xs : List (Entry K V)) (l : ℕ)
      → pick e bs 0 l xs ≡ first_at l (xs ++ (e ∷ bs))
  pick-none e bs xs l = rw (leb-true 0 l (omega arith))

  pub node-eq-cell :
      (f : ℕ → NodePtr) (x : Entry K V) (es : List (Entry K V))
      → ((l : ℕ) → f l ≡ first_at l es)
      → some (some (node_of f x)) ≡ some (some (cell x es))
  node-eq-cell f x es h =
      ap (λ t. some (some (record { height = x.height; key = x.key; value = x.value; next = t })))
        (tab-ext f (λ l. first_at l es) 0 (x.height) (λ i _. h i)
          ∙ sym (links-eq-tab 0 (x.height) es))

  pub Woven-first :
      (heap : Heap K V) (e : Entry K V) (xs bs : List (Entry K V))
      → Stored heap (xs ++ bs)
      → Woven e bs (e.height) heap xs
  Woven-first heap e [] bs st = tt
  Woven-first heap e (x ∷ xs) bs (pos, at, st) = (
    at ∙ sym (node-eq-cell (λ l. pick e bs (e.height) l xs) x (xs ++ bs) (pick-all e bs xs)),
    Woven-first heap e xs bs st,
  )

  -- The heights of stored entries.
  unfoldable pub Tall : List (Entry K V) → Type 0
  Tall [] = Unit
  Tall (x ∷ xs) = (0 < x.height) × Tall xs

  pub Stored-Tall : (heap : Heap K V) (xs bs : List (Entry K V)) → Stored heap (xs ++ bs) → Tall xs
  unfolding Tall
  Stored-Tall heap [] bs st = tt
  Stored-Tall heap (x ∷ xs) bs (pos, at, st) = (pos, Stored-Tall heap xs bs st)

  pub Stored-right :
      (heap : Heap K V) (xs bs : List (Entry K V)) → Stored heap (xs ++ bs) → Stored heap bs
  Stored-right heap [] bs st = st
  Stored-right heap (x ∷ xs) bs (pos, at, st) = Stored-right heap xs bs st

  -- A longer heap holds what it held.
  pub Stored-append :
      (heap more : Heap K V) (es : List (Entry K V)) → Stored heap es → Stored (heap ++ more) es
  Stored-append heap more [] st = tt
  Stored-append heap more (x ∷ es) (pos, at, st) = (
    pos,
    get_elem?-append_of_lt heap more (x.ptr) (get_elem?-lt heap (x.ptr) _ at) ∙ at,
    Stored-append heap more es st,
  )

  pub Stored-Elsewhere :
      (heap : Heap K V) (es : List (Entry K V)) → Stored heap es → Elsewhere (length heap) es
  Stored-Elsewhere heap [] st = tt
  Stored-Elsewhere heap (x ∷ es) (pos, at, st) =
      ((λ z. omega (arith, z, get_elem?-lt heap (x.ptr) _ at)), Stored-Elsewhere heap es st)

  pub Stored-last :
      (heap : Heap K V) (e : Entry K V) (xs bs : List (Entry K V))
      → Tall xs
      → Woven e bs 0 heap xs
      → Stored heap (e ∷ bs)
      → Stored heap (xs ++ (e ∷ bs))
  unfolding Tall
  Stored-last heap e [] bs t w st = st
  Stored-last heap e (x ∷ xs) bs (pos, t) (at, w) st = (
    pos,
    at ∙ node-eq-cell (λ l. pick e bs 0 l xs) x (xs ++ (e ∷ bs)) (pick-none e bs xs),
    Stored-last heap e xs bs t w st,
  )

  pub Distinct-insert :
      (e : Entry K V) (xs bs : List (Entry K V))
      → Elsewhere (e.ptr) (xs ++ bs)
      → Distinct (xs ++ bs)
      → Distinct (xs ++ (e ∷ bs))
  Distinct-insert e [] bs n d = (n, d)
  Distinct-insert e (x ∷ xs) bs (h, n) (u, d) = (wider xs u, Distinct-insert e xs bs n d)
    where
      wider :
          (xs : List (Entry K V))
          → Elsewhere (x.ptr) (xs ++ bs)
          → Elsewhere (x.ptr) (xs ++ (e ∷ bs))
      wider [] v = ((λ z. h (sym z)), v)
      wider (y ∷ ys) (g, v) = (g, wider ys v)

module _ {K V : Type 0} (order : Order K) where
  Below-Elsewhere :
      (heap : Heap K V) (x : Entry K V) (ys es : List (Entry K V))
      → get_elem? heap (x.ptr) ≡ some (some (cell x ys))
      → Stored heap es
      → Below order (x.key) es
      → Elsewhere (x.ptr) es
  Below-Elsewhere heap x ys [] at st b = tt
  Below-Elsewhere heap x ys (z ∷ es) at (pos, at', st) (c, b) = (
    apart order heap (x.ptr) (z.ptr) (x.key) (z.key) (cell x ys, at, refl) (cell z es, at', refl) c,
    Below-Elsewhere heap x ys es at st b,
  )

  pub Stored-Distinct :
      (heap : Heap K V) (es : List (Entry K V)) → Stored heap es → Ascending order es → Distinct es
  Stored-Distinct heap [] st asc = tt
  Stored-Distinct heap (x ∷ es) (pos, at, st) (b, asc) =
      (Below-Elsewhere heap x es es at st b, Stored-Distinct heap es st asc)
