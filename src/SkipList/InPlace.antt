-- ===== src/SkipList/InPlace.antt =====
-- The list of entries with a new one put in its place.
use dbprimkit.Base.{◌≡◌, refl, sym, ap, ◌∙◌, List, [], ◌∷◌, ◌++◌, none, inl, inr, none-ne-some}
use dbprimkit.SkipList.{Order}
use dbprimkit.SkipList.Model.{Entry, Below, Ascending, lookup}
use dbprimkit.SkipList.Find.{Ordering-cases, Below-trans, lookup-skip, lookup-this}
use dbprimkit.SkipList.Prec.{before, from, before-lt, from-lt}
use Prim.Native.Nat.{Ordering}

module _ {K V : Type 0} (order : Order K) (key : K) where
  pub before-append-from : (es : List (Entry K V)) → es ≡ before order key es ++ from order key es
  before-append-from [] = refl
  before-append-from (x ∷ es) = elim (Ordering-cases (order.cmp (x.key) key)) [
    | inl c ↦
        rw (before-lt order key x es c, from-lt order key x es c)
          (ap (λ l. x ∷ l) (before-append-from es))
    | inr (inl c) ↦ rw (c, before, from)
    | inr (inr c) ↦ rw (c, before, from)
  ]

  -- The list with an entry for the key put in its place.
  abbrev pub insert_entry : Entry K V → List (Entry K V) → List (Entry K V)
  insert_entry e es = before order key es ++ (e ∷ from order key es)

  Below-insert :
      (k : K) (e : Entry K V) (es : List (Entry K V))
      → order.cmp k (e.key) ≡ Ordering.lt
      → Below order k es
      → Below order k (insert_entry e es)
  Below-insert k e [] h b = (h, tt)
  Below-insert k e (x ∷ es) h (g, b) = elim (Ordering-cases (order.cmp (x.key) key)) [
    | inl c ↦ rw (before-lt order key x es c, from-lt order key x es c) (g, Below-insert k e es h b)
    | inr (inl c) ↦ rw (c, before, from) (h, (g, b))
    | inr (inr c) ↦ rw (c, before, from) (h, (g, b))
  ]

  pub Ascending-insert :
      (e : Entry K V) (es : List (Entry K V))
      → e.key ≡ key
      → lookup order es key ≡ none
      → Ascending order es
      → Ascending order (insert_entry e es)
  Ascending-insert e [] q l asc = (tt, tt)
  Ascending-insert e (x ∷ es) q l (b, asc) = elim (Ordering-cases (order.cmp (x.key) key)) [
    | inl c ↦
        rw (before-lt order key x es c, from-lt order key x es c)
          (
            Below-insert (x.key) e es (ap (order.cmp (x.key)) q ∙ c) b,
            Ascending-insert e es q (sym (lookup-skip order x es key c) ∙ l) asc,
          )
    | inr (inl c) ↦ absurd (none-ne-some x (sym l ∙ lookup-this order x es key c))
    | inr (inr c) ↦
        rw (c, before, from) ((lower c, Below-trans order (e.key) (x.key) es (lower c) b), (b, asc))
  ]
    where
      lower : order.cmp (x.key) key ≡ Ordering.gt → order.cmp (e.key) (x.key) ≡ Ordering.lt
      lower c = ap (λ k. order.cmp k (x.key)) q ∙ order.lt_of_gt (x.key) key c
