-- ===== src/SkipList/Replace.antt =====
-- `insert` on a map that has the key replaces the value.
use dbprimkit.Base.{
  ℕ, zero, suc, ◌≤◌, ◌≡◌, ◌≢◌, refl, sym, ap, ap₂, ◌∙◌, inl, inr, List, [], ◌∷◌, Option, some,
  length, get_elem?, set, if◌then◌else◌, ltb, arith, get_elem?-set_self, get_elem?-set_ne,
  length-set, none-ne-some, some-injective,
}
use dbprimkit.Error.{ok}
use dbprimkit.SkipList.{Order, Node, SkipListMap, put_node, gen_height, max_allowed, ptr_to_mut}
use dbprimkit.SkipList.Update.{insert, insert_at}
use dbprimkit.SkipList.Model.{Entry, first_at, links, cell, Stored, Below, Ascending, lookup, IsRep}
use dbprimkit.SkipList.Find.{Ordering-cases, lookup-skip, lookup-miss, lookup-this}
use dbprimkit.SkipList.Places.{search_ext_lem}
use dbprimkit.SkipList.Splice.{Elsewhere, get_elem?-lt}
use dbprimkit.SkipList.Round.{Distinct, Stored-set}
use dbprimkit.SkipList.Inserted.{Stored-Distinct}
use dbprimkit.SkipList.Insert.{gen_height-bounds}
use dbprimkit.SkipList.Reads.{lookup-Stored}
use Prim.Native.Nat.{Ordering}
use mathlib.Core.Path.{subst}

module _ {K V : Type 0} (order : Order K) (key : K) (value : V) where
  abbrev pub revalued : Entry K V → Entry K V
  revalued e = record { ptr = e.ptr; height = e.height; key = e.key; value = value }

  -- The list with another value under the key.
  abbrev pub replace : List (Entry K V) → List (Entry K V)
  replace [] = []
  replace (x ∷ es) = elim (order.cmp (x.key) key) [
    | Ordering.eq ↦ revalued x ∷ es
    | _ ↦ x ∷ replace es
  ]

  pub replace-other :
      (x : Entry K V) (es : List (Entry K V))
      → order.cmp (x.key) key ≡ Ordering.lt
      → replace (x ∷ es) ≡ x ∷ replace es
  replace-other x es h = rw (h, replace)

  pub replace-above :
      (x : Entry K V) (es : List (Entry K V))
      → order.cmp (x.key) key ≡ Ordering.gt
      → replace (x ∷ es) ≡ x ∷ replace es
  replace-above x es h = rw (h, replace)

  pub replace-this :
      (x : Entry K V) (es : List (Entry K V))
      → order.cmp (x.key) key ≡ Ordering.eq
      → replace (x ∷ es) ≡ revalued x ∷ es
  replace-this x es h = rw (h, replace)

  length-replace : (es : List (Entry K V)) → length (replace es) ≡ length es
  length-replace [] = refl
  length-replace (x ∷ es) = elim (Ordering-cases (order.cmp (x.key) key)) [
    | inl c ↦ ap length (replace-other x es c) ∙ ap suc (length-replace es)
    | inr (inl c) ↦ ap length (replace-this x es c)
    | inr (inr c) ↦ ap length (replace-above x es c) ∙ ap suc (length-replace es)
  ]

  first_at-replace : (l : ℕ) (es : List (Entry K V)) → first_at l (replace es) ≡ first_at l es
  first_at-replace l [] = refl
  first_at-replace l (x ∷ es) = elim (Ordering-cases (order.cmp (x.key) key)) [
    | inl c ↦
        ap (first_at l) (replace-other x es c)
        ∙ ap (λ p. if ltb l (x.height) then some (x.ptr) else p) (first_at-replace l es)
    | inr (inl c) ↦ ap (first_at l) (replace-this x es c)
    | inr (inr c) ↦
        ap (first_at l) (replace-above x es c)
        ∙ ap (λ p. if ltb l (x.height) then some (x.ptr) else p) (first_at-replace l es)
  ]

  links-replace : (l n : ℕ) (es : List (Entry K V)) → links l n (replace es) ≡ links l n es
  links-replace l zero es = refl
  links-replace l (suc n) es =
      ap₂ (λ x xs. x ∷ xs) (first_at-replace l es) (links-replace (suc l) n es)

  Below-replace : (k : K) (es : List (Entry K V)) → Below order k es → Below order k (replace es)
  Below-replace k [] b = tt
  Below-replace k (x ∷ es) (h, b) = elim (Ordering-cases (order.cmp (x.key) key)) [
    | inl c ↦ rw (replace-other x es c) (h, Below-replace k es b)
    | inr (inl c) ↦ rw (replace-this x es c) (h, b)
    | inr (inr c) ↦ rw (replace-above x es c) (h, Below-replace k es b)
  ]

  Ascending-replace : (es : List (Entry K V)) → Ascending order es → Ascending order (replace es)
  Ascending-replace [] asc = tt
  Ascending-replace (x ∷ es) (b, asc) = elim (Ordering-cases (order.cmp (x.key) key)) [
    | inl c ↦ rw (replace-other x es c) (Below-replace (x.key) es b, Ascending-replace es asc)
    | inr (inl c) ↦ rw (replace-this x es c) (b, asc)
    | inr (inr c) ↦ rw (replace-above x es c) (Below-replace (x.key) es b, Ascending-replace es asc)
  ]

  found-Elsewhere :
      (p : ℕ) (es : List (Entry K V)) (e : Entry K V)
      → Elsewhere p es
      → lookup order es key ≡ some e
      → p ≢ e.ptr
  found-Elsewhere p [] e n l = absurd (none-ne-some e l)
  found-Elsewhere p (x ∷ es) e (h, n) l = elim (Ordering-cases (order.cmp (x.key) key)) [
    | inl c ↦ found-Elsewhere p es e n (sym (lookup-skip order x es key c) ∙ l)
    | inr (inl c) ↦
        subst (λ y. p ≢ y.ptr) (some-injective x e (sym (lookup-this order x es key c) ∙ l)) h
    | inr (inr c) ↦ found-Elsewhere p es e n (sym (lookup-miss order x es key c) ∙ l)
  ]

  abbrev with_value : Node K V → Node K V
  with_value node = record node { value = value }

  cell-replace :
      (x : Entry K V) (es : List (Entry K V))
      → some (some (cell x es)) ≡ some (some (cell x (replace es)))
  cell-replace x es =
      ap (λ t. some (some (record { height = x.height; key = x.key; value = x.value; next = t })))
        (sym (links-replace 0 (x.height) es))

  Stored-replace :
      (heap : List (Option (Node K V))) (es : List (Entry K V)) (e : Entry K V) (node : Node K V)
      → Stored heap es
      → Distinct es
      → lookup order es key ≡ some e
      → get_elem? heap (e.ptr) ≡ some (some node)
      → Stored (set heap (e.ptr) (some (with_value node))) (replace es)
  Stored-replace heap [] e node st d l at = absurd (none-ne-some e l)
  Stored-replace heap (x ∷ es) e node (pos, at', st) (n, d) l at =
      elim (Ordering-cases (order.cmp (x.key) key)) [
        | inl c ↦ rw (replace-other x es c) (
            other (sym (lookup-skip order x es key c) ∙ l)
              (Stored-replace heap es e node st d (sym (lookup-skip order x es key c) ∙ l) at))
        | inr (inl c) ↦
            rw (replace-this x es c)
              (this (some-injective x e (sym (lookup-this order x es key c) ∙ l)))
        | inr (inr c) ↦ rw (replace-above x es c) (
            other (sym (lookup-miss order x es key c) ∙ l)
              (Stored-replace heap es e node st d (sym (lookup-miss order x es key c) ∙ l) at))
      ]
    where
      other :
          lookup order es key ≡ some e
          → Stored (set heap (e.ptr) (some (with_value node))) (replace es)
          → Stored (set heap (e.ptr) (some (with_value node))) (x ∷ replace es)
      other l rest = (
        pos,
        get_elem?-set_ne heap (e.ptr) (x.ptr) _ (λ z. found-Elsewhere (x.ptr) es e n l (sym z))
            ∙ at'
            ∙ cell-replace x es,
        rest,
      )

      this : x ≡ e → Stored (set heap (e.ptr) (some (with_value node))) (revalued x ∷ es)
      this q =
          let p = ap (λ y. y.ptr) q in
          (
            pos,
            ap (get_elem? (set heap (e.ptr) (some (with_value node)))) p
                ∙ get_elem?-set_self heap (e.ptr) _ (get_elem?-lt heap (e.ptr) _ at)
                ∙ ap (λ c. some (some (with_value c)))
                    (some-injective node (cell x es) (
                      some-injective (some node) (some (cell x es))
                        (sym at ∙ ap (get_elem? heap) (sym p) ∙ at'))),
            Stored-set heap (e.ptr) _ es (subst (λ p. Elsewhere p es) p n) st,
          )

  -- Inserting a key that the map has ends without a panic, and answers its old value; the map then
  -- stands for the list with the new value under the key, and its height is as before.
  pub replace_lem :
      (m : SkipListMap K V) (es : List (Entry K V)) (e : Entry K V) (r : ℕ)
      → IsRep order m es
      → m.max_height ≤ max_allowed
      → lookup order es key ≡ some e
      → (n : SkipListMap K V) × (insert order m r key value ≡ ok (some (e.value), n))
        × IsRep order n (replace es)
        × (n.max_height ≡ m.max_height)
  unfolding insert insert_at put_node ptr_to_mut
  replace_lem m es e r rep a l =
      let (bs, at) = lookup-Stored order (m.heap) es key e (rep.stored) l in
      let (pos, low) = gen_height-bounds (m.max_height) r (rep.tall) in
      (
        put_node m (e.ptr) (with_value (cell e bs)),
        rw (search_ext_lem order m key es (gen_height (m.max_height) r) rep a low, l, at),
        record {
          tall = rep.tall;
          heads = rep.heads ∙ sym (links-replace 0 (m.max_height) es);
          stored =
              Stored-replace (m.heap) es e (cell e bs) (rep.stored)
                (Stored-Distinct order (m.heap) es (rep.stored) (rep.ascending)) l at;
          ascending = Ascending-replace es (rep.ascending);
          room = omega (
            arith,
            length-replace es,
            length-set (m.heap) (e.ptr) (some (with_value (cell e bs))),
            rep.room,
          );
          counted = rep.counted ∙ sym (length-replace es);
        },
        refl,
      )
