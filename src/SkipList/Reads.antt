-- ===== src/SkipList/Reads.antt =====
-- What the calls that read a map answer.
use dbprimkit.Base.{
  ◌≡◌, sym, some-injective, none-ne-some, ◌∙◌, inl, inr, Bool, true, false, List, [], ◌∷◌, Option,
  none, some, get_elem?, Option-cases,
}
use dbprimkit.Error.{ok}
use dbprimkit.SkipList.{Order, Node, SkipListMap, ptr_to_mut}
use dbprimkit.SkipList.Search.{get_key_value, get, contains_key}
use dbprimkit.SkipList.Model.{Entry, cell, Stored, lookup, IsRep}
use dbprimkit.SkipList.Find.{search_lem, Ordering-cases, lookup-skip, lookup-miss, lookup-this}
use mathlib.Core.Path.{subst}

module _ {K V : Type 0} where
  abbrev pub pair_of : Option (Entry K V) → Option (K × V)
  pair_of none = none
  pair_of (some e) = some (e.key, e.value)

  abbrev pub value_of : Option (Entry K V) → Option V
  value_of none = none
  value_of (some e) = some (e.value)

  abbrev pub is_there : Option (Entry K V) → Bool
  is_there none = false
  is_there (some e) = true

module _ {K V : Type 0} (order : Order K) where
  -- What is found is stored.
  pub lookup-Stored :
      (heap : List (Option (Node K V))) (es : List (Entry K V)) (key : K) (e : Entry K V)
      → Stored heap es
      → lookup order es key ≡ some e
      → (bs : List (Entry K V)) × (get_elem? heap (e.ptr) ≡ some (some (cell e bs)))
  lookup-Stored heap [] key e st h = absurd (none-ne-some e h)
  lookup-Stored heap (e' ∷ es) key e (pos, at, st) h =
      elim (Ordering-cases (order.cmp (e'.key) key)) [
        | inl c ↦ lookup-Stored heap es key e st (sym (lookup-skip order e' es key c) ∙ h)
        | inr (inl c) ↦ (
          es,
          subst (λ x. get_elem? heap (x.ptr) ≡ some (some (cell x es)))
              (some-injective e' e (sym (lookup-this order e' es key c) ∙ h)) at,
        )
        | inr (inr c) ↦ lookup-Stored heap es key e st (sym (lookup-miss order e' es key c) ∙ h)
      ]

  -- On a map that stands for a list of entries, the calls that read it end without a panic, and answer
  -- from the entry that the list has under the key.
  pub reads_lem :
      (m : SkipListMap K V) (es : List (Entry K V)) (key : K)
      → IsRep order m es
      → (get_key_value order m key ≡ ok (pair_of (lookup order es key)))
        × (get order m key ≡ ok (value_of (lookup order es key)))
        × (contains_key order m key ≡ ok (is_there (lookup order es key)))
  unfolding get_key_value get contains_key ptr_to_mut
  reads_lem m es key r = elim (Option-cases (lookup order es key)) [
    | inl h ↦ (
      rw (search_lem order m key es r, h),
      rw (search_lem order m key es r, h),
      rw (search_lem order m key es r, h),
    )
    | inr (e, h) ↦
        let (bs, at) = lookup-Stored (m.heap) es key e (r.stored) h in
        (
          rw (search_lem order m key es r, h, at),
          rw (search_lem order m key es r, h, at),
          rw (search_lem order m key es r, h),
        )
  ]
