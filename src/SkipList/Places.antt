-- ===== src/SkipList/Places.antt =====
-- `search_ext` gives the node with the key, and on each level the link before the place of the key.
use dbprimkit.Base.{
  ℕ, zero, suc, ◌+◌, ◌-◌, ◌≤◌, ◌<◌, ◌≡◌, refl, sym, ap, ap₂, ◌∙◌, ◌⊎◌, inl, inr, List, [], ◌∷◌,
  ◌++◌, Option, none, some, length, ltb, ltb→lt, ltb_false→le, lt→ltb, if◌then◌else◌, arith,
  Bool-cases, ⊎-elim, append_assoc, append-nil, length-append, min,
}
use dbprimkit.Error.{ok}
use dbprimkit.SkipList.{Order, NodePtr, Node, SkipListMap, Addr, head, link, max_allowed}
use dbprimkit.SkipList.Search.{enough}
use dbprimkit.SkipList.Update.{PrecVec, push, walk_ext, level_ext, search_ext_from, search_ext}
use dbprimkit.SkipList.Model.{Entry, first_at, Stored, Ascending, lookup, IsRep}
use dbprimkit.SkipList.Find.{
  Ordering-cases, Part, begin_lem, ptr_of, lookup-Below, lookup-skip, lookup-miss, lookup-this,
  Below-trans,
}
use dbprimkit.SkipList.Prec.{
  prec, last_at, before, from, before-lt, from-lt, equal_at, stop_at, walk_ext_lem,
}
use Prim.Native.Nat.{Ordering}

module _ {K V : Type 0} where
  -- Behind an entry on the level, what was found before it no longer counts.
  prec-append :
      (l : ℕ) (d d' : Addr) (xs bs : List (Entry K V)) (e : Entry K V)
      → l < e.height
      → prec l d (xs ++ (e ∷ bs)) ≡ prec l d' (e ∷ bs)
  prec-append l d d' [] bs e h = rw (lt→ltb l (e.height) h, prec)
  prec-append l d d' (a ∷ xs) bs e h =
      prec-append l (if ltb l (a.height) then link (a.ptr) l else d) d' xs bs e h

module _ {K V : Type 0} (order : Order K) (key : K) where
  -- What is found on the lowest level is what the list has under the key.
  hit_lem :
      (heap : List (Option (Node K V))) (es : List (Entry K V))
      → Stored heap es
      → Ascending order es
      → (if equal_at order key 0 (from order key es) then first_at 0 (from order key es) else none)
        ≡ ptr_of (lookup order es key)
  hit_lem heap [] st asc = refl
  hit_lem heap (e ∷ es) (pos, at, st) (b, asc) = elim (Ordering-cases (order.cmp (e.key) key)) [
    | inl c ↦ rw (from-lt order key e es c, lookup-skip order e es key c) (hit_lem heap es st asc)
    | inr (inl c) ↦
        rw (lookup-this order e es key c, c, from)
          (rw (c, lt→ltb 0 (e.height) pos, equal_at, first_at))
    | inr (inr c) ↦
        rw
          (
            lookup-miss order e es key c,
            lookup-Below order key es
                (Below-trans order key (e.key) es (order.lt_of_gt (e.key) key c) b),
            c,
            from,
          )
          (rw (c, lt→ltb 0 (e.height) pos, equal_at, first_at))
  ]

module _ {K V : Type 0} (order : Order K) (m : SkipListMap K V) (key : K)
    (all : List (Entry K V)) where
  -- The entries that the search still has before it, at level `l`: all of them, or those from a node
  -- of the level on, whose key is below `key`.
  data Ahead (l : ℕ) : NodePtr → List (Entry K V) → Type 0 where
    at_head : Ahead l none all
    at_node :
        (e : Entry K V) (xs bs : List (Entry K V))
        → l < e.height
        → order.cmp (e.key) key ≡ Ordering.lt
        → before order key all ≡ xs ++ before order key (e ∷ bs)
        → from order key all ≡ from order key (e ∷ bs)
        → Part order m key (e ∷ bs)
        → length (e ∷ bs) ≤ length (m.heap)
        → Ahead l (some (e.ptr)) (e ∷ bs)

  -- Where the walk along a level leaves the search.
  last_lem :
      (l : ℕ) (prev : NodePtr) (xs es : List (Entry K V))
      → before order key all ≡ xs ++ before order key es
      → from order key all ≡ from order key es
      → Part order m key es
      → length es ≤ length (m.heap)
      → (last_at l prev (before order key es) ≡ prev)
        ⊎ ((ptr : NodePtr) × (es' : List (Entry K V)) × (last_at l prev (before order key es) ≡ ptr)
            × Ahead l ptr es')
  last_lem l prev xs [] p q part n = inl refl
  last_lem l prev xs (e ∷ es) p q (((pos, at, st)), (b, asc)) n =
      elim (Ordering-cases (order.cmp (e.key) key)) [
        | inl c ↦ rw (before-lt order key e es c) (
            onward c (
              last_lem l (if ltb l (e.height) then some (e.ptr) else prev) (xs ++ (e ∷ [])) es
                (p
                  ∙ ap (λ l. xs ++ l) (before-lt order key e es c)
                  ∙ sym (append_assoc xs (e ∷ []) (before order key es)))
                (q ∙ from-lt order key e es c) (st, asc) (omega arith)))
        | inr (inl c) ↦ inl (rw (c, before))
        | inr (inr c) ↦ inl (rw (c, before))
      ]
    where
      next : NodePtr
      next = if ltb l (e.height) then some (e.ptr) else prev

      onward :
          order.cmp (e.key) key ≡ Ordering.lt
          → (last_at l next (before order key es) ≡ next)
            ⊎ ((ptr : NodePtr) × (es' : List (Entry K V)) × (last_at l next (before order key es)
                  ≡ ptr)
                × Ahead l ptr es')
          → (last_at l next (before order key es) ≡ prev)
            ⊎ ((ptr : NodePtr) × (es' : List (Entry K V)) × (last_at l next (before order key es)
                  ≡ ptr)
                × Ahead l ptr es')
      onward c (inr r) = inr r
      onward c (inl r) = elim (Bool-cases (ltb l (e.height))) [
        | inl t ↦ inr (
          some (e.ptr),
          e ∷ es,
          r ∙ rw (t),
          at_node e xs es (ltb→lt l (e.height) t) c p q ((pos, at, st), (b, asc)) n,
        )
        | inr t ↦ inl (r ∙ rw (t))
      ]

  lower : (l : ℕ) (next : NodePtr) (es : List (Entry K V)) → Ahead (suc l) next es → Ahead l next es
  lower l next es at_head = at_head
  lower l next es (at_node e xs bs t c p q part n) = at_node e xs bs (omega arith) c p q part n

  abbrev place : ℕ → Addr × NodePtr
  place l = (prec l (head l) (before order key all), first_at l (from order key all))

  abbrev noted : (h l : ℕ) → PrecVec → PrecVec
  noted h l vec = if ltb l h then push vec ((place l).0) ((place l).1) else vec

  -- One round of the loop over the levels.
  at_level :
      (h l : ℕ) (next : NodePtr) (es : List (Entry K V)) (vec : PrecVec)
      → IsRep order m all
      → l < m.max_height
      → Ahead l next es
      → level_ext order m key h l next vec
        ≡ ok (stop_at order key l (head l) none es, noted h l vec)
  unfolding level_ext
  at_level h l next es vec r g at_head =
      rw (begin_lem order m key all l none all r g (inl (refl, refl))) (
        rw (
          walk_ext_lem order m key (enough m) l (head l) none all (full (r.room))
            (r.stored, r.ascending)))
    where
      full : length all ≤ length (m.heap) → length all < enough m
      full n = omega arith
  at_level h l next es vec r g (at_node e xs bs t c p q part n) = rw (walked) (
      ap₂
        (λ a n.
          ok (stop_at order key l (head l) none (e ∷ bs), if ltb l h then push vec a n else vec))
        prec-eq (ap (first_at l) (sym q)))
    where
      first : first_at l (e ∷ bs) ≡ some (e.ptr)
      first = rw (lt→ltb l (e.height) t)

      walked :
          walk_ext order (enough m) m key l (head l) none (some (e.ptr))
          ≡ ok (stop_at order key l (head l) none (e ∷ bs))
      walked =
          ap (walk_ext order (enough m) m key l (head l) none) (sym first)
          ∙ walk_ext_lem order m key (enough m) l (head l) none (e ∷ bs) (omega arith) part

      prec-eq : prec l (head l) (before order key (e ∷ bs)) ≡ prec l (head l) (before order key all)
      prec-eq =
          ap (prec l (head l)) (before-lt order key e bs c)
          ∙ sym (prec-append l (head l) (head l) xs (before order key bs) e t)
          ∙ ap (λ ys. prec l (head l) (xs ++ ys)) (sym (before-lt order key e bs c))
          ∙ ap (prec l (head l)) (sym p)

  -- The vector when the levels from `l` down are done.
  abbrev collected : (h l : ℕ) → PrecVec → PrecVec
  collected h zero vec = noted h zero vec
  collected h (suc l) vec = collected h l (noted h (suc l) vec)

  abbrev hit : NodePtr
  hit = if equal_at order key 0 (from order key all) then first_at 0 (from order key all) else none

  from-Ahead :
      (l : ℕ) (next : NodePtr) (es : List (Entry K V))
      → Ahead l next es
      → from order key all ≡ from order key es
  from-Ahead l next es at_head = refl
  from-Ahead l next es (at_node e xs bs t c p q part n) = q

  onward :
      (l : ℕ) (next : NodePtr) (es : List (Entry K V))
      → IsRep order m all
      → Ahead l next es
      → (last_at l none (before order key es) ≡ none)
        ⊎ ((ptr : NodePtr) × (es' : List (Entry K V)) × (last_at l none (before order key es) ≡ ptr)
            × Ahead l ptr es')
  onward l next es r at_head = last_lem l none [] all refl refl (r.stored, r.ascending) (r.room)
  onward l next es r (at_node e xs bs t c p q part n) = last_lem l none xs (e ∷ bs) p q part n

  search_ext_from_lem :
      (h l : ℕ) (next : NodePtr) (es : List (Entry K V)) (vec : PrecVec)
      → IsRep order m all
      → l < m.max_height
      → Ahead l next es
      → search_ext_from order m key h l next vec ≡ ok (hit, collected h l vec)
  unfolding search_ext_from
  search_ext_from_lem h zero next es vec r g a =
      rw (at_level h 0 next es vec r g a, from-Ahead 0 next es a)
  search_ext_from_lem h (suc l) next es vec r g a = rw (at_level h (suc l) next es vec r g a) (
      ⊎-elim (onward (suc l) next es r a)
        (λ q.
          rw (q) (search_ext_from_lem h l none all (noted h (suc l) vec) r (omega arith) at_head))
        (λ (ptr, es', q, a'). rw (q) (
          search_ext_from_lem h l ptr es' (noted h (suc l) vec) r (omega arith)
            (lower l ptr es' a'))))

  -- The links before the key, from level `h - 1` down, each with the node it leads to.
  abbrev pub places : ℕ → PrecVec
  places zero = []
  places (suc h) = place h ∷ places h

  noted-more :
      (h l : ℕ) (vec : PrecVec)
      → l < h
      → length vec < max_allowed
      → noted h l vec ≡ vec ++ (place l ∷ [])
  noted-more h l vec t n = rw (lt→ltb l h t, lt→ltb (length vec) max_allowed n)

  collected-eq-places :
      (h l : ℕ) (vec : PrecVec)
      → length vec + min h (suc l) ≤ max_allowed
      → collected h l vec ≡ vec ++ places (min h (suc l))
  collected-eq-places h zero vec n = elim (Bool-cases (ltb 0 h)) [
    | inl t ↦
        noted-more h 0 vec (ltb→lt 0 h t) (omega (arith, ltb→lt 0 h t))
        ∙ ap (λ k. vec ++ places k) {x = 1} (omega (arith, ltb→lt 0 h t))
    | inr t ↦ rw (t) (
        sym (append-nil vec)
        ∙ ap (λ k. vec ++ places k) {x = 0} (omega (arith, ltb_false→le 0 h t)))
  ]
  collected-eq-places h (suc l) vec n = elim (Bool-cases (ltb (suc l) h)) [
    | inl t ↦
        let more = ltb→lt (suc l) h t in
        ap (collected h l) (noted-more h (suc l) vec more (omega arith))
        ∙ collected-eq-places h l (vec ++ (place (suc l) ∷ []))
            (omega (arith, length-append vec (place (suc l) ∷ [])))
        ∙ append_assoc vec (place (suc l) ∷ []) (places (min h (suc l)))
        ∙ ap (λ k. vec ++ (place (suc l) ∷ places k)) {y = suc l} (omega arith)
        ∙ ap (λ k. vec ++ places k) {x = suc (suc l)} (omega arith)
    | inr t ↦ rw (t) (
        collected-eq-places h l vec (omega (arith, ltb_false→le (suc l) h t))
        ∙ ap (λ k. vec ++ places k) (omega (arith, ltb_false→le (suc l) h t)))
  ]

  -- On a map that stands for a list of entries, and that is no higher than allowed, `search_ext` ends,
  -- without a panic and within the fuel given, with the node of the entry that the list has under the
  -- key, or null, and with one link for each of the levels asked for, from the top: the last one on
  -- that level before the place of the key, and the node that it leads to.
  pub search_ext_lem :
      (h : ℕ)
      → IsRep order m all
      → m.max_height ≤ max_allowed
      → h ≤ m.max_height
      → search_ext order m key h ≡ ok (ptr_of (lookup order all key), places h)
  unfolding search_ext
  search_ext_lem h r a b =
      search_ext_from_lem h (m.max_height - 1) none all [] r (top (r.tall)) at_head
      ∙ ap₂ (λ p v. ok (p, v)) (hit_lem order key (m.heap) all (r.stored) (r.ascending))
          (collected-eq-places h (m.max_height - 1) [] (fits (r.tall))
            ∙ ap places (all_levels (r.tall)))
    where
      top : 0 < m.max_height → m.max_height - 1 < m.max_height
      top t = omega arith

      fits : 0 < m.max_height → 0 + min h (suc (m.max_height - 1)) ≤ max_allowed
      fits t = omega arith

      all_levels : 0 < m.max_height → min h (suc (m.max_height - 1)) ≡ h
      all_levels t = omega arith
