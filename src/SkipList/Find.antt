-- ===== src/SkipList/Find.antt =====
-- `search` finds what the list of entries has under the key.
use dbprimkit.Base.{
  ℕ, zero, suc, ◌+◌, ◌-◌, ◌≤◌, ◌<◌, ◌≡◌, refl, ap, ◌∙◌, ◌⊎◌, inl, inr, List, [], ◌∷◌, Option, none,
  some, length, get_elem?, ltb, ltb→lt, ltb_false→le, lt→ltb, arith, Bool-cases,
}
use dbprimkit.Error.{Outcome, ok}
use dbprimkit.SkipList.{Order, NodePtr, SkipListMap, link, ptr_to_mut, next_addr_to_ptr}
use dbprimkit.SkipList.Search.{Stop, found, descend, walk, begin, enough, search_from, search}
use dbprimkit.SkipList.Model.{
  Entry, first_at, get_elem?-links, cell, Stored, Below, Ascending, lookup, IsRep,
}
use Prim.Native.Nat.{Ordering}
use mathlib.Core.Path.{subst}

pub Ordering-cases : (o : Ordering) → (o ≡ Ordering.lt) ⊎ ((o ≡ Ordering.eq) ⊎ (o ≡ Ordering.gt))
Ordering-cases Ordering.lt = inl refl
Ordering-cases Ordering.eq = inr (inl refl)
Ordering-cases Ordering.gt = inr (inr refl)

module _ {K V : Type 0} where
  abbrev pub ptr_of : Option (Entry K V) → NodePtr
  ptr_of none = none
  ptr_of (some e) = some (e.ptr)

module _ {K V : Type 0} (order : Order K) where
  pub lookup-skip :
      (e : Entry K V) (es : List (Entry K V)) (key : K)
      → order.cmp (e.key) key ≡ Ordering.lt
      → lookup order (e ∷ es) key ≡ lookup order es key
  lookup-skip e es key h = rw (h, lookup)

  pub lookup-miss :
      (e : Entry K V) (es : List (Entry K V)) (key : K)
      → order.cmp (e.key) key ≡ Ordering.gt
      → lookup order (e ∷ es) key ≡ lookup order es key
  lookup-miss e es key h = rw (h, lookup)

  pub lookup-this :
      (e : Entry K V) (es : List (Entry K V)) (key : K)
      → order.cmp (e.key) key ≡ Ordering.eq
      → lookup order (e ∷ es) key ≡ some e
  lookup-this e es key h = rw (h, lookup)

  pub Below-trans :
      (a b : K) (es : List (Entry K V))
      → order.cmp a b ≡ Ordering.lt
      → Below order b es
      → Below order a es
  Below-trans a b [] h bs = bs
  Below-trans a b (e ∷ es) h (k, bs) = (order.lt_trans a b (e.key) h k, Below-trans a b es h bs)

  -- A key below all entries is not among them.
  pub lookup-Below :
      (key : K) (es : List (Entry K V)) → Below order key es → lookup order es key ≡ none
  lookup-Below key [] b = refl
  lookup-Below key (e ∷ es) (h, b) =
      lookup-miss e es key (order.gt_of_lt key (e.key) h) ∙ lookup-Below key es b

module _ {K V : Type 0} (order : Order K) (m : SkipListMap K V) (key : K) where
  -- Some entry's key is at most `key`.
  abbrev Reaches : List (Entry K V) → Type 0
  Reaches es = (k : K) → Below order k es → order.cmp k key ≡ Ordering.lt

  -- Entries from which the search for the key can go on.
  abbrev pub Part : List (Entry K V) → Type 0
  Part es = Stored (m.heap) es × Ascending order es

  -- How a walk along level `l` over the entries ends, with the outcome `r`.
  data WalkEnd (l : ℕ) (prev : NodePtr) (es : List (Entry K V)) (r : Outcome Stop) : Type 0 where
    hit :
        (e : Entry K V)
        → r ≡ ok (found (e.ptr))
        → lookup order es key ≡ some e
        → Reaches es
        → WalkEnd l prev es r
    stay : r ≡ ok (descend prev) → (l ≡ 0 → lookup order es key ≡ none) → WalkEnd l prev es r
    move :
        (e : Entry K V) (bs : List (Entry K V))
        → r ≡ ok (descend (some (e.ptr)))
        → lookup order es key ≡ lookup order (e ∷ bs) key
        → l < e.height
        → Part (e ∷ bs)
        → length (e ∷ bs) ≤ length es
        → Reaches es
        → (l ≡ 0 → lookup order es key ≡ none)
        → WalkEnd l prev es r

  -- A walk that goes past an entry on its level.
  past :
      (l : ℕ) (prev : NodePtr) (e : Entry K V) (es : List (Entry K V)) (r r' : Outcome Stop)
      → r ≡ r'
      → l < e.height
      → Part (e ∷ es)
      → order.cmp (e.key) key ≡ Ordering.lt
      → WalkEnd l (some (e.ptr)) es r'
      → WalkEnd l prev (e ∷ es) r
  past l prev e es r r' q t p c (hit e' h f reach) =
      hit e' (q ∙ h) (lookup-skip order e es key c ∙ f)
        (λ k (b, bs). order.lt_trans k (e.key) key b c)
  past l prev e es r r' q t p c (stay h f) =
      move e es (q ∙ h) refl t p (omega arith) (λ k (b, bs). order.lt_trans k (e.key) key b c)
        (λ z. lookup-skip order e es key c ∙ f z)
  past l prev e es r r' q t p c (move e' bs h f t' p' s reach n) =
      move e' bs (q ∙ h) (lookup-skip order e es key c ∙ f) t' p' (omega arith)
        (λ k (b, bs). order.lt_trans k (e.key) key b c) (λ z. lookup-skip order e es key c ∙ n z)

  -- A walk that does not see an entry, which is not on its level.
  below :
      (l : ℕ) (prev : NodePtr) (e : Entry K V) (es : List (Entry K V)) (r : Outcome Stop)
      → e.height ≤ l
      → 0 < e.height
      → Part (e ∷ es)
      → WalkEnd l prev es r
      → WalkEnd l prev (e ∷ es) r
  below l prev e es r t pos (st, (b, asc)) (hit e' h f reach) =
      hit e' h (lookup-skip order e es key (reach (e.key) b) ∙ f)
        (λ k (c, bs). order.lt_trans k (e.key) key c (reach (e.key) b))
  below l prev e es r t pos (st, (b, asc)) (stay h f) = stay h (λ z. absurd (omega arith))
  below l prev e es r t pos (st, (b, asc)) (move e' bs h f t' p' s reach n) =
      move e' bs h (lookup-skip order e es key (reach (e.key) b) ∙ f) t' p' (omega arith)
        (λ k (c, bs). order.lt_trans k (e.key) key c (reach (e.key) b)) (λ z. absurd (omega arith))

  pub link_there :
      (l : ℕ) (e : Entry K V) (es : List (Entry K V))
      → l < e.height
      → get_elem? (m.heap) (e.ptr) ≡ some (some (cell e es))
      → next_addr_to_ptr m (link (e.ptr) l) ≡ ok (first_at l es)
  unfolding next_addr_to_ptr ptr_to_mut
  link_there l e es t at =
      rw (at, get_elem?-links 0 (e.height) l es t)
        (ap (λ i. ok (first_at i es)) {x = 0 + l} (omega arith))

  -- One access of a walk, at an entry on the level.
  meet :
      (fuel l : ℕ) (prev : NodePtr) (e : Entry K V) (es : List (Entry K V))
      → l < e.height
      → Part (e ∷ es)
      → WalkEnd l (some (e.ptr)) es (walk order fuel m key l (some (e.ptr)) (first_at l es))
      → WalkEnd l prev (e ∷ es) (walk order (suc fuel) m key l prev (some (e.ptr)))
  unfolding walk ptr_to_mut next_addr_to_ptr
  meet fuel l prev e es t ((pos, at, st), (b, asc)) rest =
      elim (Ordering-cases (order.cmp (e.key) key)) [
        | inl c ↦
            past l prev e es _ _ (rw (at, c, link_there l e es t at)) t ((pos, at, st), (b, asc)) c
              rest
        | inr (inl c) ↦
            hit e (rw (at, c)) (lookup-this order e es key c) (λ k (h, _).
              subst (λ z. order.cmp k z ≡ Ordering.lt) (order.eq_of-cmp (e.key) key c) h)
        | inr (inr c) ↦ stay (rw (at, c)) (λ z.
            lookup-miss order e es key c
            ∙ (lookup-Below order key es
                (Below-trans order key (e.key) es (order.lt_of_gt (e.key) key c) b)))
      ]

  walk_lem :
      (fuel l : ℕ) (prev : NodePtr) (es : List (Entry K V))
      → length es < fuel
      → Part es
      → WalkEnd l prev es (walk order fuel m key l prev (first_at l es))
  unfolding walk
  walk_lem zero l prev es h p = absurd (omega arith)
  walk_lem (suc fuel) l prev [] h p = stay refl (λ _. refl)
  walk_lem (suc fuel) l prev (e ∷ es) h ((pos, at, st), (b, asc)) =
      elim (Bool-cases (ltb l (e.height))) [
        | inl t ↦ rw (t) (
            meet fuel l prev e es (ltb→lt l (e.height) t) ((pos, at, st), (b, asc))
              (walk_lem fuel l (some (e.ptr)) es (omega arith) (st, asc)))
        | inr t ↦ rw (t) (
            below l prev e es _ (ltb_false→le l (e.height) t) pos ((pos, at, st), (b, asc))
              (walk_lem (suc fuel) l prev es (omega arith) (st, asc)))
      ]

  -- Where the search stands when it comes to level `l`: at the head, with all entries before it, or
  -- at a node of the level, which the entries begin with.
  abbrev pub Stands : List (Entry K V) → ℕ → NodePtr → List (Entry K V) → Type 0
  Stands all l next es =
      ((next ≡ none) × (es ≡ all))
      ⊎ ((e : Entry K V) × (bs : List (Entry K V)) × (next ≡ some (e.ptr))
          × (es ≡ e ∷ bs)
          × (l < e.height))

  pub begin_lem :
      (all : List (Entry K V)) (l : ℕ) (next : NodePtr) (es : List (Entry K V))
      → IsRep order m all
      → l < m.max_height
      → Stands all l next es
      → begin m l next ≡ ok (first_at l es)
  unfolding begin next_addr_to_ptr
  begin_lem all l next es r h (inl (n, q)) =
      rw (n, q, r.heads, get_elem?-links 0 (m.max_height) l all h)
        (ap (λ i. ok (first_at i all)) {x = 0 + l} (omega arith))
  begin_lem all l next es r h (inr (e, bs, n, q, t)) = rw (n, q, lt→ltb l (e.height) t)

  search_from_lem :
      (all : List (Entry K V)) (l : ℕ) (next : NodePtr) (es : List (Entry K V))
      → IsRep order m all
      → l < m.max_height
      → Stands all l next es
      → Part es
      → length es ≤ length (m.heap)
      → lookup order all key ≡ lookup order es key
      → search_from order m key l next ≡ ok (ptr_of (lookup order all key))
  unfolding search_from
  search_from_lem all zero next es r h s p n q =
      rw (begin_lem all 0 next es r h s) (elim (walk_lem (enough m) 0 none es (omega arith) p) [
        | hit e w f _ ↦ rw (w, q, f)
        | stay w f ↦ rw (w, q, f refl)
        | move e bs w _ _ _ _ _ f ↦ rw (w, q, f refl)
      ])
  search_from_lem all (suc l) next es r h s p n q =
      rw (begin_lem all (suc l) next es r h s)
        (elim (walk_lem (enough m) (suc l) none es (omega arith) p) [
          | hit e w f _ ↦ rw (w, q, f)
          | stay w f ↦ rw (w) (
              search_from_lem all l none all r (omega arith) (inl (refl, refl))
                (r.stored, r.ascending) (r.room) refl)
          | move e bs w f t p' n' _ _ ↦ rw (w) (
              search_from_lem all l (some (e.ptr)) (e ∷ bs) r (omega arith)
                (inr (e, bs, refl, refl, omega arith)) p' (omega arith) (q ∙ f))
        ])

  -- On a map that stands for a list of entries, `search` ends, without a panic and within the fuel
  -- given, at the node of the entry that the list has under the key, or at null if it has none.
  pub search_lem :
      (es : List (Entry K V))
      → IsRep order m es
      → search order m key ≡ ok (ptr_of (lookup order es key))
  unfolding search
  search_lem es r =
      search_from_lem es (m.max_height - 1) none es r (lower (r.tall)) (inl (refl, refl))
        (r.stored, r.ascending) (r.room) refl
    where
      lower : 0 < m.max_height → m.max_height - 1 < m.max_height
      lower h = omega arith
