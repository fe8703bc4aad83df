-- ===== src/SkipList/Round.antt =====
-- One round of `link_nodes`: both links of a level are set.
use dbprimkit.Base.{
  ℕ, zero, suc, ◌+◌, ◌<◌, ◌≡◌, ◌≢◌, refl, sym, ap, ◌∙◌, List, [], ◌∷◌, ◌++◌, Option, none, some,
  length, get_elem?, set, leb, leb→le, lt→ltb, leb-true, leb-false, if◌then◌else◌, arith,
  Bool-cases, ⊎-elim, get_elem?-set_self, get_elem?-set_ne, length-set,
}
use dbprimkit.Error.{ok}
use dbprimkit.SkipList.{
  NodePtr, Node, SkipListMap, head, link, set_next, put_node, next_addr_to_ptr, ptr_to_mut,
}
use dbprimkit.SkipList.Model.{Entry, first_at, Stored}
use dbprimkit.SkipList.Linked.{tab, set-tab, NoneOn, first_at-none}
use dbprimkit.SkipList.Splice.{
  Heap, node_of, Elsewhere, pick, Woven, Woven-set, pick-other, calm, get_elem?-lt,
}

pub get_elem?-tab :
    (f : ℕ → NodePtr) (l n i : ℕ) → i < n → get_elem? (tab f l n) i ≡ some (f (l + i))
get_elem?-tab f l zero i h = absurd (omega arith)
get_elem?-tab f l (suc n) zero h = ap (λ j. some (f j)) {x = l} (omega arith)
get_elem?-tab f l (suc n) (suc i) h =
    get_elem?-tab f (suc l) n i (omega arith) ∙ ap (λ j. some (f j)) {x = suc l + i} (omega arith)

module _ {K V : Type 0} where
  pub set_next-link :
      (m : SkipListMap K V) (p l : ℕ) (v old : NodePtr) (node : Node K V)
      → get_elem? (m.heap) p ≡ some (some node)
      → get_elem? (node.next) l ≡ some old
      → set_next m (link p l) v ≡ ok (put_node m p (record node { next = set (node.next) l v }))
  unfolding set_next next_addr_to_ptr ptr_to_mut
  set_next-link m p l v old node at e = rw (at, e)

  pub set_next-head :
      (m : SkipListMap K V) (l : ℕ) (v old : NodePtr)
      → get_elem? (m.next) l ≡ some old
      → set_next m (head l) v ≡ ok (record m { next = set (m.next) l v })
  unfolding set_next next_addr_to_ptr
  set_next-head m l v old e = rw (e)

  -- No two entries have one node.
  abbrev pub Distinct : List (Entry K V) → Type 0
  Distinct [] = Unit
  Distinct (x ∷ xs) = Elsewhere (x.ptr) xs × Distinct xs

  pub Stored-set :
      (heap : Heap K V) (p : ℕ) (v : Option (Node K V)) (es : List (Entry K V))
      → Elsewhere p es
      → Stored heap es
      → Stored (set heap p v) es
  Stored-set heap p v [] n w = tt
  Stored-set heap p v (x ∷ xs) (h, n) (pos, at, w) =
      (pos, get_elem?-set_ne heap p (x.ptr) v h ∙ at, Stored-set heap p v xs n w)

  -- What is elsewhere than a list is elsewhere than its parts.
  pub Elsewhere-left : (p : ℕ) (xs ys : List (Entry K V)) → Elsewhere p (xs ++ ys) → Elsewhere p xs
  Elsewhere-left p [] ys n = tt
  Elsewhere-left p (x ∷ xs) ys (h, n) = (h, Elsewhere-left p xs ys n)

  pub Elsewhere-mid :
      (p : ℕ) (xs : List (Entry K V)) (a : Entry K V) (ys : List (Entry K V))
      → Elsewhere p (xs ++ (a ∷ ys))
      → p ≢ a.ptr
  Elsewhere-mid p [] a ys (h, n) = h
  Elsewhere-mid p (x ∷ xs) a ys (h, n) = Elsewhere-mid p xs a ys n

  pub Elsewhere-right : (p : ℕ) (xs ys : List (Entry K V)) → Elsewhere p (xs ++ ys) → Elsewhere p ys
  Elsewhere-right p [] ys n = n
  Elsewhere-right p (x ∷ xs) ys (h, n) = Elsewhere-right p xs ys n

  pub Distinct-around :
      (xs : List (Entry K V)) (a : Entry K V) (ys : List (Entry K V))
      → Distinct (xs ++ (a ∷ ys))
      → Elsewhere (a.ptr) xs × Elsewhere (a.ptr) ys
  Distinct-around [] a ys (n, d) = (tt, n)
  Distinct-around (x ∷ xs) a ys (n, d) =
      let (u, w) = Distinct-around xs a ys d in
      ((λ z. Elsewhere-mid (x.ptr) xs a ys n (sym z), u), w)

module _ {K V : Type 0} (e : Entry K V) (xs bs : List (Entry K V)) where
  abbrev pub newborn_links : ℕ → ℕ → NodePtr
  newborn_links k l = if leb k l then first_at l bs else none

  -- The levels from `k` on are linked.
  pub record Mid (k : ℕ) (m : SkipListMap K V) : Type 0 where
    pub newborn : get_elem? (m.heap) (e.ptr) ≡ some (some (node_of (newborn_links k) e))
    pub woven : Woven e bs k (m.heap) xs
    pub stored : Stored (m.heap) bs
    pub heads : m.next ≡ tab (λ l. pick e bs k l xs) 0 (m.max_height)

  newborn-other : (k j : ℕ) → j ≢ k → newborn_links (suc k) j ≡ newborn_links k j
  newborn-other k j n =
      ⊎-elim (Bool-cases (leb k j))
        (λ t. rw (t, leb-true (suc k) j (grind (arith, leb→le k j t, n))))
        (λ t. rw (t, leb-false (suc k) j (ground arith)))

  -- What stays the same.
  abbrev pub Same : SkipListMap K V → SkipListMap K V → Type 0
  Same m n = (m.max_height ≡ n.max_height) × (m.len ≡ n.len) × (length (m.heap) ≡ length (n.heap))

  -- The half of a round in which the new node gets its own link.
  pub record Half (k : ℕ) (m : SkipListMap K V) : Type 0 where
    pub newborn : get_elem? (m.heap) (e.ptr) ≡ some (some (node_of (newborn_links k) e))
    pub woven : Woven e bs (suc k) (m.heap) xs
    pub stored : Stored (m.heap) bs
    pub heads : m.next ≡ tab (λ l. pick e bs (suc k) l xs) 0 (m.max_height)

  pub own_lem :
      (k : ℕ) (m : SkipListMap K V)
      → Mid (suc k) m
      → k < e.height
      → Elsewhere (e.ptr) xs
      → Elsewhere (e.ptr) bs
      → (n : SkipListMap K V) × (set_next m (link (e.ptr) k) (first_at k bs) ≡ ok n)
        × Half k n
        × Same m n
  unfolding put_node
  own_lem k m r h u w = (
    put_node m (e.ptr) new,
    set_next-link m (e.ptr) k (first_at k bs) _ (node_of (newborn_links (suc k)) e) (r.newborn)
        (get_elem?-tab (newborn_links (suc k)) 0 (e.height) k h),
    record {
      newborn =
          get_elem?-set_self (m.heap) (e.ptr) (some new)
            (get_elem?-lt (m.heap) (e.ptr) _ (r.newborn))
          ∙ ap
              (λ t.
                some (some (record { height = e.height; key = e.key; value = e.value; next = t })))
              (set-tab (newborn_links (suc k)) (newborn_links k) 0 (e.height) k (first_at k bs) h
                target (λ j n. newborn-other k j (λ z. n (omega (arith, z)))));
      woven = Woven-set e bs (suc k) (m.heap) (e.ptr) (some new) xs u (r.woven);
      stored = Stored-set (m.heap) (e.ptr) (some new) bs w (r.stored);
      heads = r.heads;
    },
    (refl, refl, sym (length-set (m.heap) (e.ptr) (some new))),
  )
    where
      new : Node K V
      new = record (node_of (newborn_links (suc k)) e) {
        next = set (tab (newborn_links (suc k)) 0 (e.height)) k (first_at k bs);
      }

      target : first_at k bs ≡ newborn_links k (0 + k)
      target = sym (ap (newborn_links k) {y = k} (omega arith) ∙ rw (leb-true k k (omega arith)))

  pub Woven-at :
      (k : ℕ) (heap : Heap K V) (ys : List (Entry K V)) (a : Entry K V) (zs : List (Entry K V))
      → Woven e bs k heap (ys ++ (a ∷ zs))
      → get_elem? heap (a.ptr) ≡ some (some (node_of (λ l. pick e bs k l zs) a))
  Woven-at k heap [] a zs (at, w) = at
  Woven-at k heap (y ∷ ys) a zs (at, w) = Woven-at k heap ys a zs w

  -- The half in which the link before the place is set: no entry before the place is on the level.
  pub head_lem :
      (k : ℕ) (m : SkipListMap K V)
      → Half k m
      → k < e.height
      → k < m.max_height
      → NoneOn k xs
      → (n : SkipListMap K V) × (set_next m (head k) (some (e.ptr)) ≡ ok n) × Mid k n × Same m n
  head_lem k m r h g none_on = (
    record m { next = set (m.next) k (some (e.ptr)) },
    set_next-head m k (some (e.ptr)) _ (
        ap (λ t. get_elem? t k) (r.heads)
        ∙ get_elem?-tab (λ l. pick e bs (suc k) l xs) 0 (m.max_height) k g),
    record {
      newborn = r.newborn;
      woven = calm e bs k (m.heap) xs none_on (r.woven);
      stored = r.stored;
      heads =
          ap (λ t. set t k (some (e.ptr))) (r.heads)
          ∙ set-tab (λ l. pick e bs (suc k) l xs) (λ l. pick e bs k l xs) 0 (m.max_height) k
              (some (e.ptr)) g target (λ j n. pick-other e bs k j xs (λ z. n (omega (arith, z))));
    },
    (refl, refl, refl),
  )
    where
      target : some (e.ptr) ≡ pick e bs k (0 + k) xs
      target = sym (
          ap (λ l. pick e bs k l xs) {y = k} (omega arith)
          ∙ rw (leb-true k k (omega arith))
              (first_at-none k xs (e ∷ bs) none_on ∙ rw (lt→ltb k (e.height) h)))
