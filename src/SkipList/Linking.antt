-- ===== src/SkipList/Linking.antt =====
-- `link_nodes` links a new node in on all its levels.
use dbprimkit.Base.{
  ℕ, zero, suc, ◌≤◌, ◌<◌, ◌≡◌, ◌≢◌, refl, sym, ap, ◌∙◌, List, [], ◌∷◌, ◌++◌, some, get_elem?, set,
  arith, get_elem?-set_ne, length-set, append_assoc,
}
use dbprimkit.Error.{ok}
use dbprimkit.SkipList.{Node, SkipListMap, head, link, set_next, put_node}
use dbprimkit.SkipList.Update.{PrecVec, link_levels}
use dbprimkit.SkipList.Model.{Entry, first_at}
use dbprimkit.SkipList.Prec.{prec}
use dbprimkit.SkipList.Linked.{tab, tab-ext, NoneOn, prec-end, nowhere, behind}
use dbprimkit.SkipList.Splice.{node_of, Elsewhere, pick, Woven, pick-before, weave}
use dbprimkit.SkipList.Round.{
  get_elem?-tab, set_next-link, Distinct, Stored-set, Elsewhere-left, Elsewhere-mid,
  Elsewhere-right, Distinct-around, Mid, Half, Same, own_lem, head_lem, Woven-at,
}
use mathlib.Core.Path.{subst}

module _ {K V : Type 0} (e : Entry K V) (xs bs : List (Entry K V)) where
  -- The half in which the link before the place is set: it is that of the entry `a`.
  node_lem :
      (k : ℕ) (m : SkipListMap K V) (ys : List (Entry K V)) (a : Entry K V) (zs : List (Entry K V))
      → xs ≡ ys ++ (a ∷ zs)
      → Half e xs bs k m
      → k < e.height
      → k < a.height
      → NoneOn k zs
      → Elsewhere (a.ptr) ys
      → Elsewhere (a.ptr) zs
      → a.ptr ≢ e.ptr
      → Elsewhere (a.ptr) bs
      → (n : SkipListMap K V) × (set_next m (link (a.ptr) k) (some (e.ptr)) ≡ ok n)
        × Mid e xs bs k n
        × Same e xs bs m n
  unfolding put_node
  node_lem k m ys a zs q r h t none_on u w d z = (
    put_node m (a.ptr) new,
    set_next-link m (a.ptr) k (some (e.ptr)) _ (node_of (λ l. pick e bs (suc k) l zs) a) at
        (get_elem?-tab (λ l. pick e bs (suc k) l zs) 0 (a.height) k t),
    record {
      newborn = get_elem?-set_ne (m.heap) (a.ptr) (e.ptr) (some new) d ∙ r.newborn;
      woven =
          subst (λ l. Woven e bs k (set (m.heap) (a.ptr) (some new)) l) (sym q)
            (weave e bs k (m.heap) ys a zs h t none_on u w split);
      stored = Stored-set (m.heap) (a.ptr) (some new) bs z (r.stored);
      heads =
          r.heads
          ∙ tab-ext (λ l. pick e bs (suc k) l xs) (λ l. pick e bs k l xs) 0 (m.max_height)
              (λ i _.
                subst (λ l. pick e bs (suc k) i l ≡ pick e bs k i l) (sym q)
                  (pick-before e bs k i ys a zs t));
    },
    (refl, refl, sym (length-set (m.heap) (a.ptr) (some new))),
  )
    where
      new : Node K V
      new = record (node_of (λ l. pick e bs (suc k) l zs) a) {
        next = set (tab (λ l. pick e bs (suc k) l zs) 0 (a.height)) k (some (e.ptr));
      }

      split : Woven e bs (suc k) (m.heap) (ys ++ (a ∷ zs))
      split = subst (Woven e bs (suc k) (m.heap)) q (r.woven)

      at : get_elem? (m.heap) (a.ptr) ≡ some (some (node_of (λ l. pick e bs (suc k) l zs) a))
      at = Woven-at e xs bs (suc k) (m.heap) ys a zs split

  prec_lem :
      (k : ℕ) (m : SkipListMap K V)
      → Half e xs bs k m
      → k < e.height
      → k < m.max_height
      → Distinct (xs ++ (e ∷ bs))
      → (n : SkipListMap K V) × (set_next m (prec k (head k) xs) (some (e.ptr)) ≡ ok n)
        × Mid e xs bs k n
        × Same e xs bs m n
  prec_lem k m r h g d = elim (prec-end k (head k) xs) [
    | nowhere none_on p ↦
        let (n, s, done, same) = head_lem e xs bs k m r h g none_on in
        (n, ap (λ c. set_next m c (some (e.ptr))) p ∙ s, done, same)
    | behind ys a zs q t none_on p ↦
        let apart =
          Distinct-around ys a (zs ++ (e ∷ bs))
            (subst Distinct (ap (λ l. l ++ (e ∷ bs)) q ∙ append_assoc ys (a ∷ zs) (e ∷ bs)) d) in
        let (n, s, done, same) =
          node_lem k m ys a zs q r h t none_on (apart.0)
            (Elsewhere-left (a.ptr) zs (e ∷ bs) (apart.1)) (Elsewhere-mid (a.ptr) zs e bs (apart.1))
            ((Elsewhere-right (a.ptr) zs (e ∷ bs) (apart.1)).1) in
        (n, ap (λ c. set_next m c (some (e.ptr))) p ∙ s, done, same)
  ]

  -- All levels below `k`, from the top.
  abbrev pub spots : ℕ → PrecVec
  spots zero = []
  spots (suc k) = (prec k (head k) xs, first_at k bs) ∷ spots k

  pub levels_lem :
      (k : ℕ) (m : SkipListMap K V)
      → Mid e xs bs k m
      → k ≤ e.height
      → k ≤ m.max_height
      → Distinct (xs ++ (e ∷ bs))
      → (n : SkipListMap K V) × (link_levels m (spots k) (e.ptr) k ≡ ok n)
        × Mid e xs bs 0 n
        × Same e xs bs m n
  unfolding link_levels
  levels_lem zero m r h g d = (m, refl, r, (refl, refl, refl))
  levels_lem (suc k) m r h g d =
      let around = Distinct-around xs e bs d in
      let (n1, s1, r1, (a1, b1, c1)) = own_lem e xs bs k m r (omega arith) (around.0) (around.1) in
      let (n2, s2, r2, (a2, b2, c2)) = prec_lem k n1 r1 (omega arith) (omega (arith, a1)) d in
      let (n3, s3, r3, (a3, b3, c3)) = levels_lem k n2 r2 (omega arith) (omega (arith, a1, a2)) d in
      (n3, rw (s1, s2) s3, r3, (a1 ∙ a2 ∙ a3, b1 ∙ b2 ∙ b3, c1 ∙ c2 ∙ c3))
