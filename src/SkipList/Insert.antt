-- ===== src/SkipList/Insert.antt =====
-- `insert` on a map that does not have the key.
use dbprimkit.Base.{
  ℕ, zero, suc, ◌+◌, ◌≤◌, ◌<◌, ◌≡◌, refl, sym, ap, ap₂, ◌∙◌, List, ◌∷◌, ◌++◌, none, some, length,
  replicate, arith, length-append, drop, ltb-false, leb-true, leb-false, get_elem?-append_length,
}
use dbprimkit.Error.{ok}
use dbprimkit.SkipList.{Order, NodePtr, SkipListMap, head, new_node, gen_height, max_allowed}
use dbprimkit.SkipList.Update.{link_levels, link_nodes, insert_at, insert}
use dbprimkit.SkipList.Model.{Entry, first_at, links, Stored, lookup, IsRep}
use dbprimkit.SkipList.Prec.{prec, before, from}
use dbprimkit.SkipList.Places.{places, search_ext_lem}
use dbprimkit.SkipList.Linked.{tab, tab-ext, links-eq-tab}
use dbprimkit.SkipList.Splice.{pick}
use dbprimkit.SkipList.Round.{Distinct, Mid, Same, newborn_links}
use dbprimkit.SkipList.Linking.{levels_lem, spots}
use dbprimkit.SkipList.Inserted.{
  pick-all, pick-none, node-eq-cell, Woven-first, Stored-Tall, Stored-right, Stored-append,
  Stored-Elsewhere, Stored-last, Distinct-insert, Stored-Distinct,
}
use dbprimkit.SkipList.InPlace.{before-append-from, insert_entry, Ascending-insert}
use mathlib.Core.Path.{subst}

pub gen_height-bounds :
    (max_height r : ℕ)
    → 0 < max_height
    → (0 < gen_height max_height r) × (gen_height max_height r ≤ max_height)
unfolding gen_height
gen_height-bounds max_height r h = (omega arith, omega arith)

add_one : (n : ℕ) → n + 1 ≡ suc n
add_one n = omega arith

replicate-eq-tab :
    (f : ℕ → NodePtr) (l n : ℕ) → ((i : ℕ) → i < l + n → f i ≡ none) → replicate n none ≡ tab f l n
replicate-eq-tab f l zero h = refl
replicate-eq-tab f l (suc n) h =
    ap₂ (λ x xs. x ∷ xs) (sym (h l (omega arith)))
      (replicate-eq-tab f (suc l) n (λ i g. h i (omega arith)))

module _ {K V : Type 0} (e : Entry K V) (xs bs : List (Entry K V)) where
  length-spots : (k : ℕ) → length (spots e xs bs k) ≡ k
  length-spots zero = refl
  length-spots (suc k) = ap suc (length-spots k)

  -- The new node is on the heap, and not linked yet.
  Mid-first :
      (m : SkipListMap K V)
      → e.ptr ≡ length (m.heap)
      → m.next ≡ links 0 (m.max_height) (xs ++ bs)
      → Stored (m.heap) (xs ++ bs)
      → Mid e xs bs (e.height) ((new_node m (e.key) (e.value) (e.height)).1)
  unfolding new_node
  Mid-first m p h st = record {
    newborn =
        rw (p) (get_elem?-append_length (m.heap) _)
        ∙ ap
            (λ t.
              some (some (record { height = e.height; key = e.key; value = e.value; next = t })))
            (replicate-eq-tab (newborn_links e xs bs (e.height)) 0 (e.height)
              (λ i g. rw (leb-false (e.height) i (omega arith))));
    woven = Woven-first _ e xs bs (Stored-append (m.heap) _ (xs ++ bs) st);
    stored = Stored-append (m.heap) _ bs (Stored-right (m.heap) xs bs st);
    heads =
        h
        ∙ links-eq-tab 0 (m.max_height) (xs ++ bs)
        ∙ sym (
            tab-ext (λ l. pick e bs (e.height) l xs) (λ l. first_at l (xs ++ bs)) 0 (m.max_height)
              (λ i _. pick-all e bs xs i));
  }

  link_nodes_lem :
      (m : SkipListMap K V)
      → Mid e xs bs (e.height) m
      → e.height ≤ m.max_height
      → Distinct (xs ++ (e ∷ bs))
      → (n : SkipListMap K V) × (link_nodes m (spots e xs bs (e.height)) (e.ptr) (e.height) ≡ ok n)
        × Mid e xs bs 0 n
        × Same e xs bs m n
  unfolding link_nodes
  link_nodes_lem m r h d =
      let (n, s, r', same) = levels_lem e xs bs (e.height) m r (omega arith) h d in
      (
        n,
        rw (length-spots (e.height), ltb-false (e.height) (e.height) (omega arith))
            (ap (λ k. link_levels m (drop k (spots e xs bs (e.height))) (e.ptr) (e.height)) {y = 0}
                (omega arith)
              ∙ s),
        r',
        same,
      )

module _ {K V : Type 0} (order : Order K) where
  abbrev pub new_entry : SkipListMap K V → ℕ → K → V → Entry K V
  new_entry m r key value = record {
    ptr = length (m.heap);
    height = gen_height (m.max_height) r;
    key = key;
    value = value;
  }

  places-eq-spots :
      (m : SkipListMap K V) (key : K) (e : Entry K V) (es : List (Entry K V)) (h : ℕ)
      → places order m key es h ≡ spots e (before order key es) (from order key es) h
  places-eq-spots m key e es zero = refl
  places-eq-spots m key e es (suc h) =
      ap (λ l. (prec h (head h) (before order key es), first_at h (from order key es)) ∷ l)
        (places-eq-spots m key e es h)

  -- The map after the last round stands for the list with the new entry.
  finished :
      (m n : SkipListMap K V) (e : Entry K V) (es : List (Entry K V))
      → IsRep order m es
      → 0 < e.height
      → lookup order es (e.key) ≡ none
      → Mid e (before order (e.key) es) (from order (e.key) es) 0 n
      → n.max_height ≡ m.max_height
      → n.len ≡ m.len
      → length (n.heap) ≡ suc (length (m.heap))
      → IsRep order (record n { len = n.len + 1 }) (insert_entry order (e.key) e es)
  finished m n e es r pos l mid a b c =
      let xs = before order (e.key) es in
      let bs = from order (e.key) es in
      record {
        tall = subst (λ k. 0 < k) (sym a) (r.tall);
        heads =
            mid.heads
            ∙ tab-ext (λ l. pick e bs 0 l xs) (λ l. first_at l (xs ++ (e ∷ bs))) 0 (n.max_height)
                (λ i _. pick-none e bs xs i)
            ∙ sym (links-eq-tab 0 (n.max_height) (xs ++ (e ∷ bs)));
        stored =
            Stored-last (n.heap) e xs bs
              (Stored-Tall (m.heap) xs bs
                (subst (Stored (m.heap)) (before-append-from order (e.key) es) (r.stored)))
              (mid.woven)
              (
                pos,
                mid.newborn ∙ node-eq-cell _ e bs (λ l. rw (leb-true 0 l (omega arith))),
                mid.stored,
              );
        ascending = Ascending-insert order (e.key) e es refl l (r.ascending);
        room = omega (arith, length-insert e es, r.room, c);
        counted = omega (arith, length-insert e es, r.counted, b);
      }
    where
      length-insert :
          (e : Entry K V) (es : List (Entry K V))
          → length (insert_entry order (e.key) e es) ≡ suc (length es)
      length-insert e es = omega (
        arith,
        length-append (before order (e.key) es) (e ∷ from order (e.key) es),
        length-append (before order (e.key) es) (from order (e.key) es),
        ap length (before-append-from order (e.key) es),
      )

  -- Inserting a key that the map does not have ends without a panic, and answers that there was no old
  -- value; the map then stands for the list with the new entry in its place, with its tower linked in
  -- on every level, and its height is as before.
  pub insert_lem :
      (m : SkipListMap K V) (es : List (Entry K V)) (r : ℕ) (key : K) (value : V)
      → IsRep order m es
      → m.max_height ≤ max_allowed
      → lookup order es key ≡ none
      → (n : SkipListMap K V) × (insert order m r key value ≡ ok (none, n))
        × IsRep order n (insert_entry order key (new_entry m r key value) es)
        × (n.max_height ≡ m.max_height)
  unfolding insert insert_at new_node
  insert_lem m es r key value rep a l =
      let e = new_entry m r key value in
      let xs = before order key es in
      let bs = from order key es in
      let (pos, low) = gen_height-bounds (m.max_height) r (rep.tall) in
      let st = subst (Stored (m.heap)) (before-append-from order key es) (rep.stored) in
      let heads = rep.heads ∙ ap (links 0 (m.max_height)) (before-append-from order key es) in
      let apart = Distinct-insert e xs bs (Stored-Elsewhere (m.heap) (xs ++ bs) st) (
        subst Distinct (before-append-from order key es)
          (Stored-Distinct order (m.heap) es (rep.stored) (rep.ascending))) in
      let (n, s, mid, (p, q, c)) =
        link_nodes_lem e xs bs ((new_node m key value (e.height)).1)
          (Mid-first e xs bs m refl heads st) low apart in
      (
        record n { len = n.len + 1 },
        rw (
          search_ext_lem order m key es (gen_height (m.max_height) r) rep a low,
          l,
          places-eq-spots m key e es (gen_height (m.max_height) r),
          s,
        ),
        finished m n e es rep pos l mid (sym p) (sym q)
            (sym c ∙ length-append (m.heap) _ ∙ add_one (length (m.heap))),
        sym p,
      )
