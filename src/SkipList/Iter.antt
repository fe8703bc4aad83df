-- ===== src/SkipList/Iter.antt =====
-- src/skiplist/map/ordinary.rs: `iter` and its `next`, and `clear`.
use dbprimkit.Base.{
  ℕ, zero, suc, ◌≤◌, ◌<◌, ◌≡◌, refl, List, [], ◌∷◌, Option, none, some, length, get_elem?, lt→ltb,
  arith,
}
use dbprimkit.Error.{Outcome, ok, panic, ◌>>=◌}
use dbprimkit.SkipList.{
  Order, NodePtr, SkipListMap, head, link, ptr_to_mut, next_addr_to_ptr, set_next, free,
}
use dbprimkit.SkipList.Search.{enough}
use dbprimkit.SkipList.Model.{Entry, first_at, get_elem?-links, cell, Stored, IsRep}

module _ {K V : Type 0} where
  -- `Iter::next`: the pair, and the iterator's pointer behind it.
  unfoldable pub next : SkipListMap K V → NodePtr → Outcome (Option (K × V) × NodePtr)
  next m none = ok (none, none)
  next m (some p) = do
    node ← ptr_to_mut m p
    ptr ← next_addr_to_ptr m (link p 0)
    ok (some (node.key, node.value), ptr)

  -- A `for` loop over the iterator. A panic also stands for too little fuel.
  unfoldable pub collect : ℕ → SkipListMap K V → NodePtr → Outcome (List (K × V))
  unfolding next
  collect zero m ptr = panic
  collect (suc fuel) m ptr = do
    (pair, ptr) ← next m ptr
    elim pair [ none ↦ ok [] | some kv ↦ do rest ← collect fuel m ptr; ok (kv ∷ rest) ]

  unfoldable pub iter : SkipListMap K V → Outcome (List (K × V))
  unfolding collect
  iter m = do ptr ← next_addr_to_ptr m (head 0); collect (enough m) m ptr

  -- `for level in 0..self.max_height`, the links of the map to null.
  unfoldable pub clear_heads : SkipListMap K V → (levels level : ℕ) → Outcome (SkipListMap K V)
  clear_heads m zero level = ok m
  clear_heads m (suc levels) level = do
    m ← set_next m (head level) none
    clear_heads m levels (suc level)

  -- The `while` loop, which drops node after node. A panic also stands for too little fuel.
  unfoldable pub drop_nodes : ℕ → SkipListMap K V → NodePtr → Outcome (SkipListMap K V)
  drop_nodes zero m node_ptr = panic
  drop_nodes (suc fuel) m none = ok m
  drop_nodes (suc fuel) m (some p) = do
    next ← next_addr_to_ptr m (link p 0)
    drop_nodes fuel (free m p) next

  unfoldable pub clear : SkipListMap K V → Outcome (SkipListMap K V)
  unfolding clear_heads drop_nodes
  clear m = do
    node_ptr ← next_addr_to_ptr m (head 0)
    m ← clear_heads m (m.max_height) 0
    m ← drop_nodes (enough m) m node_ptr
    ok (record m { len = 0 })

  abbrev pub pairs : List (Entry K V) → List (K × V)
  pairs [] = []
  pairs (e ∷ es) = (e.key, e.value) ∷ pairs es

  next_lem :
      (m : SkipListMap K V) (e : Entry K V) (es : List (Entry K V))
      → 0 < e.height
      → get_elem? (m.heap) (e.ptr) ≡ some (some (cell e es))
      → next m (some (e.ptr)) ≡ ok (some (e.key, e.value), first_at 0 es)
  unfolding next next_addr_to_ptr ptr_to_mut
  next_lem m e es h at = rw (at, get_elem?-links 0 (e.height) 0 es h)

  collect_lem :
      (fuel : ℕ) (m : SkipListMap K V) (es : List (Entry K V))
      → length es < fuel
      → Stored (m.heap) es
      → collect fuel m (first_at 0 es) ≡ ok (pairs es)
  unfolding collect next
  collect_lem zero m es h st = absurd (omega arith)
  collect_lem (suc fuel) m [] h st = refl
  collect_lem (suc fuel) m (e ∷ es) h (pos, at, st) =
      rw (lt→ltb 0 (e.height) pos, next_lem m e es pos at, collect_lem fuel m es (omega arith) st)

module _ {K V : Type 0} (order : Order K) where
  -- On a map that stands for a list of entries, the iterator ends without a panic, and has given every
  -- pair of the list, in the order of the keys.
  pub iter_lem :
      (m : SkipListMap K V) (es : List (Entry K V)) → IsRep order m es → iter m ≡ ok (pairs es)
  unfolding iter next_addr_to_ptr
  iter_lem m es r =
      rw (r.heads, get_elem?-links 0 (m.max_height) 0 es (r.tall))
        (collect_lem (enough m) m es (bound (r.room)) (r.stored))
    where
      bound : length es ≤ length (m.heap) → length es < enough m
      bound h = omega arith
