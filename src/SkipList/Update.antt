-- ===== src/SkipList/Update.antt =====
-- src/skiplist/map/ordinary.rs: `search_ext`, and the calls that change the map.
use dbprimkit.Base.{
  ℕ, zero, suc, ◌+◌, ◌-◌, Bool, true, false, List, [], ◌∷◌, ◌++◌, Option, none, some, length, drop,
  ltb, if◌then◌else◌,
}
use dbprimkit.Error.{Outcome, ok, panic, ◌>>=◌}
use dbprimkit.SkipList.{
  Order, NodePtr, SkipListMap, Addr, head, link, ptr_to_mut, next_addr_to_ptr, set_next, put_node,
  new_node, free, gen_height, max_allowed,
}
use dbprimkit.SkipList.Search.{begin, enough}
use Prim.Native.Nat.{Ordering}

-- `PrecVec`: for each level from the top the link before the place, and where it points.
abbrev pub PrecVec : Type 0
PrecVec = List (Addr × NodePtr)

-- A push beyond the capacity does nothing.
abbrev pub push : PrecVec → Addr → NodePtr → PrecVec
push vec prec next = if ltb (length vec) max_allowed then vec ++ ((prec, next) ∷ []) else vec

-- How the walk along a level ends: whether at the key, the link and the node it ends at, and the last
-- node before it.
pub record StopExt : Type 0 where
  pub equal : Bool
  pub next_addr : Addr
  pub next : NodePtr
  pub prev_val : NodePtr

abbrev at : NodePtr → Outcome ℕ
at none = panic
at (some p) = ok p

module _ {K V : Type 0} where
  -- The loop of `link_nodes` (and of `like_nodes_heap_vec`) over the lower `level` levels.
  unfoldable pub link_levels : SkipListMap K V → PrecVec → ℕ → ℕ → Outcome (SkipListMap K V)
  link_levels m [] ins_node level = ok m
  link_levels m (_ ∷ vec) ins_node zero = panic
  link_levels m ((prec, next) ∷ vec) ins_node (suc level) = do
    m ← set_next m (link ins_node level) next
    m ← set_next m prec (some ins_node)
    link_levels m vec ins_node level

  -- A slice from before the start of the vector is out of bounds.
  unfoldable pub link_nodes : SkipListMap K V → PrecVec → ℕ → ℕ → Outcome (SkipListMap K V)
  unfolding link_levels
  link_nodes m vec ins_node height =
      if ltb (length vec) height
      then panic
      else link_levels m (drop (length vec - height) vec) ins_node height

  -- The loop of `unlink_nodes` (and of `unlike_nodes_heap_vec`).
  unfoldable pub unlink_levels : SkipListMap K V → PrecVec → ℕ → Outcome (SkipListMap K V)
  unlink_levels m [] level = ok m
  unlink_levels m (_ ∷ vec) zero = panic
  unlink_levels m ((prec, next) ∷ vec) (suc level) = do
    p ← at next
    new_next ← next_addr_to_ptr m (link p level)
    m ← set_next m prec new_next
    unlink_levels m vec level

  unfoldable pub unlink_nodes : SkipListMap K V → PrecVec → ℕ → Outcome (SkipListMap K V)
  unfolding unlink_levels
  unlink_nodes m vec height =
      if ltb (length vec) height
      then panic
      else unlink_levels m (drop (length vec - height) vec) height

  -- The second half of `insert`: the old value of a key that is there, or the new node.
  unfoldable pub insert_at :
      SkipListMap K V
      → K
      → V
      → (this_height : ℕ) → NodePtr × PrecVec
      → Outcome (Option V × SkipListMap K V)
  unfolding link_nodes new_node put_node
  insert_at m key value this_height (some p, vec) = do
    node ← ptr_to_mut m p
    ok (some (node.value), put_node m p (record node { value = value }))
  insert_at m key value this_height (none, vec) = do
    let (ins_node, m) = new_node m key value this_height
    m ← link_nodes m vec ins_node this_height
    ok (none, record m { len = m.len + 1 })

  unfoldable pub remove_at :
      SkipListMap K V → NodePtr × PrecVec → Outcome (Option (K × V) × SkipListMap K V)
  unfolding unlink_nodes free
  remove_at m (none, vec) = ok (none, m)
  remove_at m (some p, vec) = do
    node ← ptr_to_mut m p
    m ← unlink_nodes m vec (node.height)
    ok (some (node.key, node.value), record (free m p) { len = m.len - 1 })

module _ {K V : Type 0} (order : Order K) where
  unfoldable pub walk_ext :
      ℕ
      → SkipListMap K V
      → K
      → (level : ℕ) (next_addr : Addr) (prev_val next : NodePtr) → Outcome StopExt
  walk_ext zero m key level next_addr prev_val next = panic
  walk_ext (suc fuel) m key level next_addr prev_val none =
      ok (record { equal = false; next_addr = next_addr; next = none; prev_val = prev_val })
  walk_ext (suc fuel) m key level next_addr prev_val (some p) = do
    node ← ptr_to_mut m p
    elim (order.cmp (node.key) key) [
      | Ordering.eq ↦
          ok (record { equal = true; next_addr = next_addr; next = some p; prev_val = prev_val })
      | Ordering.lt ↦
          next_addr_to_ptr m (link p level) >>= walk_ext fuel m key level (link p level) (some p)
      | Ordering.gt ↦
          ok (record { equal = false; next_addr = next_addr; next = some p; prev_val = prev_val })
    ]

  -- The walk along one level, which records the level if it is one of `prec_height`.
  unfoldable pub level_ext :
      SkipListMap K V
      → K
      → (prec_height level : ℕ) → NodePtr
      → PrecVec
      → Outcome (StopExt × PrecVec)
  unfolding walk_ext begin
  level_ext m key prec_height level next vec = do
    start ← begin m level next
    stop ← walk_ext (enough m) m key level (head level) none start
    ok (stop, if ltb level prec_height then push vec (stop.next_addr) (stop.next) else vec)

  unfoldable pub search_ext_from :
      SkipListMap K V
      → K
      → (prec_height level : ℕ) → NodePtr
      → PrecVec
      → Outcome (NodePtr × PrecVec)
  unfolding level_ext
  search_ext_from m key prec_height zero next vec = do
    (stop, vec) ← level_ext m key prec_height 0 next vec
    ok (if stop.equal then stop.next else none, vec)
  search_ext_from m key prec_height (suc level) next vec = do
    (stop, vec) ← level_ext m key prec_height (suc level) next vec
    search_ext_from m key prec_height level (stop.prev_val) vec

  unfoldable pub search_ext : SkipListMap K V → K → ℕ → Outcome (NodePtr × PrecVec)
  unfolding search_ext_from
  search_ext m key prec_height = search_ext_from m key prec_height (m.max_height - 1) none []

  -- `r` is the number that the generator draws.
  unfoldable pub insert : SkipListMap K V → ℕ → K → V → Outcome (Option V × SkipListMap K V)
  unfolding search_ext insert_at gen_height
  insert m r key value =
      let this_height = gen_height (m.max_height) r in
      search_ext m key this_height >>= insert_at m key value this_height

  unfoldable pub remove_entry : SkipListMap K V → K → Outcome (Option (K × V) × SkipListMap K V)
  unfolding search_ext remove_at
  remove_entry m key = search_ext m key (m.max_height) >>= remove_at m
