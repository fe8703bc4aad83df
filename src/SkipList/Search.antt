-- ===== src/SkipList/Search.antt =====
-- src/skiplist/map/ordinary.rs: `search` and the calls that read the map.
use dbprimkit.Base.{ℕ, zero, suc, ◌-◌, Bool, true, false, Option, none, some, length, ◌==◌}
use dbprimkit.Error.{Outcome, ok, panic, ◌>>=◌}
use dbprimkit.SkipList.{Order, NodePtr, SkipListMap, head, link, ptr_to_mut, next_addr_to_ptr}
use Prim.Native.Nat.{Ordering}

-- How the walk along a level ends: at the key, or with the last node before it, if there is one.
pub data Stop : Type 0 where
  found : ℕ → Stop
  descend : NodePtr → Stop

abbrev pub after : Stop → (NodePtr → Outcome NodePtr) → Outcome NodePtr
after (found p) k = ok (some p)
after (descend prev_val) k = k prev_val

abbrev is_some : NodePtr → Bool
is_some none = false
is_some (some p) = true

module _ {K V : Type 0} where
  -- Where the walk along a level begins: at `next`, or if it is null at the link of the map.
  unfoldable pub begin : SkipListMap K V → ℕ → NodePtr → Outcome NodePtr
  begin m level none = next_addr_to_ptr m (head level)
  begin m level (some p) = ok (some p)

  -- More accesses than there are nodes are never needed on one level.
  abbrev pub enough : SkipListMap K V → ℕ
  enough m = suc (length (m.heap))

  abbrev pair_at : SkipListMap K V → NodePtr → Outcome (Option (K × V))
  pair_at m none = ok none
  pair_at m (some p) = do node ← ptr_to_mut m p; ok (some (node.key, node.value))

  abbrev second : Option (K × V) → Option V
  second none = none
  second (some (k, v)) = some v

module _ {K V : Type 0} (order : Order K) where
  -- The loop `'same_level`. A panic also stands for too little fuel.
  unfoldable pub walk :
      ℕ → SkipListMap K V → K → (level : ℕ) (prev_val next : NodePtr) → Outcome Stop
  walk zero m key level prev_val next = panic
  walk (suc fuel) m key level prev_val none = ok (descend prev_val)
  walk (suc fuel) m key level prev_val (some p) = do
    node ← ptr_to_mut m p
    elim (order.cmp (node.key) key) [
      | Ordering.eq ↦ ok (found p)
      | Ordering.lt ↦ next_addr_to_ptr m (link p level) >>= walk fuel m key level (some p)
      | Ordering.gt ↦ ok (descend prev_val)
    ]

  -- The loop `'level_loop`.
  unfoldable pub search_from : SkipListMap K V → K → ℕ → NodePtr → Outcome NodePtr
  unfolding walk begin
  search_from m key zero next = do
    start ← begin m 0 next
    stop ← walk (enough m) m key 0 none start
    after stop (λ prev_val. ok none)
  search_from m key (suc level) next = do
    start ← begin m (suc level) next
    stop ← walk (enough m) m key (suc level) none start
    after stop (search_from m key level)

  unfoldable pub search : SkipListMap K V → K → Outcome NodePtr
  unfolding search_from
  search m key = search_from m key (m.max_height - 1) none

  unfoldable pub get_key_value : SkipListMap K V → K → Outcome (Option (K × V))
  unfolding search
  get_key_value m key = do ptr ← search m key; pair_at m ptr

  unfoldable pub get : SkipListMap K V → K → Outcome (Option V)
  unfolding get_key_value
  get m key = do pair ← get_key_value m key; ok (second pair)

  unfoldable pub contains_key : SkipListMap K V → K → Outcome Bool
  unfolding search
  contains_key m key = do ptr ← search m key; ok (is_some ptr)

-- `len` and `is_empty`.
module _ {K V : Type 0} where
  unfoldable pub is_empty : SkipListMap K V → Bool
  is_empty m = m.len == 0
