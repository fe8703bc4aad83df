-- ===== src/SkipList.antt =====
-- src/skiplist/map/ordinary.rs: the nodes, the heap that they are allocated on, and the addresses of
-- the links between them.
use dbprimkit.Base.{
  ℕ, zero, suc, ◌+◌, ◌-◌, ◌/◌, ◌%◌, ◌≡◌, Bool, true, false, List, [], ◌∷◌, ◌++◌, Option, none, some,
  length, get_elem?, set, drop, replicate, min, max, ltb, ◌==◌, if◌then◌else◌,
}
use dbprimkit.Error.{Outcome, ok, panic, ◌>>=◌}
use Prim.Native.Nat.{Ordering}
pub mod Search
pub mod Update
pub mod Model
pub mod Find
pub mod Reads
pub mod Prec
pub mod Places
pub mod Linked
pub mod Splice
pub mod Round
pub mod Linking
pub mod Inserted
pub mod InPlace
pub mod Insert
pub mod Replace
pub mod History
pub mod Iter
mod Tests

-- The order of the keys: `Ord::cmp` and its laws.
pub record Order (K : Type 0) : Type 0 where
  pub cmp : K → K → Ordering
  pub cmp_refl : (a : K) → cmp a a ≡ Ordering.eq
  pub eq_of-cmp : (a b : K) → cmp a b ≡ Ordering.eq → a ≡ b
  pub lt_trans : (a b c : K) → cmp a b ≡ Ordering.lt → cmp b c ≡ Ordering.lt → cmp a c ≡ Ordering.lt
  pub lt_of_gt : (a b : K) → cmp a b ≡ Ordering.gt → cmp b a ≡ Ordering.lt
  pub gt_of_lt : (a b : K) → cmp a b ≡ Ordering.lt → cmp b a ≡ Ordering.gt

-- A pointer to a node is its place on the heap; `none` is null.
abbrev pub NodePtr : Type 0
NodePtr = Option ℕ

pub record Node (K V : Type 0) : Type 0 where
  pub height : ℕ
  pub key : K
  pub value : V
  pub next : List NodePtr

-- The map together with the heap; a freed place is `none`.
pub record SkipListMap (K V : Type 0) : Type 0 where
  pub max_height : ℕ
  pub len : ℕ
  pub next : List NodePtr
  pub heap : List (Option (Node K V))

-- `*mut NodePtr`: a link of the map itself, or of a node, at a level.
pub data Addr : Type 0 where
  head : ℕ → Addr
  link : ℕ → ℕ → Addr

abbrev present : Option NodePtr → Outcome NodePtr
present (some ptr) = ok ptr
present none = panic

module _ {K V : Type 0} where
  abbrev alive : Option (Option (Node K V)) → Outcome (Node K V)
  alive (some (some node)) = ok node
  alive _ = panic

  -- `ptr_to_mut`: to follow a pointer to no node is undefined behaviour.
  unfoldable pub ptr_to_mut : SkipListMap K V → ℕ → Outcome (Node K V)
  ptr_to_mut m p = alive (get_elem? (m.heap) p)

  unfoldable pub next_addr_to_ptr : SkipListMap K V → Addr → Outcome NodePtr
  unfolding ptr_to_mut
  next_addr_to_ptr m (head level) = present (get_elem? (m.next) level)
  next_addr_to_ptr m (link p level) = do
    node ← ptr_to_mut m p
    present (get_elem? (node.next) level)

  unfoldable pub put_node : SkipListMap K V → ℕ → Node K V → SkipListMap K V
  put_node m p node = record m { heap = set (m.heap) p (some node) }

  unfoldable pub set_next : SkipListMap K V → Addr → NodePtr → Outcome (SkipListMap K V)
  unfolding next_addr_to_ptr ptr_to_mut put_node
  set_next m (head level) ptr = do
    _ ← next_addr_to_ptr m (head level)
    ok (record m { next = set (m.next) level ptr })
  set_next m (link p level) ptr = do
    _ ← next_addr_to_ptr m (link p level)
    node ← ptr_to_mut m p
    ok (put_node m p (record node { next = set (node.next) level ptr }))

  -- `Node::new`, with links that are null, and the map with it on its heap.
  unfoldable pub new_node : SkipListMap K V → K → V → ℕ → ℕ × SkipListMap K V
  new_node m key value height =
      let node : Node K V = record {
        height = height;
        key = key;
        value = value;
        next = replicate height none;
      } in
      (length (m.heap), record m { heap = m.heap ++ (some node ∷ []) })

  -- The box that `from_node_ptr` gives is dropped.
  unfoldable pub free : SkipListMap K V → ℕ → SkipListMap K V
  free m p = record m { heap = set (m.heap) p none }

-- `u32::trailing_zeros`, of 32 digits at most.
abbrev pub trailing_zeros : ℕ → ℕ → ℕ
trailing_zeros zero r = 0
trailing_zeros (suc digits) r =
    let rest = suc (trailing_zeros digits (r / 2)) in if r % 2 == 0 then rest else 0

-- `gen_height`, from the number that the generator drew.
unfoldable pub gen_height : ℕ → ℕ → ℕ
gen_height max_height r = min (trailing_zeros 32 r + 1) max_height

abbrev pub max_allowed : ℕ
max_allowed = 32

module _ {K V : Type 0} where
  unfoldable pub new : ℕ → SkipListMap K V
  new max_height =
      let height = max 1 (min max_height max_allowed) in
      record { max_height = height; len = 0; next = replicate height none; heap = [] }
