-- ===== src/SkipList/Model.antt =====
-- The list of entries that a skip list stands for, and what the heap then holds.
use dbprimkit.Base.{
  ℕ, zero, suc, ◌+◌, ◌≤◌, ◌<◌, ◌≡◌, ap, ◌∙◌, List, [], ◌∷◌, Option, none, some, length, get_elem?,
  ltb, if◌then◌else◌, arith,
}
use dbprimkit.SkipList.{Order, NodePtr, Node, SkipListMap}
use Prim.Native.Nat.{Ordering}

pub record Entry (K V : Type 0) : Type 0 where
  pub ptr : ℕ
  pub height : ℕ
  pub key : K
  pub value : V

module _ {K V : Type 0} where
  -- The first entry that is on a level.
  abbrev pub first_at : ℕ → List (Entry K V) → NodePtr
  first_at l [] = none
  first_at l (e ∷ es) = if ltb l (e.height) then some (e.ptr) else first_at l es

  -- The links of so many levels, from level `l` on, in front of the entries.
  abbrev pub links : ℕ → ℕ → List (Entry K V) → List NodePtr
  links l zero es = []
  links l (suc n) es = first_at l es ∷ links (suc l) n es

  pub get_elem?-links :
      (l n i : ℕ) (es : List (Entry K V))
      → i < n
      → get_elem? (links l n es) i ≡ some (first_at (l + i) es)
  get_elem?-links l zero i es h = absurd (omega arith)
  get_elem?-links l (suc n) zero es h = ap (λ j. some (first_at j es)) {x = l} (omega arith)
  get_elem?-links l (suc n) (suc i) es h =
      get_elem?-links (suc l) n i es (omega arith)
      ∙ ap (λ j. some (first_at j es)) {x = suc l + i} (omega arith)

  -- The node of an entry with the entries behind it.
  abbrev pub cell : Entry K V → List (Entry K V) → Node K V
  cell e es = record {
    height = e.height;
    key = e.key;
    value = e.value;
    next = links 0 (e.height) es;
  }

  -- Every entry has its node on the heap, linked on each of its levels to the next entry there.
  abbrev pub Stored : List (Option (Node K V)) → List (Entry K V) → Type 0
  Stored heap [] = Unit
  Stored heap (e ∷ es) =
      (0 < e.height) × (get_elem? heap (e.ptr) ≡ some (some (cell e es))) × Stored heap es

module _ {K V : Type 0} (order : Order K) where
  abbrev pub Below : K → List (Entry K V) → Type 0
  Below k [] = Unit
  Below k (e ∷ es) = (order.cmp k (e.key) ≡ Ordering.lt) × Below k es

  -- The keys strictly ascend.
  abbrev pub Ascending : List (Entry K V) → Type 0
  Ascending [] = Unit
  Ascending (e ∷ es) = Below (e.key) es × Ascending es

  -- What a map promises: the entry with the key.
  abbrev pub lookup : List (Entry K V) → K → Option (Entry K V)
  lookup [] key = none
  lookup (e ∷ es) key = elim (order.cmp (e.key) key) [ Ordering.eq ↦ some e | _ ↦ lookup es key ]

  -- The map stands for the entries.
  pub record IsRep (m : SkipListMap K V) (es : List (Entry K V)) : Type 0 where
    pub tall : 0 < m.max_height
    pub heads : m.next ≡ links 0 (m.max_height) es
    pub stored : Stored (m.heap) es
    pub ascending : Ascending es
    pub room : length es ≤ length (m.heap)
    pub counted : m.len ≡ length es
