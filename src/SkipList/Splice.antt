-- ===== src/SkipList/Splice.antt =====
-- One level of a new node is linked in.
use dbprimkit.Base.{
  ℕ, zero, suc, ◌+◌, ◌<◌, ◌≡◌, ◌≢◌, sym, ap, ◌∙◌, List, [], ◌∷◌, ◌++◌, Option, some, length,
  get_elem?, set, leb, leb→le, lt→ltb, leb-true, leb-false, if◌then◌else◌, arith, Bool-cases,
  ⊎-elim, ℕ_discrete, get_elem?-set_self, get_elem?-set_ne, some-injective, none-ne-some,
}
use dbprimkit.SkipList.{Order, NodePtr, Node}
use dbprimkit.SkipList.Model.{Entry, first_at}
use dbprimkit.SkipList.Linked.{tab, tab-ext, set-tab, NoneOn, first_at-none, first_at-some}
use Prim.Native.Nat.{Ordering}

abbrev pub Heap : (K V : Type 0) → Type 0
Heap K V = List (Option (Node K V))

pub get_elem?-lt {ℓ} :
    {A : Type ℓ} (xs : List A) (i : ℕ) (x : A) → get_elem? xs i ≡ some x → i < length xs
get_elem?-lt [] i x h = absurd (none-ne-some x h)
get_elem?-lt (y ∷ ys) zero x h = omega arith
get_elem?-lt (y ∷ ys) (suc i) x h = omega (arith, get_elem?-lt ys i x h)

module _ {K V : Type 0} where
  -- The node of an entry with the given links.
  abbrev pub node_of : (ℕ → NodePtr) → Entry K V → Node K V
  node_of f x = record {
    height = x.height;
    key = x.key;
    value = x.value;
    next = tab f 0 (x.height);
  }

  -- The heap has a node with this key at this place.
  abbrev pub HasKey : Heap K V → ℕ → K → Type 0
  HasKey heap p key = (node : Node K V) × (get_elem? heap p ≡ some (some node)) × (node.key ≡ key)

module _ {K V : Type 0} (order : Order K) where
  -- Nodes with different keys are at different places.
  pub apart :
      (heap : List (Option (Node K V))) (p q : ℕ) (k l : K)
      → HasKey heap p k
      → HasKey heap q l
      → order.cmp k l ≡ Ordering.lt
      → p ≢ q
  apart heap p q k l (m, at, e) (n, at', e') h s =
      absurd (lt≢eq (sym h ∙ ap (λ x. order.cmp x l) same ∙ order.cmp_refl l))
    where
      lt≢eq : Ordering.lt ≢ Ordering.eq
      lt≢eq z = ground arith

      nodes : m ≡ n
      nodes =
          some-injective m n
            (some-injective (some m) (some n) (sym at ∙ ap (get_elem? heap) s ∙ at'))

      same : k ≡ l
      same = sym e ∙ ap (λ x. x.key) nodes ∙ e'

module _ {K V : Type 0} where
  -- None of the entries has its node at this place.
  abbrev pub Elsewhere : ℕ → List (Entry K V) → Type 0
  Elsewhere p [] = Unit
  Elsewhere p (x ∷ xs) = (p ≢ x.ptr) × Elsewhere p xs

module _ {K V : Type 0} (e : Entry K V) (bs : List (Entry K V)) where
  -- Where a link of level `l` leads when the levels from `k` on are done: `xs` are the entries between
  -- it and the new one.
  abbrev pub pick : ℕ → ℕ → List (Entry K V) → NodePtr
  pick k l xs = if leb k l then first_at l (xs ++ (e ∷ bs)) else first_at l (xs ++ bs)

  -- The nodes of the entries before the new one.
  abbrev pub Woven : ℕ → Heap K V → List (Entry K V) → Type 0
  Woven k heap [] = Unit
  Woven k heap (x ∷ xs) =
      (get_elem? heap (x.ptr) ≡ some (some (node_of (λ l. pick k l xs) x))) × Woven k heap xs

  -- A link on another level stays.
  pub pick-other : (k l : ℕ) (xs : List (Entry K V)) → l ≢ k → pick (suc k) l xs ≡ pick k l xs
  pick-other k l xs n =
      ⊎-elim (Bool-cases (leb k l))
        (λ t. rw (t, leb-true (suc k) l (grind (arith, leb→le k l t, n))))
        (λ t. rw (t, leb-false (suc k) l (ground arith)))

  -- Nodes that are not on the level stay.
  pub calm :
      (k : ℕ) (heap : Heap K V) (xs : List (Entry K V))
      → NoneOn k xs
      → Woven (suc k) heap xs
      → Woven k heap xs
  calm k heap [] n w = tt
  calm k heap (x ∷ xs) (h, n) (at, w) = (
    at
        ∙ ap
            (λ t.
              some (some (record { height = x.height; key = x.key; value = x.value; next = t })))
            (tab-ext (λ l. pick (suc k) l xs) (λ l. pick k l xs) 0 (x.height)
              (λ i b. pick-other k i xs (λ z. omega (arith, z)))),
    calm k heap xs n w,
  )

  -- Writing elsewhere changes nothing here.
  pub Woven-set :
      (k : ℕ) (heap : Heap K V) (p : ℕ) (v : Option (Node K V)) (xs : List (Entry K V))
      → Elsewhere p xs
      → Woven k heap xs
      → Woven k (set heap p v) xs
  Woven-set k heap p v [] n w = tt
  Woven-set k heap p v (x ∷ xs) (h, n) (at, w) =
      (get_elem?-set_ne heap p (x.ptr) v h ∙ at, Woven-set k heap p v xs n w)

  -- All links of an entry before one on the level stay.
  pub pick-before :
      (k i : ℕ) (ys : List (Entry K V)) (a : Entry K V) (zs : List (Entry K V))
      → k < a.height
      → pick (suc k) i (ys ++ (a ∷ zs)) ≡ pick k i (ys ++ (a ∷ zs))
  pick-before k i ys a zs h = elim (ℕ_discrete i k) [
    | yes q ↦ here q
    | no n ↦ pick-other k i (ys ++ (a ∷ zs)) n
  ]
    where
      here : i ≡ k → pick (suc k) i (ys ++ (a ∷ zs)) ≡ pick k i (ys ++ (a ∷ zs))
      here q =
          rw (q, leb-false (suc k) k (omega arith), leb-true k k (omega arith))
            (first_at-some k ys a zs bs (e ∷ bs) h)

  -- The last node on the level before the new one now leads to it.
  pub weave :
      (k : ℕ) (heap : Heap K V) (ys : List (Entry K V)) (a : Entry K V) (zs : List (Entry K V))
      → k < e.height
      → k < a.height
      → NoneOn k zs
      → Elsewhere (a.ptr) ys
      → Elsewhere (a.ptr) zs
      → Woven (suc k) heap (ys ++ (a ∷ zs))
      → Woven k
          (set heap (a.ptr) (
            some (record (node_of (λ l. pick (suc k) l zs) a) {
              next = set (tab (λ l. pick (suc k) l zs) 0 (a.height)) k (some (e.ptr));
            })))
          (ys ++ (a ∷ zs))
  weave k heap [] a zs t h n u w (at, r) = (
    get_elem?-set_self heap (a.ptr) _ (get_elem?-lt heap (a.ptr) _ at)
        ∙ ap
            (λ t.
              some (some (record { height = a.height; key = a.key; value = a.value; next = t })))
            (set-tab (λ l. pick (suc k) l zs) (λ l. pick k l zs) 0 (a.height) k (some (e.ptr)) h
              target (λ j m. pick-other k j zs (λ z. m (omega (arith, z))))),
    Woven-set k heap (a.ptr) _ zs w (calm k heap zs n r),
  )
    where
      target : some (e.ptr) ≡ pick k (0 + k) zs
      target = sym (
          ap (λ l. pick k l zs) {y = k} (omega arith)
          ∙ rw (leb-true k k (omega arith))
              (first_at-none k zs (e ∷ bs) n ∙ rw (lt→ltb k (e.height) t)))
  weave k heap (y ∷ ys) a zs t h n (u, us) w (at, r) = (
    get_elem?-set_ne heap (a.ptr) (y.ptr) _ u
        ∙ at
        ∙ ap
            (λ t.
              some (some (record { height = y.height; key = y.key; value = y.value; next = t })))
            (tab-ext (λ l. pick (suc k) l (ys ++ (a ∷ zs))) (λ l. pick k l (ys ++ (a ∷ zs))) 0
              (y.height) (λ i _. pick-before k i ys a zs h)),
    weave k heap ys a zs t h n us w r,
  )
