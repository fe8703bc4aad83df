-- ===== src/RingBuffer/Cells.antt =====
-- The cells of a ring by position: what a store into one cell does to the others
-- (src/ringbuffer.rs).
use native.Mathlib.Nat.{mod-lt}
use dbprimkit.Base.{
  ℕ, zero, suc, ◌+◌, ◌-◌, ◌%◌, ◌^◌, ◌≤◌, ◌<◌, bit_and, ◌≡◌, ◌≢◌, ◌⊎◌, refl, ap, ◌∙◌, List, [], ◌∷◌,
  none, some, arith, length, get_elem?, get_or, set, length-set, ◌==◌, if◌then◌else◌, bit_and-mask,
  pow-two-pos,
}
use dbprimkit.RingBuffer.{Cell, RingBuffer, cell, put_cell, fresh_cells, empty_ring}
use dbprimkit.RingBuffer.Index.{mod-gap}

-- The ring has `2 ^ k` cells, and the mask that goes with them.
pub record IsShaped {ℓ} {A : Type ℓ} (k : ℕ) (r : RingBuffer A) : Type ℓ where
  pub sized : r.size ≡ 2 ^ k
  pub masked : r.mask ≡ 2 ^ k - 1
  pub filled : length r.buf ≡ 2 ^ k

length-fresh_cells {ℓ} : (A : Type ℓ) (i n : ℕ) → length (fresh_cells {A = A} i n) ≡ n
unfolding fresh_cells
length-fresh_cells A i zero = refl
length-fresh_cells A i (suc n) = ap suc (length-fresh_cells A (i + 1) n)

pub empty_ring-IsShaped {ℓ} : (A : Type ℓ) (k : ℕ) → IsShaped k (empty_ring {A = A} (2 ^ k))
empty_ring-IsShaped A k = record {
  sized = refl;
  masked = refl;
  filled = length-fresh_cells A 0 (2 ^ k);
}

-- The counters do not matter for the shape.
pub moved-IsShaped {ℓ} :
    {A : Type ℓ} {k : ℕ} {r : RingBuffer A}
    → IsShaped k r
    → (h t : ℕ) → IsShaped k (record r { head = h; tail = t })
moved-IsShaped shape h t = record {
  sized = shape.sized;
  masked = shape.masked;
  filled = shape.filled;
}

module _ {ℓ} {A : Type ℓ} where
  abbrev pub blank : Cell A
  blank = record { seq = 0; slot = none }

  -- The cell of a position, in a ring of that shape.
  unfoldable pub at : List (Cell A) → ℕ → ℕ → Cell A
  at buf size pos = get_or buf (pos % size) blank

  get_elem?-of-lt :
      (xs : List (Cell A)) (i : ℕ) → i < length xs → get_elem? xs i ≡ some (get_or xs i blank)
  get_elem?-of-lt [] i h = elim h [ ]
  get_elem?-of-lt (x ∷ xs) zero h = refl
  get_elem?-of-lt (x ∷ xs) (suc i) h = get_elem?-of-lt xs i (omega arith)

  get_or-set :
      (xs : List (Cell A)) (i j : ℕ) (c : Cell A)
      → i < length xs
      → get_or (set xs i c) j blank ≡ (if i == j then c else get_or xs j blank)
  get_or-set [] i j c h = elim h [ ]
  get_or-set (x ∷ xs) zero zero c h = ground arith
  get_or-set (x ∷ xs) zero (suc j) c h = ground arith
  get_or-set (x ∷ xs) (suc i) zero c h = ground arith
  get_or-set (x ∷ xs) (suc i) (suc j) c h = ground (arith, get_or-set xs i j c)

  get_or-fresh_cells :
      (i n j : ℕ) → j < n → get_or (fresh_cells i n) j blank ≡ record { seq = i + j; slot = none }
  unfolding fresh_cells
  get_or-fresh_cells i zero j h = elim h [ ]
  get_or-fresh_cells i (suc n) zero h = ground arith
  get_or-fresh_cells i (suc n) (suc j) h = ground (arith, get_or-fresh_cells (i + 1) n j)

  -- The cell of position `p` in a new ring.
  pub at-fresh_cells :
      (n p : ℕ) → 0 < n → at (fresh_cells 0 n) n p ≡ record { seq = p % n; slot = none }
  unfolding at
  at-fresh_cells n p h = ground (arith, get_or-fresh_cells 0 n (p % n), mod-lt p h)

  pub at-same :
      (buf : List (Cell A)) (size p q : ℕ) → p % size ≡ q % size → at buf size p ≡ at buf size q
  unfolding at
  at-same buf size p q same = rw same

  module _ {k : ℕ} {r : RingBuffer A} (shape : IsShaped k r) (p : ℕ) where
    masked-index : bit_and p r.mask ≡ p % r.size
    masked-index = rw (shape.masked, shape.sized) (bit_and-mask k p)

    index-lt : p % r.size < length r.buf
    index-lt = rw (shape.filled, shape.sized) (mod-lt p (pow-two-pos k))

    -- The masked index is never out of bounds.
    pub cell-at : cell r p ≡ some (at r.buf r.size p)
    unfolding at
    cell-at = rw masked-index (get_elem?-of-lt r.buf (p % r.size) index-lt)

    pub at-put :
        (c : Cell A) (q : ℕ)
        → at (put_cell r p c).buf r.size q
          ≡ (if p % r.size == q % r.size then c else at r.buf r.size q)
    unfolding at
    at-put c q = rw masked-index (get_or-set r.buf (p % r.size) (q % r.size) c index-lt)

    pub put-IsShaped : (c : Cell A) → IsShaped k (put_cell r p c)
    put-IsShaped c = record {
      sized = shape.sized;
      masked = shape.masked;
      filled = length-set r.buf (bit_and p r.mask) c ∙ shape.filled;
    }

module _ {A : Type 0} {k : ℕ} {r : RingBuffer A} (shape : IsShaped k r) (p : ℕ) where
  -- After a store into the cell of `p`, any position `q` either shares that cell, and is `p` or
  -- at least a round away, or finds its own cell as it was.
  pub at-put_cases :
      (c : Cell A) (q : ℕ)
      → ((at (put_cell r p c).buf r.size q ≡ c)
          × (at r.buf r.size q ≡ at r.buf r.size p)
          × ((p ≡ q) ⊎ (p + 2 ^ k ≤ q) ⊎ (q + 2 ^ k ≤ p)))
        ⊎ ((at (put_cell r p c).buf r.size q ≡ at r.buf r.size q) × (p ≢ q))
  at-put_cases c q = ground (
    arith,
    at-put shape p c q,
    at-same r.buf r.size q p,
    mod-gap r.size q p,
    mod-gap r.size p q,
    shape.sized,
  )
