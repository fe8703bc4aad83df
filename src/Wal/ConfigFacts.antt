-- ===== src/Wal/ConfigFacts.antt =====
-- `sanitize` of src/wal.rs makes every configuration one that the writer can work with.
use dbprimkit.Base.{
  ℕ, zero, suc, ◌+◌, ◌^◌, ◌≤◌, ◌<◌, ◌≡◌, refl, ap, ◌∙◌, ◌⊎◌, inl, inr, Option, none, some, min, max,
  ltb, leb, arith, Bool-cases, ltb→lt, ltb_false→le, leb→le, leb-pow, ltb-pow, pow-mod,
}
use dbprimkit.Wal.Config.{
  TunableConfig, next_power, clamp, unwrap_or, multiple, sane_block_size, sane_bulk_flush_size,
  sanitize, default, from_opt,
}

-- The block size is a power of two from 2^12 to 2^18, and the flush size one from the block size to
-- 2^20, so that it is a multiple of the block size.
unfoldable pub IsSane : TunableConfig → Type 0
IsSane c =
    (k j : ℕ) × (12 ≤ k)
    × (k ≤ 18)
    × (k ≤ j)
    × (j ≤ 20)
    × (c.block_size ≡ 2 ^ k)
    × (c.bulk_flush_size ≡ 2 ^ j)

-- The search ends in a power of two within its range, or does not find one.
next_power-cases :
    (fuel k n : ℕ) → (next_power fuel k n ≡ none) ⊎ ((e : ℕ) × (next_power fuel k n ≡ some (2 ^ e)))
unfolding next_power
next_power-cases zero k n = inl refl
next_power-cases (suc fuel) k n = elim (Bool-cases (leb n (2 ^ k))) [
  | inl e ↦ inr (k, rw (e))
  | inr e ↦ rw (e) (next_power-cases fuel (suc k) n)
]

next_power-pow : (fuel k e : ℕ) → k ≤ e → e < k + fuel → next_power fuel k (2 ^ e) ≡ some (2 ^ e)
unfolding next_power
next_power-pow zero k e h l = absurd (omega arith)
next_power-pow (suc fuel) k e h l = elim (Bool-cases (leb e k)) [
  | inl b ↦ rw (leb-pow e k, b) (ap (λ i. some (2 ^ i)) (omega (arith, leb→le e k b)))
  | inr b ↦ rw (leb-pow e k, b) (next_power-pow fuel (suc k) e (ground arith) (omega arith))
]

clamp-pow : (lo hi e : ℕ) → lo ≤ hi → clamp (2 ^ e) (2 ^ lo) (2 ^ hi) ≡ 2 ^ max lo (min e hi)
clamp-pow lo hi e h =
    rw (ltb-pow e lo, ltb-pow hi e)
      (elim (Bool-cases (ltb e lo)) [
        | inl a ↦ rw (a) (ap (λ i. 2 ^ i) (omega (arith, ltb→lt e lo a)))
        | inr a ↦ rw (a) (elim (Bool-cases (ltb hi e)) [
          | inl b ↦ rw (b) (ap (λ i. 2 ^ i) (omega (arith, ltb→lt hi e b)))
          | inr b ↦
              rw (b) (ap (λ i. 2 ^ i) (omega (arith, ltb_false→le hi e b, ltb_false→le e lo a)))
        ])
      ])

-- What is searched for, or the bound that stands in for it, is a power of two.
unwrap_or-pow : (n d : ℕ) → (e : ℕ) × (unwrap_or (next_power 32 0 n) (2 ^ d) ≡ 2 ^ e)
unwrap_or-pow n d = elim (next_power-cases 32 0 n) [
  | inl h ↦ (d, rw (h))
  | inr (e, h) ↦ (e, rw (h))
]

sane_block_size-pow : (n : ℕ) → (k : ℕ) × (12 ≤ k) × (k ≤ 18) × (sane_block_size n ≡ 2 ^ k)
unfolding sane_block_size
sane_block_size-pow n =
    let (e, h) = unwrap_or-pow n 18 in
    (max 12 (min e 18), omega arith, omega arith, rw (h) (clamp-pow 12 18 e (omega arith)))

sane_bulk_flush_size-pow :
    (k bulk : ℕ)
    → k ≤ 20
    → (j : ℕ) × (k ≤ j) × (j ≤ 20) × (sane_bulk_flush_size (2 ^ k) bulk ≡ 2 ^ j)
unfolding sane_bulk_flush_size
sane_bulk_flush_size-pow k bulk h =
    let (e, h') = unwrap_or-pow (multiple (2 ^ k) bulk) 20 in
    (max k (min e 20), omega arith, omega arith, rw (h') (clamp-pow k 20 e h))

-- Whatever is asked for, the block size that `sanitize` settles on is a power of two from 4 KB to
-- 256 KB, and the flush size is a power of two from the block size to 1 MB.
pub sanitize-IsSane : (c : TunableConfig) → IsSane (sanitize c)
unfolding sanitize IsSane
sanitize-IsSane c =
    let (k, lo, hi, b) = sane_block_size-pow (c.block_size) in
    let (j, lo', hi', f) = sane_bulk_flush_size-pow k (c.bulk_flush_size) (omega arith) in
    (k, j, lo, hi, lo', hi', b, rw (b) f)

sane_block_size-fixed : (k : ℕ) → 12 ≤ k → k ≤ 18 → sane_block_size (2 ^ k) ≡ 2 ^ k
unfolding sane_block_size
sane_block_size-fixed k lo hi =
    rw (next_power-pow 32 0 k (omega arith) (omega arith))
      (clamp-pow 12 18 k (omega arith) ∙ ap (λ i. 2 ^ i) (omega arith))

sane_bulk_flush_size-fixed :
    (k j : ℕ) → k ≤ j → j ≤ 20 → sane_bulk_flush_size (2 ^ k) (2 ^ j) ≡ 2 ^ j
unfolding sane_bulk_flush_size
sane_bulk_flush_size-fixed k j lo hi =
    rw (pow-mod k j lo, next_power-pow 32 0 j (omega arith) (omega arith))
      (clamp-pow k 20 j (omega arith) ∙ ap (λ i. 2 ^ i) (omega arith))

-- A configuration that meets the rules is left as it is.
pub sanitize-fixed : (c : TunableConfig) → IsSane c → sanitize c ≡ c
unfolding sanitize IsSane
sanitize-fixed c (k, j, lo, hi, lo', hi', b, f) =
    rw (b, f, sane_block_size-fixed k lo hi, sane_bulk_flush_size-fixed k j lo' hi')

pub from_opt-IsSane : (o : Option TunableConfig) → IsSane (from_opt o)
unfolding from_opt default IsSane
from_opt-IsSane none = (16, 18, omega arith, omega arith, omega arith, omega arith, refl, refl)
from_opt-IsSane (some c) = sanitize-IsSane c

-- The configuration in force meets the rules, and to sanitize it once more, as the next opening of
-- the log does, changes nothing.
pub from_opt-from_opt :
    (o : Option TunableConfig) → IsSane (from_opt o) × (from_opt (some (from_opt o)) ≡ from_opt o)
unfolding from_opt
from_opt-from_opt o = (from_opt-IsSane o, sanitize-fixed (from_opt o) (from_opt-IsSane o))
