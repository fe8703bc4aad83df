-- ===== src/RingBuffer/Index.antt =====
-- Positions that share a cell: remainders by the size.
use native.Mathlib.Nat.{div-add-mod}
use dbprimkit.Base.{ℕ, ◌+◌, ◌*◌, ◌/◌, ◌%◌, ◌≤◌, ◌<◌, ◌≡◌, arith}

-- Two positions of one cell are at least the size apart.
pub mod-gap : (n p q : ℕ) → p % n ≡ q % n → p < q → p + n ≤ q
mod-gap n p q same lt = grind (arith, rounds)
  where
    apart : n * (p / n) < n * (q / n)
    apart = omega (arith, div-add-mod p n, div-add-mod q n)

    rounds : n * (p / n) + n ≤ n * (q / n)
    rounds = grind (arith, apart)
