-- ===== src/Wal/Machine.antt =====
-- A little-endian target, with the sum of the bytes as the check sum.
use dbprimkit.Base.{
  leb-true, ℕ, zero, suc, ◌+◌, ◌*◌, ◌/◌, ◌%◌, ◌^◌, ◌<◌, ◌≡◌, refl, ap, ap₂, List, [], ◌∷◌, ◌++◌,
  Option, none, some, length, take, drop, replicate, arith, leb, if◌then◌else◌,
}
use dbprimkit.Wal.Platform.{Platform}
use native.Mathlib.Nat.{pow-suc}

abbrev pub le_bytes : ℕ → ℕ → List ℕ
le_bytes zero n = []
le_bytes (suc w) n = n % 256 ∷ le_bytes w (n / 256)

abbrev pub of_le_bytes : List ℕ → ℕ
of_le_bytes [] = 0
of_le_bytes (b ∷ bs) = b + 256 * of_le_bytes bs

pub length-le_bytes : (w n : ℕ) → length (le_bytes w n) ≡ w
length-le_bytes zero n = refl
length-le_bytes (suc w) n = ap suc (length-le_bytes w (n / 256))

pub of_le_bytes-le_bytes : (w n : ℕ) → n < 256 ^ w → of_le_bytes (le_bytes w n) ≡ n
of_le_bytes-le_bytes zero n h = omega arith
of_le_bytes-le_bytes (suc w) n h =
    omega (arith, of_le_bytes-le_bytes w (n / 256) (omega (arith, pow-suc 256 w)))

pub le_bytes-zero : (w : ℕ) → le_bytes w 0 ≡ replicate w 0
le_bytes-zero zero = refl
le_bytes-zero (suc w) = ap (λ l. 0 ∷ l) (le_bytes-zero w)

pub of_le_bytes_zero : (bs : List ℕ) → of_le_bytes bs ≡ 0 → bs ≡ replicate (length bs) 0
of_le_bytes_zero [] e = refl
of_le_bytes_zero (b ∷ bs) e = ap₂ ◌∷◌ (omega arith) (of_le_bytes_zero bs (omega arith))

abbrev pub sum_bytes : List ℕ → ℕ
sum_bytes [] = 0
sum_bytes (b ∷ bs) = b + sum_bytes bs

-- A read of so many bytes, if they are there.
abbrev pub cut : ℕ → List ℕ → Option (List ℕ × List ℕ)
cut n bs = if leb n (length bs) then some (take n bs, drop n bs) else none

abbrev pub cut_ne : ℕ → List ℕ → Option (ℕ × List ℕ)
cut_ne n bs = if leb n (length bs) then some (of_le_bytes (take n bs), drop n bs) else none

abbrev pub machine : Platform
machine = record {
  to_ne_bytes = le_bytes;
  from_ne_bytes = of_le_bytes;
  length-to_ne_bytes = length-le_bytes;
  from_ne_bytes-to_ne_bytes = of_le_bytes-le_bytes;
  to_ne_bytes-zero = le_bytes-zero;
  from_ne_bytes_zero = of_le_bytes_zero;
  put_ne = λ buf w n. buf ++ le_bytes w n;
  put_ne_lem = λ buf w n. refl;
  put_bytes = λ buf v n. buf ++ replicate n v;
  put_bytes_lem = λ buf v n. refl;
  get_ne = cut_ne;
  get_ne_lem = λ w src h. rw (leb-true w (length src) h) refl;
  split_to = cut;
  split_to_lem = λ n src h. rw (leb-true n (length src) h) refl;
  crc32c = λ bs. sum_bytes bs % 2 ^ 32;
  crc32c-lt = λ bs. omega arith;
}
