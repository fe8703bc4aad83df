-- ===== src/Wal/Platform.antt =====
-- What src/wal.rs takes from elsewhere: the byte order of the target, and the crates `bytes` and
-- `crc32c`. The laws are their documented behaviour.
use dbprimkit.Base.{
  if◌then◌else◌, ltb, ltb-false, ℕ, ◌+◌, ◌^◌, ◌≤◌, ◌<◌, ◌≡◌, sym, ap, ◌∙◌, ◌∷◌, List, ◌++◌, Option,
  none, some, length, take, drop, replicate, arith, take-append_of_length, drop-append_of_length,
  length-append, length-drop, ◌≢◌, drop-add, drop-length-append, take-length-append,
}
use dbprimkit.Error.{Outcome, ok, panic, ◌>>=◌}

pub record Platform : Type 0 where
  -- `to_ne_bytes` of an integer of so many bytes, and `from_ne_bytes`.
  pub to_ne_bytes : ℕ → ℕ → List ℕ
  pub from_ne_bytes : List ℕ → ℕ
  pub length-to_ne_bytes : (w n : ℕ) → length (to_ne_bytes w n) ≡ w
  pub from_ne_bytes-to_ne_bytes : (w n : ℕ) → n < 256 ^ w → from_ne_bytes (to_ne_bytes w n) ≡ n
  -- Zero is all zero bytes in either byte order.
  pub to_ne_bytes-zero : (w : ℕ) → to_ne_bytes w 0 ≡ replicate w 0
  -- A value is zero only if all its bytes are.
  pub from_ne_bytes_zero : (bs : List ℕ) → from_ne_bytes bs ≡ 0 → bs ≡ replicate (length bs) 0
  -- `BufMut::put_u8`, `put_u32_ne` and `put_u64_ne`, by the number of bytes, and `put_bytes`.
  pub put_ne : List ℕ → ℕ → ℕ → List ℕ
  pub put_ne_lem : (buf : List ℕ) (w n : ℕ) → put_ne buf w n ≡ buf ++ to_ne_bytes w n
  pub put_bytes : List ℕ → ℕ → ℕ → List ℕ
  pub put_bytes_lem : (buf : List ℕ) (v n : ℕ) → put_bytes buf v n ≡ buf ++ replicate n v
  -- `Buf::get_u8`, `get_u32_ne` and `get_u64_ne`, by the number of bytes; `none` is a panic.
  pub get_ne : ℕ → List ℕ → Option (ℕ × List ℕ)
  pub get_ne_lem :
      (w : ℕ) (src : List ℕ)
      → w ≤ length src
      → get_ne w src ≡ some (from_ne_bytes (take w src), drop w src)
  -- `Bytes::split_to` and `Buf::copy_to_slice`: the first bytes, and what is left.
  pub split_to : ℕ → List ℕ → Option (List ℕ × List ℕ)
  pub split_to_lem :
      (n : ℕ) (src : List ℕ) → n ≤ length src → split_to n src ≡ some (take n src, drop n src)
  pub crc32c : List ℕ → ℕ
  pub crc32c-lt : (bs : List ℕ) → crc32c bs < 2 ^ 32

-- `buf[at..at + bs.len()].copy_from_slice(bs)`, for a range within the buffer.
unfoldable pub copy_at : List ℕ → ℕ → List ℕ → List ℕ
copy_at buf pos bs = take pos buf ++ (bs ++ drop (pos + length bs) buf)

-- Bytes written over as many bytes behind `buf`.
pub copy_at-behind :
    (buf zs bs rest : List ℕ)
    → length zs ≡ length bs
    → copy_at (buf ++ (zs ++ rest)) (length buf) bs ≡ buf ++ (bs ++ rest)
unfolding copy_at
copy_at-behind buf zs bs rest e = rw (
  drop-add (length buf) (length bs) (buf ++ (zs ++ rest)),
  drop-length-append buf (zs ++ rest),
  drop-append_of_length (length bs) zs rest e,
  take-length-append buf (zs ++ rest),
)

module _ (p : Platform) where
  open p use {to_ne_bytes, from_ne_bytes, get_ne, split_to}

  -- A read of so many bytes, which panics if they are not there.
  unfoldable pub fetch : ℕ → List ℕ → Outcome (ℕ × List ℕ)
  fetch w src = elim (get_ne w src) [ none ↦ panic | some r ↦ ok r ]

  -- The slice `src[..n]`, which panics out of bounds.
  unfoldable pub slice_to : ℕ → List ℕ → Outcome (List ℕ)
  slice_to n src = if ltb (length src) n then panic else ok (take n src)

  pub slice_to-long : (n : ℕ) (src : List ℕ) → n ≤ length src → slice_to n src ≡ ok (take n src)
  unfolding slice_to
  slice_to-long n src h = rw (ltb-false (length src) n h)

  unfoldable pub split : ℕ → List ℕ → Outcome (List ℕ × List ℕ)
  split n src = elim (split_to n src) [ none ↦ panic | some r ↦ ok r ]

  pub fetch-long :
      (w : ℕ) (src : List ℕ)
      → w ≤ length src
      → fetch w src ≡ ok (from_ne_bytes (take w src), drop w src)
  unfolding fetch
  fetch-long w src h = rw (p.get_ne_lem w src h, fetch)

  pub split-long :
      (n : ℕ) (src : List ℕ) → n ≤ length src → split n src ≡ ok (take n src, drop n src)
  unfolding split
  split-long n src h = rw (p.split_to_lem n src h, split)

  pub take-to_ne_bytes :
      (w n : ℕ) (rest : List ℕ) → take w (to_ne_bytes w n ++ rest) ≡ to_ne_bytes w n
  take-to_ne_bytes w n rest = take-append_of_length w _ rest (p.length-to_ne_bytes w n)

  pub drop-to_ne_bytes : (w n : ℕ) (rest : List ℕ) → drop w (to_ne_bytes w n ++ rest) ≡ rest
  drop-to_ne_bytes w n rest = drop-append_of_length w _ rest (p.length-to_ne_bytes w n)

  -- Reading back an integer that was written.
  pub fetch-to_ne_bytes :
      (w n : ℕ) (rest : List ℕ) → n < 256 ^ w → fetch w (to_ne_bytes w n ++ rest) ≡ ok (n, rest)
  fetch-to_ne_bytes w n rest h =
      fetch-long w _ (omega (arith, length-append (to_ne_bytes w n) rest, p.length-to_ne_bytes w n))
      ∙ rw (take-to_ne_bytes, drop-to_ne_bytes, p.from_ne_bytes-to_ne_bytes w n h)

  pub fetch-zero : (rest : List ℕ) → fetch 1 (0 ∷ rest) ≡ ok (0, rest)
  fetch-zero rest =
      ap (λ bs. fetch 1 (bs ++ rest)) (sym (p.to_ne_bytes-zero 1))
      ∙ fetch-to_ne_bytes 1 0 rest (omega arith)

  pub split-append :
      (n : ℕ) (xs rest : List ℕ) → length xs ≡ n → split n (xs ++ rest) ≡ ok (xs, rest)
  split-append n xs rest h =
      split-long n _ (omega (arith, length-append xs rest))
      ∙ rw (take-append_of_length n xs rest h, drop-append_of_length n xs rest h)

  -- A read that has enough bytes goes on with the bytes behind it, so it panics only if what follows
  -- does.
  pub fetch-then :
      {A : Type 0} (w n : ℕ) (src : List ℕ) (k : ℕ × List ℕ → Outcome A)
      → w + n ≤ length src
      → ((x : ℕ) (rest : List ℕ) → n ≤ length rest → k (x, rest) ≢ panic)
      → (fetch w src >>= k) ≢ panic
  fetch-then w n src k h safe =
      rw (fetch-long w src (omega arith))
        (safe (from_ne_bytes (take w src)) (drop w src) (omega (arith, length-drop w src)))

  pub split-then :
      {A : Type 0} (w n : ℕ) (src : List ℕ) (k : List ℕ × List ℕ → Outcome A)
      → w + n ≤ length src
      → ((xs rest : List ℕ) → n ≤ length rest → k (xs, rest) ≢ panic)
      → (split w src >>= k) ≢ panic
  split-then w n src k h safe =
      rw (split-long w src (omega arith))
        (safe (take w src) (drop w src) (omega (arith, length-drop w src)))

  pub slice_to-then :
      {A : Type 0} (n : ℕ) (src : List ℕ) (k : List ℕ → Outcome A)
      → n ≤ length src
      → ((bs : List ℕ) → k bs ≢ panic)
      → (slice_to n src >>= k) ≢ panic
  slice_to-then n src k h safe = rw (slice_to-long n src h) (safe (take n src))
