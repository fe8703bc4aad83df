-- ===== src/Wal/HeaderFix.antt =====
-- `fix_block_headers` of src/wal/sync.rs writes within the header of the last block, whatever it held.
use dbprimkit.Base.{
  ℕ, ◌+◌, ◌-◌, ◌%◌, ◌^◌, ◌≤◌, ◌≡◌, ap, ap₂, ◌∙◌, List, ◌++◌, length, take, drop, arith,
  append_assoc, length-append, length-take, length-drop, drop-length-append, drop-add, lt→ltb,
  take-append_of_le, drop-append_of_le, take-length-add,
}
use dbprimkit.Wal.Platform.{Platform, copy_at}
use dbprimkit.Wal.BlockHeader.{fix_block_headers, complete, and_not}
use dbprimkit.Wal.BlockFixed.{offset-eq-length}

copy_at-inside :
    (pre h rest bs : List ℕ) (i : ℕ)
    → i + length bs ≤ length h
    → copy_at (pre ++ (h ++ rest)) (length pre + i) bs ≡ pre ++ (copy_at h i bs ++ rest)
unfolding copy_at
copy_at-inside pre h rest bs i l =
    ap₂ (λ xs ys. xs ++ (bs ++ ys))
      (take-length-add i pre (h ++ rest)
        ∙ ap (λ l. pre ++ l) (take-append_of_le i h rest (omega arith)))
      (ap (λ n. drop n (pre ++ (h ++ rest))) {x = length pre + i + length bs}
          {y = length pre + (i + length bs)} (omega arith)
        ∙ drop-add (length pre) (i + length bs) (pre ++ (h ++ rest))
        ∙ ap (drop (i + length bs)) (drop-length-append pre (h ++ rest))
        ∙ drop-append_of_le (i + length bs) h rest l)
    ∙ simp (append_assoc)

pub length-copy_at :
    (h bs : List ℕ) (i : ℕ) → i + length bs ≤ length h → length (copy_at h i bs) ≡ length h
unfolding copy_at
length-copy_at h bs i l = simp (length-append, length-take, length-drop) (omega arith)

module _ (p : Platform) where
  open p use {to_ne_bytes, crc32c}

  complete_inside :
      (last min : ℕ) (done h rest : List ℕ)
      → length h ≡ 32
      → (h' : List ℕ) × (length h' ≡ 32)
        × (complete p (length done) last min (done ++ (h ++ rest)) ≡ done ++ (h' ++ rest))
  unfolding complete
  complete_inside last min done h rest l =
      let n = length done in
      let hi = to_ne_bytes 8 last in
      let whole = to_ne_bytes 8 min in
      let h1 = copy_at h 16 hi in
      let h2 = copy_at h1 24 whole in
      let sum = to_ne_bytes 4 (crc32c (take 28 (drop (n + 4) (done ++ (h2 ++ rest))))) in
      let l1 = length-copy_at h hi 16 (omega (arith, p.length-to_ne_bytes 8 last)) in
      let l2 = length-copy_at h1 whole 24 (omega (arith, p.length-to_ne_bytes 8 min)) in
      let at_front : n ≡ n + 0 = omega arith in
      (
        copy_at h2 0 sum,
        length-copy_at h2 sum 0 (omega (arith, p.length-to_ne_bytes 4 _)) ∙ l2 ∙ l1 ∙ l,
        rw
            (
              copy_at-inside done h rest hi 16 (omega (arith, p.length-to_ne_bytes 8 last)),
              copy_at-inside done h1 rest whole 24 (omega (arith, p.length-to_ne_bytes 8 min)),
            )
            (ap (λ i. copy_at (done ++ (h2 ++ rest)) i sum) at_front
              ∙ copy_at-inside done h2 rest sum 0 (omega (arith, p.length-to_ne_bytes 4 _))),
      )

  -- Some header in place of the one that was there.
  pub fix_header :
      (k last min : ℕ) (done h rest : List ℕ)
      → length done % 2 ^ k ≡ 0
      → length h ≡ 32
      → 32 + length rest ≤ 2 ^ k
      → (h' : List ℕ) × (length h' ≡ 32)
        × (fix_block_headers p (2 ^ k - 1) last min (done ++ (h ++ rest)) ≡ done ++ (h' ++ rest))
  unfolding fix_block_headers
  fix_header k last min done h rest m l r =
      let (h', l', e) = complete_inside last min done h rest l in
      (h', l', rw (total, lt→ltb 0 (length done + (32 + length rest)) (omega arith), at_last) e)
    where
      total : length (done ++ (h ++ rest)) ≡ length done + (32 + length rest)
      total = omega (arith, length-append done (h ++ rest), length-append h rest)

      at_last : and_not (length done + (32 + length rest) - 1) (2 ^ k - 1) ≡ length done
      at_last =
          ap (λ n. and_not n (2 ^ k - 1)) {y = length done + (31 + length rest)} (omega arith)
          ∙ offset-eq-length p k (length done) (31 + length rest) m (omega arith)
