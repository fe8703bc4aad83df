-- ===== src/Wal/BlockFixed.antt =====
-- `fix_block_headers` of src/wal/sync.rs completes the header that `encode` began.
use dbprimkit.Base.{
  ℕ, ◌+◌, ◌-◌, ◌/◌, ◌*◌, ◌%◌, ◌^◌, ◌≤◌, ◌<◌, ◌≡◌, refl, sym, ap, ◌∙◌, List, [], ◌∷◌, ◌++◌, length,
  take, drop, replicate, arith, append_assoc, length-append, take-append_of_length,
  drop-length-append, drop-add, lt→ltb, bit_and-mask,
}
use dbprimkit.Error.{ok}
use dbprimkit.Wal.Platform.{Platform, copy_at, copy_at-behind}
use dbprimkit.Wal.BlockHeader.{encode, decode, and_not, fix_block_headers, complete}
use native.Mathlib.Nat.{div-add-mod, add-mul-mod_self_left, mod-eq_of_lt}
use dbprimkit.Wal.BlockFacts.{head, length-head, header_decode_lem}

-- A place in a block behind whole blocks.
pub behind-mod : (size d r : ℕ) → d % size ≡ 0 → r < size → (d + r) % size ≡ r
behind-mod size d r h l =
    ap (λ n. n % size) {y = r + size * (d / size)} (omega (arith, div-add-mod d size))
    ∙ add-mul-mod_self_left r size (d / size)
    ∙ mod-eq_of_lt l

module _ (p : Platform) where
  open p use {to_ne_bytes, from_ne_bytes, crc32c}

  -- Where the last block starts.
  pub offset-eq-length : (k d r : ℕ) → d % 2 ^ k ≡ 0 → r < 2 ^ k → and_not (d + r) (2 ^ k - 1) ≡ d
  offset-eq-length k d r h l = rw (bit_and-mask) (omega (arith, behind-mod (2 ^ k) d r h l))

  -- Bytes written over as many bytes at a place that is known to be behind `pre`.
  copy_at-place :
      (pre zs bs rest : List ℕ) (n : ℕ)
      → length pre ≡ n
      → length zs ≡ length bs
      → copy_at (pre ++ (zs ++ rest)) n bs ≡ pre ++ (bs ++ rest)
  copy_at-place pre zs bs rest n e h = rw (← e) (copy_at-behind pre zs bs rest h)

  -- A block with its two LSNs and its check sum, or the zeros that stand for them, and the entries.
  abbrev block : (sum hi whole : List ℕ) (lo : ℕ) (body : List ℕ) → List ℕ
  block sum hi whole lo body =
      sum ++ (replicate 4 0 ++ (to_ne_bytes 8 lo ++ (hi ++ (whole ++ body))))

  -- The buffer before the header of its last block is completed.
  opened :
      (done body : List ℕ) (lo : ℕ)
      → encode p done lo ++ body
        ≡ done ++ block (replicate 4 0) (replicate 8 0) (replicate 8 0) lo body
  unfolding encode
  opened done body lo = simp (p.put_ne_lem, p.to_ne_bytes-zero, append_assoc)

  put_hi :
      (done s w hi body : List ℕ) (lo : ℕ)
      → length s ≡ 4
      → length hi ≡ 8
      → copy_at (done ++ block s (replicate 8 0) w lo body) (length done + 16) hi
        ≡ done ++ block s hi w lo body
  put_hi done s w hi body lo e h =
      let pre = done ++ (s ++ (replicate 4 0 ++ to_ne_bytes 8 lo)) in
      ap (λ l. copy_at l (length done + 16) hi) {y = pre ++ (replicate 8 0 ++ (w ++ body))}
        (simp (append_assoc))
      ∙ copy_at-place pre (replicate 8 0) hi (w ++ body) (length done + 16)
          (simp (length-append, e, p.length-to_ne_bytes)) (sym h)
      ∙ simp (append_assoc)

  put_whole :
      (done s hi w body : List ℕ) (lo : ℕ)
      → length s ≡ 4
      → length hi ≡ 8
      → length w ≡ 8
      → copy_at (done ++ block s hi (replicate 8 0) lo body) (length done + 24) w
        ≡ done ++ block s hi w lo body
  put_whole done s hi w body lo e f h =
      let pre = done ++ (s ++ (replicate 4 0 ++ (to_ne_bytes 8 lo ++ hi))) in
      ap (λ l. copy_at l (length done + 24) w) {y = pre ++ (replicate 8 0 ++ body)}
        (simp (append_assoc))
      ∙ copy_at-place pre (replicate 8 0) w body (length done + 24)
          (simp (length-append, e, f, p.length-to_ne_bytes)) (sym h)
      ∙ simp (append_assoc)

  block-eq-append :
      (s : List ℕ) (lo hi whole : ℕ) (body : List ℕ)
      → block s (to_ne_bytes 8 hi) (to_ne_bytes 8 whole) lo body ≡ s ++ (head p lo hi whole ++ body)
  block-eq-append s lo hi whole body = simp (append_assoc)

  complete_lem :
      (done body : List ℕ) (lo hi whole : ℕ)
      → complete p
          (length done)
          hi
          whole
          (done ++ block (replicate 4 0) (replicate 8 0) (replicate 8 0) lo body)
        ≡ done ++ (to_ne_bytes 4 (crc32c (head p lo hi whole)) ++ (head p lo hi whole ++ body))
  unfolding complete
  complete_lem done body lo hi whole =
      rw
        (
          put_hi done (replicate 4 0) (replicate 8 0) (to_ne_bytes 8 hi) body lo refl
              (p.length-to_ne_bytes 8 hi),
          put_whole done (replicate 4 0) (to_ne_bytes 8 hi) (to_ne_bytes 8 whole) body lo refl
              (p.length-to_ne_bytes 8 hi) (p.length-to_ne_bytes 8 whole),
        )
        (ap
            (λ l.
              copy_at (done ++ l) (length done)
                (to_ne_bytes 4 (crc32c (take 28 (drop (length done + 4) (done ++ l))))))
            (block-eq-append (replicate 4 0) lo hi whole body)
          ∙ rw
              (
                drop-add,
                drop-length-append,
                take-append_of_length 28 (head p lo hi whole) body (length-head p lo hi whole),
              )
              (copy_at-behind done (replicate 4 0) (to_ne_bytes 4 (crc32c (head p lo hi whole)))
                (head p lo hi whole ++ body) (sym (p.length-to_ne_bytes 4 _))))

  length-opened :
      (done body : List ℕ) (lo : ℕ)
      → length (done ++ block (replicate 4 0) (replicate 8 0) (replicate 8 0) lo body)
        ≡ length done + 32 + length body
  length-opened done body lo = simp (length-append, p.length-to_ne_bytes) (omega arith)

  -- Completing the header of the last block, which starts behind `done`, leaves the blocks before it
  -- and the log entries in it alone.
  fix_lem :
      (k : ℕ) (done body : List ℕ) (lo hi whole : ℕ)
      → length done % 2 ^ k ≡ 0
      → 32 + length body ≤ 2 ^ k
      → fix_block_headers p (2 ^ k - 1) hi whole (encode p done lo ++ body)
        ≡ done ++ (to_ne_bytes 4 (crc32c (head p lo hi whole)) ++ (head p lo hi whole ++ body))
  unfolding fix_block_headers
  fix_lem k done body lo hi whole h l =
      ap (fix_block_headers p (2 ^ k - 1) hi whole) (opened done body lo)
      ∙ rw
          (
            length-opened done body lo,
            lt→ltb 0 (length done + 32 + length body) (omega arith),
            at_last,
          )
          (complete_lem done body lo hi whole)
    where
      at_last : and_not (length done + 32 + length body - 1) (2 ^ k - 1) ≡ length done
      at_last =
          ap (λ n. and_not n (2 ^ k - 1)) {y = length done + (31 + length body)} (omega arith)
          ∙ offset-eq-length k (length done) (31 + length body) h (omega arith)

  -- A block that `encode` began behind whole blocks, and whose header `fix_block_headers` completed
  -- before it was written, is decoded to the LSNs that it was given; the stream then stands at the
  -- first log entry of the block.
  pub decode-fix_block_headers :
      (k : ℕ) (done body : List ℕ) (lo hi whole : ℕ)
      → length done % 2 ^ k ≡ 0
      → 32 + length body ≤ 2 ^ k
      → lo < 2 ^ 64
      → hi < 2 ^ 64
      → whole < 2 ^ 64
      → decode p
          (drop (length done) (fix_block_headers p (2 ^ k - 1) hi whole (encode p done lo ++ body)))
        ≡ ok (
          record {
            crc = crc32c (head p lo hi whole);
            ver = 0;
            resv = 0 ∷ 0 ∷ 0 ∷ [];
            min_lsn = lo;
            max_lsn = hi;
            whole_min_lsn = whole;
          },
          body,
        )
  decode-fix_block_headers k done body lo hi whole m l a b c =
      rw (fix_lem k done body lo hi whole m l, drop-length-append)
        (header_decode_lem p lo hi whole body a b c)
