-- ===== src/Wal/BlockFacts.antt =====
-- The header of a block is read back as it was written and completed.
use dbprimkit.Base.{
  ℕ, ◌^◌, ◌≤◌, ◌<◌, ◌≡◌, ◌≢◌, refl, List, [], ◌∷◌, ◌++◌, length, ◌==◌, arith, append_assoc,
  length-append, take-append_of_length, ltb-false, ltb_false→le, ==_refl, not,
}
use dbprimkit.Error.{ok, panic, ok≢panic, err≢panic, guard-then}
use dbprimkit.Wal.Platform.{
  Platform, fetch-then, split-then, slice_to-then, slice_to-long, fetch-to_ne_bytes, split-append,
  fetch-zero,
}
use dbprimkit.Wal.BlockHeader.{block_head_size, decode, list_eq}

module _ (p : Platform) where
  open p use {to_ne_bytes, from_ne_bytes, crc32c}

  -- Whatever the bytes are, `decode` ends in a header or an error, and never in a panic.
  pub header_decode_never_panics : (src : List ℕ) → decode p src ≢ panic
  unfolding decode
  header_decode_never_panics src = guard-then _ err≢panic λ e.
      let long = ltb_false→le (length src) block_head_size e in
      fetch-then p 4 28 src _ (omega arith) λ crc src h.
        slice_to-then p 28 src _ (omega arith) λ checked.
          guard-then (not (crc32c checked == crc)) err≢panic λ _.
            fetch-then p 1 27 src _ (omega arith) λ ver src h.
              guard-then (not (ver == 0)) err≢panic λ _.
                split-then p 3 24 src _ (omega arith) λ resv src h.
                  guard-then (not (list_eq resv (0 ∷ 0 ∷ 0 ∷ []))) err≢panic λ _.
                    fetch-then p 8 16 src _ (omega arith) λ _ src h.
                      fetch-then p 8 8 src _ (omega arith)
                        λ _ src h. fetch-then p 8 0 src _ (omega arith) λ _ _ _. ok≢panic

  -- A block as it stands in the buffer when it is complete.
  abbrev pub head : ℕ → ℕ → ℕ → List ℕ
  head min_lsn max_lsn whole_min_lsn =
      0
      ∷ 0
      ∷ 0
      ∷ 0
      ∷ (to_ne_bytes 8 min_lsn ++ (to_ne_bytes 8 max_lsn ++ to_ne_bytes 8 whole_min_lsn))

  pub length-head : (lo hi whole : ℕ) → length (head lo hi whole) ≡ 28
  length-head lo hi whole = simp (length-append, p.length-to_ne_bytes)

  head_there : (lo hi whole : ℕ) (rest : List ℕ) → 28 ≤ length (head lo hi whole ++ rest)
  head_there lo hi whole rest =
      omega (arith, length-append (head lo hi whole) rest, length-head lo hi whole)

  long_enough :
      (lo hi whole : ℕ) (rest : List ℕ)
      → 32 ≤ length (to_ne_bytes 4 (crc32c (head lo hi whole)) ++ (head lo hi whole ++ rest))
  long_enough lo hi whole rest = omega (
    arith,
    length-append (to_ne_bytes 4 (crc32c (head lo hi whole))) (head lo hi whole ++ rest),
    length-append (head lo hi whole) rest,
    p.length-to_ne_bytes 4 (crc32c (head lo hi whole)),
    length-head lo hi whole,
  )

  pub header_decode_lem :
      (min_lsn max_lsn whole_min_lsn : ℕ) (rest : List ℕ)
      → min_lsn < 2 ^ 64
      → max_lsn < 2 ^ 64
      → whole_min_lsn < 2 ^ 64
      → decode p (
          to_ne_bytes 4 (crc32c (head min_lsn max_lsn whole_min_lsn))
          ++ (head min_lsn max_lsn whole_min_lsn ++ rest))
        ≡ ok (
          record {
            crc = crc32c (head min_lsn max_lsn whole_min_lsn);
            ver = 0;
            resv = 0 ∷ 0 ∷ 0 ∷ [];
            min_lsn = min_lsn;
            max_lsn = max_lsn;
            whole_min_lsn = whole_min_lsn;
          },
          rest,
        )
  unfolding decode
  header_decode_lem lo hi whole rest a b c =
      rw
        (
          ltb-false _ 32 (long_enough lo hi whole rest),
          fetch-to_ne_bytes p 4 _ _ (p.crc32c-lt (head lo hi whole)),
          slice_to-long p 28 (head lo hi whole ++ rest) (head_there lo hi whole rest),
          take-append_of_length 28 (head lo hi whole) rest (length-head lo hi whole),
          ==_refl,
        )
        (simp (
          append_assoc,
          fetch-zero p,
          split-append p 3 (0 ∷ 0 ∷ 0 ∷ []) _ refl,
          fetch-to_ne_bytes p 8 lo _ a,
          fetch-to_ne_bytes p 8 hi _ b,
          fetch-to_ne_bytes p 8 whole _ c,
        ))
