-- ===== src/Wal/ManiFacts.antt =====
-- The entries of the manifest are read back as they were written.
use dbprimkit.Base.{
  ℕ, ◌^◌, ◌≤◌, ◌<◌, ◌≡◌, ◌≢◌, refl, List, [], ◌∷◌, ◌++◌, length, take, ◌==◌, arith, append_assoc,
  length-append, take-append_of_length, ltb-false, ltb_false→le, ==_refl, not,
}
use dbprimkit.Error.{ok, panic, ok≢panic, err≢panic, guard-then}
use dbprimkit.Wal.Platform.{
  Platform, copy_at, fetch-then, split-then, fetch-to_ne_bytes, split-append, fetch-zero,
}
use dbprimkit.Wal.ManiEntry.{mani_entry_size, encode, decode}

module _ (p : Platform) where
  open p use {to_ne_bytes, from_ne_bytes, crc32c}

  -- What the manifest holds behind the check sum of an entry.
  abbrev mani_body : ℕ → List ℕ
  mani_body min_lsn = 0 ∷ 0 ∷ 0 ∷ 0 ∷ to_ne_bytes 8 min_lsn

  mani_encode_lem :
      (min_lsn : ℕ)
      → encode p [] min_lsn ≡ to_ne_bytes 4 (crc32c (mani_body min_lsn)) ++ mani_body min_lsn
  unfolding encode copy_at
  mani_encode_lem min_lsn = simp (p.put_ne_lem, p.to_ne_bytes-zero, p.length-to_ne_bytes)

  length-mani_body : (lsn : ℕ) → length (mani_body lsn) ≡ 12
  length-mani_body lsn = simp (p.length-to_ne_bytes)

  long_enough :
      (lsn : ℕ) (rest : List ℕ)
      → 16 ≤ length (to_ne_bytes 4 (crc32c (mani_body lsn)) ++ (mani_body lsn ++ rest))
  long_enough lsn rest = omega (
    arith,
    length-append (to_ne_bytes 4 (crc32c (mani_body lsn))) (mani_body lsn ++ rest),
    length-append (mani_body lsn) rest,
    p.length-to_ne_bytes 4 (crc32c (mani_body lsn)),
    length-mani_body lsn,
  )

  -- What `encode` puts in an empty buffer is decoded to the LSN it was given, and the stream then
  -- stands behind the entry.
  pub mani_decode-encode :
      (min_lsn : ℕ) (rest : List ℕ)
      → min_lsn < 2 ^ 64
      → decode p (encode p [] min_lsn ++ rest)
        ≡ ok (
          record {
            crc = crc32c (mani_body min_lsn);
            ver = 0;
            resv = 0 ∷ 0 ∷ 0 ∷ [];
            min_lsn = min_lsn;
          },
          rest,
        )
  unfolding decode
  mani_decode-encode lsn rest h =
      rw
        (
          mani_encode_lem,
          append_assoc,
          ltb-false _ 16 (long_enough lsn rest),
          fetch-to_ne_bytes p 4 _ _ (p.crc32c-lt (mani_body lsn)),
          take-append_of_length 12 (mani_body lsn) rest (length-mani_body lsn),
          ==_refl,
        )
        (simp
          (fetch-zero p, split-append p 3 (0 ∷ 0 ∷ 0 ∷ []) _ refl, fetch-to_ne_bytes p 8 lsn _ h))

  -- `decode` ends in an entry or an error whatever the bytes are, and never in a
  -- panic.
  pub mani_decode_never_panics : (src : List ℕ) → decode p src ≢ panic
  unfolding decode
  mani_decode_never_panics src = guard-then _ err≢panic λ e.
      let long = ltb_false→le (length src) mani_entry_size e in
      fetch-then p 4 12 src _ (omega arith) λ crc src h.
        guard-then (not (crc32c (take 12 src) == crc)) err≢panic λ _.
          fetch-then p 1 11 src _ (omega arith) λ _ src h.
            split-then p 3 8 src _ (omega arith)
              λ _ src h. fetch-then p 8 0 src _ (omega arith) λ _ _ _. ok≢panic
