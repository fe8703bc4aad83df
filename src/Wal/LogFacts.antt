-- ===== src/Wal/LogFacts.antt =====
-- `encode` and `decode` of `DiskLogEntry` in src/wal.rs undo one another.
use dbprimkit.Base.{
  ℕ, ◌+◌, ◌-◌, ◌%◌, ◌^◌, ◌≤◌, ◌<◌, ◌≡◌, ◌≢◌, refl, sym, ap, ◌∙◌, List, ◌++◌, Option, none, some,
  length, take, drop, arith, append_assoc, length-append, take-append_of_length, drop-length-append,
  drop-add, replicate, ltb-false, ltb_false→le, ==_refl,
}
use dbprimkit.Error.{Outcome, ok, panic, ◌>>=◌, ok≢panic, err≢panic, guard-then}
use dbprimkit.Wal.Platform.{
  Platform, fetch, fetch-then, split-then, slice_to-then, slice_to-long, fetch-to_ne_bytes,
  split-append, take-to_ne_bytes, copy_at-behind,
}
use dbprimkit.Wal.Fullness.{Fullness, as_u8, try_from, try_from-as_u8, as_u8-lt}
use dbprimkit.Wal.Log.{DiskLogEntry, encode, decode, decode_fields, lift_fullness}

lift_fullness-then :
    {A : Type 0} (o : Option Fullness) (k : Fullness → Outcome A)
    → ((f : Fullness) → k f ≢ panic)
    → (lift_fullness o >>= k) ≢ panic
lift_fullness-then none k safe = err≢panic
lift_fullness-then (some f) k safe = safe f

module _ (p : Platform) where
  open p use {to_ne_bytes, from_ne_bytes, crc32c}

  -- The entry behind its check sum.
  abbrev pub body : ℕ → List ℕ → Fullness → List ℕ
  body lsn payload fullness =
      to_ne_bytes 4 (length payload % 2 ^ 32)
      ++ (to_ne_bytes 8 lsn
          ++ (to_ne_bytes 1 0
              ++ (to_ne_bytes 1 (as_u8 fullness)
                  ++ (to_ne_bytes 1 0 ++ (to_ne_bytes 1 0 ++ payload)))))

  abbrev pub framed : ℕ → List ℕ → Fullness → List ℕ
  framed lsn payload fullness =
      to_ne_bytes 4 (crc32c (body lsn payload fullness)) ++ body lsn payload fullness

  -- `encode` appends the framed entry, and leaves what was in the buffer alone.
  pub encode-eq-append :
      (buf : List ℕ) (lsn : ℕ) (payload : List ℕ) (f : Fullness)
      → encode p buf lsn payload f ≡ buf ++ framed lsn payload f
  unfolding encode
  encode-eq-append buf lsn payload f =
      simp (p.put_ne_lem, p.put_bytes_lem, append_assoc)
        (rw (drop-add, drop-length-append)
          (copy_at-behind buf (replicate 4 0) _ _ (sym (p.length-to_ne_bytes 4 _))))

  -- The path of `decode` through all three of its guards.
  decode-accepted :
      (src mid : List ℕ) (c n : ℕ)
      → fetch p 4 src ≡ ok (c, mid)
      → from_ne_bytes (take 4 mid) ≡ n
      → 20 + n ≤ length src
      → 16 + n ≤ length mid
      → crc32c (take (16 + n) mid) ≡ c
      → decode p src ≡ decode_fields p c n mid
  unfolding decode
  decode-accepted src mid c n f e l m k = rw (
    ltb-false (length src) 20 (omega arith),
    f,
    slice_to-long p 4 mid (omega arith),
    e,
    ltb-false (length src - 20) n (omega arith),
    slice_to-long p (16 + n) mid m,
    k,
    ==_refl,
  )

  pub small : (n : ℕ) → n < 2 ^ 32 → n % 2 ^ 32 ≡ n
  small n h = omega arith

  length-body :
      (lsn : ℕ) (payload : List ℕ) (f : Fullness)
      → length (body lsn payload f) ≡ 16 + length payload
  length-body lsn payload f = simp (length-append, p.length-to_ne_bytes) (omega arith)

  pub length-framed :
      (lsn : ℕ) (payload : List ℕ) (f : Fullness)
      → length (framed lsn payload f) ≡ 20 + length payload
  length-framed lsn payload f = simp (length-append, p.length-to_ne_bytes) (omega arith)

  fields-back :
      (c lsn : ℕ) (payload rest : List ℕ) (f : Fullness)
      → length payload < 2 ^ 32
      → lsn < 2 ^ 64
      → decode_fields p c (length payload) (body lsn payload f ++ rest)
        ≡ ok (
          record {
            payload = payload;
            crc = c;
            len = length payload;
            lsn = lsn;
            ver = 0;
            fullness = f;
            flags = 0;
            resv = 0;
          },
          rest,
        )
  unfolding decode_fields
  fields-back c lsn payload rest f h k = simp (
    append_assoc,
    small (length payload) h,
    fetch-to_ne_bytes p 4 (length payload) _ h,
    fetch-to_ne_bytes p 8 lsn _ k,
    fetch-to_ne_bytes p 1 0 _ (omega arith),
    fetch-to_ne_bytes p 1 (as_u8 f) _ (as_u8-lt f),
    try_from-as_u8 f,
    split-append p (length payload) payload rest refl,
  )

  -- The entry that a frame is read as.
  abbrev pub entry_of : ℕ → List ℕ → Fullness → DiskLogEntry
  entry_of lsn payload f = record {
    payload = payload;
    crc = crc32c (body lsn payload f);
    len = length payload;
    lsn = lsn;
    ver = 0;
    fullness = f;
    flags = 0;
    resv = 0;
  }

  pub decode-framed :
      (lsn : ℕ) (payload rest : List ℕ) (f : Fullness)
      → length payload < 2 ^ 32
      → lsn < 2 ^ 64
      → decode p (framed lsn payload f ++ rest) ≡ ok (entry_of lsn payload f, rest)
  decode-framed lsn payload rest f h k =
      decode-accepted (framed lsn payload f ++ rest) (body lsn payload f ++ rest)
        (crc32c (body lsn payload f)) (length payload)
        (rw (append_assoc, fetch-to_ne_bytes p 4 _ _ (p.crc32c-lt (body lsn payload f))))
        (rw (append_assoc, take-to_ne_bytes, small (length payload) h)
          (p.from_ne_bytes-to_ne_bytes 4 (length payload) h))
        (omega (arith, length-append (framed lsn payload f) rest, length-framed lsn payload f))
        (omega (arith, length-append (body lsn payload f) rest, length-body lsn payload f))
        (ap crc32c (take-append_of_length _ (body lsn payload f) rest (length-body lsn payload f)))
      ∙ fields-back (crc32c (body lsn payload f)) lsn payload rest f h k

  -- An entry that `encode` appended to a buffer is decoded from there, whatever follows it in the
  -- stream: all its fields come back, and the stream then stands behind it.
  pub decode-encode :
      (buf : List ℕ) (lsn : ℕ) (payload rest : List ℕ) (f : Fullness)
      → length payload < 2 ^ 32
      → lsn < 2 ^ 64
      → decode p (drop (length buf) (encode p buf lsn payload f) ++ rest)
        ≡ ok (
          record {
            payload = payload;
            crc = crc32c (body lsn payload f);
            len = length payload;
            lsn = lsn;
            ver = 0;
            fullness = f;
            flags = 0;
            resv = 0;
          },
          rest,
        )
  decode-encode buf lsn payload rest f h k =
      rw (encode-eq-append, drop-length-append) (decode-framed lsn payload rest f h k)

  fields_never_panic :
      (c n : ℕ) (src : List ℕ) → 16 + n ≤ length src → decode_fields p c n src ≢ panic
  unfolding decode_fields
  fields_never_panic c n src h = fetch-then p 4 (12 + n) src _ (omega arith) λ _ src h.
      fetch-then p 8 (4 + n) src _ (omega arith) λ _ src h.
        fetch-then p 1 (3 + n) src _ (omega arith) λ _ src h.
          fetch-then p 1 (2 + n) src _ (omega arith) λ b src h.
            lift_fullness-then (try_from b) _ λ _.
              fetch-then p 1 (1 + n) src _ (omega arith) λ _ src h.
                fetch-then p 1 n src _ (omega arith)
                  λ _ src h. split-then p n 0 src _ (omega arith) λ _ _ _. ok≢panic

  -- Whatever the bytes are, `decode` ends in an entry or an error, and never in a panic.
  pub decode_never_panics : (src : List ℕ) → decode p src ≢ panic
  unfolding decode
  decode_never_panics src = guard-then _ err≢panic λ e.
      let long = ltb_false→le (length src) 20 e in
      fetch-then p 4 (length src - 4) src _ (omega arith) λ crc mid h.
        slice_to-then p 4 mid _ (omega arith) λ len_bytes. guard-then _ err≢panic λ e'.
          let fits = ltb_false→le (length src - 20) (from_ne_bytes len_bytes) e' in
          slice_to-then p (16 + from_ne_bytes len_bytes) mid _ (omega arith) λ checked.
            guard-then _ err≢panic
              λ _. fields_never_panic crc (from_ne_bytes len_bytes) mid (omega arith)
