-- ===== src/Wal/Log.antt =====
-- src/wal.rs: `DiskLogEntry`, its `encode` and `decode`.
use dbprimkit.Base.{
  ℕ, ◌+◌, ◌-◌, ◌%◌, ◌^◌, List, ◌++◌, Option, none, some, String, length, drop, not, ltb, ◌==◌,
  if◌then◌else◌,
}
use dbprimkit.Error.{Outcome, ok, err, decoding_failed, ◌>>=◌}
use dbprimkit.Wal.Platform.{Platform, copy_at, fetch, slice_to, split}
use dbprimkit.Wal.Fullness.{Fullness, as_u8, try_from}

pub record DiskLogEntry : Type 0 where
  pub payload : List ℕ
  pub crc : ℕ
  pub len : ℕ
  pub lsn : ℕ
  pub ver : ℕ
  pub fullness : Fullness
  pub flags : ℕ
  pub resv : ℕ

abbrev pub log_head_size : ℕ
log_head_size = 20

abbrev decode_err {ℓ} : {A : Type ℓ} → String → Outcome A
decode_err details = err (decoding_failed "DiskLogEntry" details)

abbrev pub lift_fullness : Option Fullness → Outcome Fullness
lift_fullness none = decode_err "Invalid fullness"
lift_fullness (some f) = ok f

module _ (p : Platform) where
  open p use {to_ne_bytes, from_ne_bytes, put_ne, put_bytes, crc32c}

  -- `buf` is the vector that the entry is appended to.
  unfoldable pub encode : List ℕ → ℕ → List ℕ → Fullness → List ℕ
  encode buf lsn payload fullness =
      let ostart = length buf in
      let head = put_ne (put_ne (put_bytes buf 0 4) 4 (length payload % 2 ^ 32)) 8 lsn in
      let whole =
        put_ne (put_ne (put_ne (put_ne head 1 0) 1 (as_u8 fullness)) 1 0) 1 0 ++ payload in
      copy_at whole ostart (to_ne_bytes 4 (crc32c (drop (ostart + 4) whole)))

  -- The fields behind the length field; `src` stands at the length field.
  unfoldable pub decode_fields : ℕ → ℕ → List ℕ → Outcome (DiskLogEntry × List ℕ)
  decode_fields recv_crc entry_len src = do
    (_, src) ← fetch p 4 src
    (lsn, src) ← fetch p 8 src
    (ver, src) ← fetch p 1 src
    (f, src) ← fetch p 1 src
    fullness ← lift_fullness (try_from f)
    (flags, src) ← fetch p 1 src
    (resv, src) ← fetch p 1 src
    (payload, src) ← split p entry_len src
    ok (
      record {
        payload = payload;
        crc = recv_crc;
        len = entry_len % 2 ^ 32;
        lsn = lsn;
        ver = ver;
        fullness = fullness;
        flags = flags;
        resv = resv;
      },
      src,
    )

  -- The entry at the front of `src`, and what is left of `src` behind it.
  unfoldable pub decode : List ℕ → Outcome (DiskLogEntry × List ℕ)
  unfolding decode_fields
  decode src =
      let olen = length src in
      if ltb olen log_head_size then decode_err "Buffer is too short to decode" else do
        (recv_crc, src) ← fetch p 4 src
        len_bytes ← slice_to p 4 src
        let entry_len = from_ne_bytes len_bytes
        if ltb (olen - log_head_size) entry_len then decode_err "len field is too large" else do
          checked ← slice_to p (log_head_size - 4 + entry_len) src
          if not (crc32c checked == recv_crc)
              then decode_err "CRC check failed"
              else decode_fields recv_crc entry_len src
