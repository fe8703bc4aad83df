-- ===== src/Wal/ManiEntry.antt =====
-- src/wal.rs: `DiskManiEntry`.
use dbprimkit.Base.{ℕ, ◌-◌, List, String, length, take, drop, not, ltb, ◌==◌, if◌then◌else◌}
use dbprimkit.Error.{Outcome, ok, err, decoding_failed, ◌>>=◌}
use dbprimkit.Wal.Platform.{Platform, copy_at, fetch, split}

pub record DiskManiEntry : Type 0 where
  pub crc : ℕ
  pub ver : ℕ
  pub resv : List ℕ
  pub min_lsn : ℕ

abbrev pub mani_entry_size : ℕ
mani_entry_size = 16

module _ (p : Platform) where
  open p use {to_ne_bytes, from_ne_bytes, put_ne, crc32c}

  abbrev decode_err {ℓ} : {A : Type ℓ} → String → Outcome A
  decode_err details = err (decoding_failed "DiskManiEntry" details)

  unfoldable pub encode : List ℕ → ℕ → List ℕ
  encode buf min_lsn =
      let whole = put_ne (put_ne buf 8 0) 8 min_lsn in
      copy_at whole 0 (to_ne_bytes 4 (crc32c (drop 4 whole)))

  unfoldable pub decode : List ℕ → Outcome (DiskManiEntry × List ℕ)
  decode src =
      if ltb (length src) mani_entry_size then decode_err "Buffer is too short to decode" else do
        (recv_crc, src) ← fetch p 4 src
        if not (crc32c (take (mani_entry_size - 4) src) == recv_crc)
            then decode_err "CRC check failed"
            else do
              (ver, src) ← fetch p 1 src
              (resv, src) ← split p 3 src
              (min_lsn, src) ← fetch p 8 src
              ok (record { crc = recv_crc; ver = ver; resv = resv; min_lsn = min_lsn }, src)
