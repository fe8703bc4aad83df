-- ===== src/Wal/BlockHeader.antt =====
-- src/wal.rs: `DiskBlockHeader`; src/wal/sync.rs: `fix_block_headers`.
use dbprimkit.Base.{
  ℕ, ◌+◌, ◌-◌, Bool, List, [], ◌∷◌, String, length, take, drop, not, ltb, ◌==◌, if◌then◌else◌, true,
  false, ◌&&◌, bit_and,
}
use dbprimkit.Error.{Outcome, ok, err, decoding_failed, crc_check_failed, ◌>>=◌}
use dbprimkit.Wal.Platform.{Platform, copy_at, fetch, slice_to, split}

pub record DiskBlockHeader : Type 0 where
  pub crc : ℕ
  pub ver : ℕ
  pub resv : List ℕ
  pub min_lsn : ℕ
  pub max_lsn : ℕ
  pub whole_min_lsn : ℕ

-- `==` of arrays of bytes.
abbrev pub list_eq : List ℕ → List ℕ → Bool
list_eq [] [] = true
list_eq (x ∷ xs) (y ∷ ys) = (x == y) && list_eq xs ys
list_eq _ _ = false

-- `n & !m`: the bits of `n` that `m` does not have.
abbrev pub and_not : ℕ → ℕ → ℕ
and_not n m = n - bit_and n m

abbrev pub block_head_size : ℕ
block_head_size = 32

module _ (p : Platform) where
  open p use {to_ne_bytes, from_ne_bytes, put_ne, crc32c}

  abbrev decode_err {ℓ} : {A : Type ℓ} → String → Outcome A
  decode_err details = err (decoding_failed "DiskBlockHeader" details)

  unfoldable pub encode : List ℕ → ℕ → List ℕ
  encode buf min_lsn = put_ne (put_ne (put_ne (put_ne buf 8 0) 8 min_lsn) 8 0) 8 0

  unfoldable pub decode : List ℕ → Outcome (DiskBlockHeader × List ℕ)
  decode src =
      if ltb (length src) block_head_size then decode_err "Buffer is too short to decode" else do
        (recv_crc, src) ← fetch p 4 src
        checked ← slice_to p (block_head_size - 4) src
        if not (crc32c checked == recv_crc) then err crc_check_failed else do
          (ver, src) ← fetch p 1 src
          if not (ver == 0) then decode_err "Invalid ver" else do
            (resv, src) ← split p 3 src
            if not (list_eq resv (0 ∷ 0 ∷ 0 ∷ [])) then decode_err "Invalid resv" else do
              (min_lsn, src) ← fetch p 8 src
              (max_lsn, src) ← fetch p 8 src
              (whole_min_lsn, src) ← fetch p 8 src
              ok (
                record {
                  crc = recv_crc;
                  ver = ver;
                  resv = resv;
                  min_lsn = min_lsn;
                  max_lsn = max_lsn;
                  whole_min_lsn = whole_min_lsn;
                },
                src,
              )

  -- The rest of the header that starts at `offset`: its `max_lsn` and `whole_min_lsn`, then its check
  -- sum.
  unfoldable pub complete : (offset last_filled_lsn min_lsn : ℕ) → List ℕ → List ℕ
  complete offset last_filled_lsn min_lsn data_buf =
      let buf = copy_at data_buf (offset + 16) (to_ne_bytes 8 last_filled_lsn) in
      let buf = copy_at buf (offset + 24) (to_ne_bytes 8 min_lsn) in
      copy_at buf offset (to_ne_bytes 4 (crc32c (take 28 (drop (offset + 4) buf))))

  -- The header of the last block is completed before the blocks are written. The result is the buffer.
  unfoldable pub fix_block_headers : (block_mask last_filled_lsn min_lsn : ℕ) → List ℕ → List ℕ
  fix_block_headers block_mask last_filled_lsn min_lsn data_buf =
      if ltb 0 (length data_buf)
      then complete (and_not (length data_buf - 1) block_mask) last_filled_lsn min_lsn data_buf
      else data_buf
