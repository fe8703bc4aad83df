-- ===== src/Wal/Reading.antt =====
-- src/wal/sync.rs: `LogIterator`, its `read_next` and `next`.
use dbprimkit.Base.{
  ℕ, zero, suc, ◌+◌, List, [], ◌∷◌, ◌++◌, Bool, true, false, Option, none, some, not, ◌||◌, length,
  take, drop, ltb, ◌==◌, if◌then◌else◌,
}
use dbprimkit.Error.{Outcome, ok, err, panic, corrupt_file, misc_error, ◌>>=◌}
use dbprimkit.Wal.Platform.{Platform}
use dbprimkit.Wal.Fullness.{full, first, middle, last}
use dbprimkit.Wal.Log.{DiskLogEntry, decode, log_head_size}
use dbprimkit.Wal.BlockHeader.{block_head_size}
use dbprimkit.Wal.Packing.{LogEntry}

-- `reader` holds the bytes that are not read yet of the current rotation, which is never closed, and
-- `Name` stands for the names of the rotations.
pub record LogIterator (Name : Type 0) : Type 0 where
  pub reader : List ℕ
  pub cached : List LogEntry
  pub middle_log_lsn : ℕ
  pub middle_log_bufs : List (List ℕ)
  pub next_lsn : ℕ
  pub rot_names : List Name
  pub block_size : ℕ

-- `payload[start..end].copy_from_slice(&pl)`, over the parts in order.
abbrev pub joined : List (List ℕ) → List ℕ
joined [] = []
joined (b ∷ bs) = b ++ joined bs

abbrev pub is_empty {ℓ} : {A : Type ℓ} → List A → Bool
is_empty [] = true
is_empty (_ ∷ _) = false

-- Whether a block has no more entries.
abbrev pub is_done : Platform → List ℕ → Bool
is_done p buf = ltb (length buf) log_head_size || (p.from_ne_bytes (take 8 buf) == 0)

module _ {Name : Type 0} where
  -- What one decoded entry does to the iterator.
  unfoldable pub take_in : DiskLogEntry → LogIterator Name → Outcome (LogIterator Name)
  take_in log it = elim log.fullness [
    | full ↦
        ok (record it {
          cached = it.cached ++ (record { lsn = log.lsn; payload = log.payload } ∷ []);
        })
    | first ↦
        if not (is_empty it.middle_log_bufs)
        then err (corrupt_file "Partial log entry not finished")
        else ok (record it { middle_log_lsn = log.lsn; middle_log_bufs = log.payload ∷ [] })
    | middle ↦
        if is_empty it.middle_log_bufs
        then err (corrupt_file "Unexpected paritial log entry")
        else if not (it.middle_log_lsn == log.lsn)
        then err (corrupt_file "Unexpected paritial log lsn")
        else ok (record it { middle_log_bufs = it.middle_log_bufs ++ (log.payload ∷ []) })
    | last ↦
        if is_empty it.middle_log_bufs
        then err (corrupt_file "Unexpected paritial log entry")
        else if not (it.middle_log_lsn == log.lsn)
        then err (corrupt_file "Unexpected paritial log lsn")
        else ok (record it {
          cached =
              it.cached
              ++ (record {
                lsn = log.lsn;
                payload = joined (it.middle_log_bufs ++ (log.payload ∷ []));
              }
                  ∷ []);
          middle_log_bufs = [];
        })
  ]

  module _ (p : Platform) where
    -- The loop over the entries of a block, on fuel: each of them takes bytes of the block.
    unfoldable pub read_logs : (fuel : ℕ) → List ℕ → LogIterator Name → Outcome (LogIterator Name)
    unfolding take_in
    read_logs zero buf it = panic
    read_logs (suc fuel) buf it = do
      (log, buf) ← decode p buf
      it ← take_in log it
      elim (is_done p buf) [ true ↦ ok it | false ↦ read_logs fuel buf it ]

    -- The entries of one block.
    unfoldable pub read_block : List ℕ → LogIterator Name → Outcome (LogIterator Name)
    unfolding read_logs
    read_block bbuf it = read_logs (length bbuf) (drop block_head_size bbuf) it

    -- `open_rot` is `open_reader` with the data rotator and the block size: the contents of a rotation.
    module _ (open_rot : Name → Outcome (List ℕ)) where
      -- The loop of `read_next`, on fuel; `ocnt` is how many entries were cached before it.
      unfoldable pub read_next :
          (fuel ocnt : ℕ) → LogIterator Name → Outcome (Bool × LogIterator Name)
      unfolding read_block
      read_next zero ocnt it = panic
      read_next (suc fuel) ocnt it = elim (ltb (length it.reader) it.block_size) [
        | true ↦ elim it.rot_names [
          | [] ↦
              if not (is_empty it.middle_log_bufs)
              then err (corrupt_file "Unended paritial log")
              else ok (not (ocnt == length it.cached), it)
          | rot_name ∷ rot_names ↦ do
            rd ← open_rot rot_name
            read_next fuel ocnt (record it { reader = rd; rot_names = rot_names })
        ]
        | false ↦ do
          it ←
              read_block (take it.block_size it.reader)
                (record it { reader = drop it.block_size it.reader })
          elim (ocnt == length it.cached) [ true ↦ read_next fuel ocnt it | false ↦ ok (true, it) ]
      ]

      -- `next`, whose loop runs again only after `read_next` has cached an entry. The first part of
      -- the result is `Some(Ok(..))` or `None`; `Some(Err(..))` is an error.
      unfoldable pub next :
          (fuel : ℕ) → LogIterator Name → Outcome (Option LogEntry × LogIterator Name)
      unfolding read_next
      next zero it = panic
      next (suc fuel) it = elim it.cached [
        | entry ∷ cached ↦
            if not (entry.lsn == it.next_lsn)
            then err (misc_error "Unexpected LSN in log entry")
            else ok (some entry, record it { cached = cached; next_lsn = it.next_lsn + 1 })
        | [] ↦ do
          (more, it) ← read_next fuel (length it.cached) it
          elim more [ true ↦ next fuel it | false ↦ ok (none, it) ]
      ]
