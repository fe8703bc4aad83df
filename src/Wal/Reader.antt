-- ===== src/Wal/Reader.antt =====
-- src/wal/sync.rs: `WalReader`, and where its iterator starts.
use dbprimkit.Base.{
  ℕ, zero, suc, ◌%◌, List, [], ◌∷◌, ◌++◌, true, false, not, ◌&&◌, ◌||◌, Option, none, some, length,
  take, drop, ltb, leb, ◌==◌, if◌then◌else◌,
}
use dbprimkit.Error.{Outcome, ok, err, panic, corrupt_file, misc_error, invalid_argument, ◌>>=◌}
use dbprimkit.Storage.{Name, Disk, contents, file_size}
use dbprimkit.Appender.{list_rot_names}
use dbprimkit.Wal.Platform.{Platform}
use dbprimkit.Wal.Fullness.{full, first, middle, last}
use dbprimkit.Wal.Log.{DiskLogEntry}
use dbprimkit.Wal.Log
use dbprimkit.Wal.BlockHeader
use dbprimkit.Wal.BlockHeader.{DiskBlockHeader, block_head_size}
use dbprimkit.Wal.Config.{TunableConfig}
use dbprimkit.Wal.Reading.{LogIterator, is_empty, is_done, read_next}
use dbprimkit.Wal.RotNames.{data_rnp, parse_rot_name}
use dbprimkit.Wal.Restore.{data_prefix, read_exact, new_wal_fields}

-- The directory is what the reader reads; its rotators are those of `name`.
pub record WalReader : Type 0 where
  pub name : Name
  pub config : TunableConfig
  pub min_lsn : ℕ
  pub max_lsn : ℕ

-- `get_max_lsn` and `get_min_lsn`: 0 if nothing is kept.
unfoldable pub get_max_lsn : WalReader → ℕ
get_max_lsn wal = if ltb wal.max_lsn wal.min_lsn then 0 else wal.max_lsn

unfoldable pub get_min_lsn : WalReader → ℕ
get_min_lsn wal = if ltb wal.max_lsn wal.min_lsn then 0 else wal.min_lsn

-- `open_reader`: the contents of a data rotation.
unfoldable pub open_reader : (block_size : ℕ) → Disk → Name → Outcome (List ℕ)
open_reader block_size disk rot_name = do
  fsize ← file_size rot_name disk
  if not (fsize % block_size == 0)
      then err (corrupt_file "File size is not multiple of block size")
      else ok (elim (contents rot_name disk) [ none ↦ [] | some bs ↦ bs ])

-- The loop that chooses the rotation to start from, and the rotations behind it; `last_min_lsn` and
-- `last_name` are those of the rotation before.
unfoldable pub choose_rot :
    (prefix : Name) (start_lsn last_min_lsn : ℕ) (last_name : Option Name)
    → List Name
    → Outcome (Option Name × List Name)
choose_rot prefix start_lsn last_min_lsn last_name [] = ok (none, [])
choose_rot prefix start_lsn last_min_lsn last_name (name ∷ rot_names) =
    elim (parse_rot_name prefix name) [
      | none ↦ panic
      | some (_, next_lsn) ↦ elim (leb last_min_lsn start_lsn && ltb start_lsn next_lsn) [
        | true ↦ ok (last_name, name ∷ rot_names)
        | false ↦ elim (leb next_lsn start_lsn && is_empty rot_names) [
          | true ↦ ok (some name, rot_names)
          | false ↦ choose_rot prefix start_lsn next_lsn (some name) rot_names
        ]
      ]
    ]

-- What the loop over the first block keeps: the entries from `start_lsn` on.
unfoldable pub take_first : DiskLogEntry → LogIterator Name → Outcome (LogIterator Name)
take_first log it = elim log.fullness [
  | full ↦
      ok
        (record it { cached = it.cached ++ (record { lsn = log.lsn; payload = log.payload } ∷ []) })
  | first ↦ ok (record it {
    middle_log_lsn = log.lsn;
    middle_log_bufs = it.middle_log_bufs ++ (log.payload ∷ []);
  })
  | middle ↦ err (corrupt_file "Unexpected paritial log entry")
  | last ↦ err (corrupt_file "Unexpected paritial log entry")
]

module _ (p : Platform) where
  -- The loop over the entries of the first block, on fuel: each of them takes bytes of the block. Behind
  -- an entry that is passed over, whether the block ends is not looked at.
  unfoldable pub read_first :
      (fuel start_lsn : ℕ) → List ℕ → LogIterator Name → Outcome (LogIterator Name)
  unfolding take_first
  read_first zero start_lsn buf it = panic
  read_first (suc fuel) start_lsn buf it = do
    (log, buf) ← Log.decode p buf
    elim (ltb log.lsn start_lsn) [
      | true ↦ read_first fuel start_lsn buf it
      | false ↦ do
        it ← take_first log it
        elim (is_done p buf) [ true ↦ ok it | false ↦ read_first fuel start_lsn buf it ]
    ]

  -- The loop over the blocks of a rotation, on fuel, up to the one that `start_lsn` is in: what is left of
  -- the rotation from that block on.
  unfoldable pub find_block : (fuel start_lsn block_size : ℕ) → List ℕ → Outcome (Option (List ℕ))
  find_block zero start_lsn block_size bytes = panic
  find_block (suc fuel) start_lsn block_size bytes =
      elim (ltb 0 (length bytes) && leb block_size (length bytes)) [
        | false ↦ ok none
        | true ↦ do
          hbuf ← read_exact 0 block_head_size bytes
          (header, _) ← BlockHeader.decode p hbuf
          elim (leb header.min_lsn start_lsn && leb start_lsn header.max_lsn) [
            | true ↦ ok (some bytes)
            | false ↦ find_block fuel start_lsn block_size (drop block_size bytes)
          ]
      ]

  -- `WalReader::new`.
  unfoldable pub open_wal_reader : (name : Name) → TunableConfig → Disk → Outcome WalReader
  open_wal_reader name config disk = do
    (_, _, min_lsn, max_lsn) ← new_wal_fields p name config disk
    ok (record { name = name; config = config; min_lsn = min_lsn; max_lsn = max_lsn })

  abbrev pub not_found_entry : Outcome (LogIterator Name)
  not_found_entry = err (misc_error "Unable to find log entry matching `start_lsn`")

  -- `get_log_iter`; the fuel is for the blocks of the first rotation and for `read_next`.
  unfoldable pub get_log_iter :
      (fuel : ℕ) → WalReader → (start_lsn : ℕ) → Disk → Outcome (LogIterator Name)
  unfolding choose_rot read_first find_block open_reader
  get_log_iter fuel wal start_lsn disk =
      let prefix = data_prefix wal.name in
      let block_size = wal.config.block_size in
      if ltb start_lsn wal.min_lsn || ltb wal.max_lsn start_lsn || (wal.min_lsn == 0)
      then err (invalid_argument "start_lsn is out of range")
      else (do
        (chosen, rot_names) ←
            choose_rot prefix start_lsn 0 none (list_rot_names (data_rnp prefix 0) disk)
        elim chosen [
          | none ↦ err (misc_error "Unable to find data rotation matching `start_lsn`")
          | some rot_name ↦ do
            bytes ← open_reader block_size disk rot_name
            found ← find_block fuel start_lsn block_size bytes
            elim found [
              | none ↦ not_found_entry
              | some rest ↦ do
                it ←
                    read_first block_size start_lsn (drop block_head_size (take block_size rest))
                      (record {
                        reader = drop block_size rest;
                        cached = [];
                        middle_log_lsn = 0;
                        middle_log_bufs = [];
                        next_lsn = start_lsn;
                        rot_names = rot_names;
                        block_size = block_size;
                      })
                elim (is_empty it.cached) [
                  | false ↦ ok it
                  | true ↦ do
                    (more, it) ← read_next p (open_reader block_size disk) fuel 0 it
                    elim more [ true ↦ ok it | false ↦ not_found_entry ]
                ]
            ]
        ])
