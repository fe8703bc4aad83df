-- ===== src/Wal/CallTests.antt =====
-- Runs of the calls of a writer and a reader, of src/wal.rs and src/wal/sync.rs.
use dbprimkit.Base.{◌++◌, length, Bool, ◌≤◌, ◌≡◌, List, [], ◌∷◌, true, false, none, arith}
use dbprimkit.Error.{ok, ◌>>=◌}
use dbprimkit.RingBuffer.{step, pop_for_sc}
use dbprimkit.Storage.{Name}
use dbprimkit.Wal.Config.{default}
use dbprimkit.Wal.RotNames.{gen_rot_name, padded}
use dbprimkit.Wal.RotNameFacts.{parse_rot_name-gen_rot_name}
use dbprimkit.Wal.LogRing.{LogRingBuffer, new_log_ring, load_seq, log_step, pop_log}
use dbprimkit.Wal.LogRingFacts.{bare, bare_pc, bare_both, payload_of, step-bare, pop_for_sc-bare}
use dbprimkit.Wal.Writer.{ControlBlock, new_control_block}
use dbprimkit.Storage.{Disk, list_files}
use dbprimkit.Appender.{RotAppender, list_rot_names, append}
use dbprimkit.Appender.Bounded.{append-bounded}
use dbprimkit.Wal.RotNames.{default_rnp}
use dbprimkit.Wal.Chosen.{Chosen, choose_rot-Chosen}

abbrev small_ring : LogRingBuffer
small_ring = new_log_ring 2 8

step-bare_example :
    step false (bare_pc (load_seq (7 ∷ []) 0)) (bare small_ring)
    ≡ bare_both (log_step false (load_seq (7 ∷ []) 0) small_ring)
step-bare_example = step-bare false (load_seq (7 ∷ []) 0) small_ring

pop_for_sc-bare_example :
    pop_for_sc (bare small_ring)
    ≡ (do (entry, r) ← pop_log small_ring; ok (payload_of entry, bare r))
pop_for_sc-bare_example = pop_for_sc-bare small_ring

abbrev running_log : ControlBlock
running_log = record (new_control_block 3 9 default) { running = true }

abbrev some_prefix : Name
some_prefix = b'w' ∷ []

abbrev two_names : List Name
two_names = gen_rot_name some_prefix 0 0 ∷ gen_rot_name some_prefix 8 1 ∷ []

choose_rot-Chosen_example : Chosen some_prefix 4 none 0 two_names two_names
choose_rot-Chosen_example =
    choose_rot-Chosen some_prefix 4 (gen_rot_name some_prefix 0 0)
      (gen_rot_name some_prefix 8 1 ∷ [])
      (
        0,
        1,
        parse_rot_name-gen_rot_name some_prefix 0 0 (omega arith) (omega arith),
        omega arith,
        (
          1,
          9,
          parse_rot_name-gen_rot_name some_prefix 8 1 (omega arith) (omega arith),
          omega arith,
          tt,
        ),
      )
      (0, 1, parse_rot_name-gen_rot_name some_prefix 0 0 (omega arith) (omega arith), omega arith)

abbrev two_rots : Disk
two_rots =
    record { name = gen_rot_name some_prefix 0 0; bytes = 1 ∷ [] }
    ∷ record { name = gen_rot_name some_prefix 8 1; bytes = 2 ∷ [] }
    ∷ []

-- The last rotation of two that may be is full.
abbrev full_app : RotAppender
full_app = record {
  esize = 5;
  rot = record { latest_rot_name = none; cur_rot_no = 1; max_rot = 2; rot_size_max = 4 };
  writer = some_prefix ++ padded 10 1;
}

abbrev two_files : Disk
two_files =
    record { name = some_prefix ++ padded 10 0; bytes = 1 ∷ [] }
    ∷ record { name = some_prefix ++ padded 10 1; bytes = 2 ∷ [] }
    ∷ []

append-bounded_example :
    (renewed : Bool) × (app' : RotAppender) × (disk' : Disk) × (append
        (default_rnp some_prefix)
        (3 ∷ [])
        true
        full_app
        two_files
      ≡ ok (renewed, app', disk'))
    × (length (list_rot_names (default_rnp some_prefix) disk') ≤ 2)
    × (app'.rot.max_rot ≡ 2)
unfolding list_rot_names default_rnp list_files padded
append-bounded_example =
    append-bounded (default_rnp some_prefix) (3 ∷ []) true full_app two_files (omega arith)
      (omega arith)
