-- ===== src/Wal/Tests.antt =====
-- Runs of the definitions on a little-endian target, with the sum of the bytes as the check sum.
use dbprimkit.Base.{◌≡◌, ◌≢◌, refl, [], ◌∷◌, ◌++◌, some, drop, replicate, arith}
use dbprimkit.Error.{ok, panic}
use dbprimkit.Wal.Machine.{machine}
use dbprimkit.Wal.Fullness.{first, as_u8}
use dbprimkit.Wal.Log
use dbprimkit.Wal.LogFacts.{decode-encode, decode_never_panics}
use dbprimkit.Wal.ManiEntry
use dbprimkit.Wal.ManiFacts.{mani_decode-encode}
use dbprimkit.Wal.BlockHeader
use dbprimkit.Wal.BlockFacts.{header_decode_never_panics}
use dbprimkit.Wal.BlockFixed.{decode-fix_block_headers}
use dbprimkit.Wal.Config.{TunableConfig, sane_bulk_flush_size, from_opt, next_power}
use dbprimkit.Wal.ConfigFacts.{IsSane, from_opt-from_opt}

decode-encode_example :
    Log.decode machine (drop 1 (Log.encode machine (7 ∷ []) 5 (1 ∷ 2 ∷ 3 ∷ []) first) ++ (9 ∷ []))
    ≡ ok (
      record {
        payload = 1 ∷ 2 ∷ 3 ∷ [];
        crc = 15;
        len = 3;
        lsn = 5;
        ver = 0;
        fullness = first;
        flags = 0;
        resv = 0;
      },
      9 ∷ [],
    )
unfolding as_u8
decode-encode_example =
    decode-encode machine (7 ∷ []) 5 (1 ∷ 2 ∷ 3 ∷ []) (9 ∷ []) first (omega arith) (omega arith)

-- Twenty zero bytes with a length that reaches beyond them.
decode_never_panics_example : Log.decode machine (0 ∷ 0 ∷ 0 ∷ 0 ∷ 9 ∷ replicate 15 0) ≢ panic
decode_never_panics_example = decode_never_panics machine (0 ∷ 0 ∷ 0 ∷ 0 ∷ 9 ∷ replicate 15 0)

mani_decode-encode_example :
    ManiEntry.decode machine (ManiEntry.encode machine [] 258 ++ (9 ∷ []))
    ≡ ok (record { crc = 3; ver = 0; resv = 0 ∷ 0 ∷ 0 ∷ []; min_lsn = 258 }, 9 ∷ [])
mani_decode-encode_example = mani_decode-encode machine 258 (9 ∷ []) (omega arith)

-- A first block of 64 bytes, and a second one with two bytes of log entries.
decode-fix_block_headers_example :
    BlockHeader.decode machine (
      drop 64 (
        BlockHeader.fix_block_headers machine 63 6 2
          (BlockHeader.encode machine (replicate 64 1) 4 ++ (8 ∷ 9 ∷ []))))
    ≡ ok (
      record {
        crc = 12;
        ver = 0;
        resv = 0 ∷ 0 ∷ 0 ∷ [];
        min_lsn = 4;
        max_lsn = 6;
        whole_min_lsn = 2;
      },
      8 ∷ 9 ∷ [],
    )
decode-fix_block_headers_example =
    decode-fix_block_headers machine 6 (replicate 64 1) (8 ∷ 9 ∷ []) 4 6 2 (omega arith)
      (omega arith) (omega arith) (omega arith) (omega arith)

abbrev odd_config : TunableConfig
odd_config = record {
  ringbuf_size_order = 3;
  max_data_rot_size = 0;
  max_log_entry_size = 10;
  block_size = 5000;
  bulk_flush_size = 9000;
  checks_bef_flush_log = 0;
  checks_bef_flush_adv_lsn = 0;
}

from_opt-from_opt_example :
    IsSane (from_opt (some odd_config))
    × (from_opt (some (from_opt (some odd_config))) ≡ from_opt (some odd_config))
from_opt-from_opt_example = from_opt-from_opt (some odd_config)

-- 6000 bytes of buffer for blocks of 4096 become 4096, where two blocks hold them.
rounding_up_shrinks : sane_bulk_flush_size 4096 6000 ≡ 4096
unfolding sane_bulk_flush_size next_power
rounding_up_shrinks = refl

-- Thirty-two bytes whose check sum is right and whose version is not.
header_decode_never_panics_example :
    BlockHeader.decode machine (1 ∷ 0 ∷ 0 ∷ 0 ∷ 1 ∷ replicate 27 0) ≢ panic
header_decode_never_panics_example =
    header_decode_never_panics machine (1 ∷ 0 ∷ 0 ∷ 0 ∷ 1 ∷ replicate 27 0)
