-- ===== src/Wal/Config.antt =====
-- src/wal.rs: `TunableConfig`, its default, and `sanitize`.
use dbprimkit.Base.{
  ℕ, zero, suc, ◌+◌, ◌*◌, ◌/◌, ◌%◌, ◌^◌, Option, none, some, not, ltb, leb, ◌==◌, if◌then◌else◌,
}

pub record TunableConfig : Type 0 where
  pub ringbuf_size_order : ℕ
  pub max_data_rot_size : ℕ
  pub max_log_entry_size : ℕ
  pub block_size : ℕ
  pub bulk_flush_size : ℕ
  pub checks_bef_flush_log : ℕ
  pub checks_bef_flush_adv_lsn : ℕ

-- The first power of two, from that of exponent `k` on, that is not below `n`, among so many.
unfoldable pub next_power : ℕ → ℕ → ℕ → Option ℕ
next_power zero k n = none
next_power (suc fuel) k n =
    let rest = next_power fuel (suc k) n in if leb n (2 ^ k) then some (2 ^ k) else rest

-- `u32::checked_next_power_of_two` and its `unwrap_or`.
abbrev pub checked_next_power_of_two : ℕ → Option ℕ
checked_next_power_of_two n = next_power 32 0 n

abbrev pub unwrap_or : Option ℕ → ℕ → ℕ
unwrap_or none d = d
unwrap_or (some n) d = n

-- `Ord::clamp`.
abbrev pub clamp : ℕ → ℕ → ℕ → ℕ
clamp n lo hi = if ltb n lo then lo else if ltb hi n then hi else n

-- `u32::div_ceil`.
abbrev pub div_ceil : ℕ → ℕ → ℕ
div_ceil n d = if ltb 0 (n % d) then n / d + 1 else n / d

unfoldable pub sane_block_size : ℕ → ℕ
sane_block_size n = clamp (unwrap_or (checked_next_power_of_two n) (256 * 1024)) 4096 (256 * 1024)

-- The flush size after the test `is_multiple_of`.
abbrev pub multiple : ℕ → ℕ → ℕ
multiple block bulk = if not (bulk % block == 0) then div_ceil bulk block else bulk

unfoldable pub sane_bulk_flush_size : ℕ → ℕ → ℕ
sane_bulk_flush_size block bulk =
    let power = unwrap_or (checked_next_power_of_two (multiple block bulk)) (1024 * 1024) in
    if ltb power block then block else if ltb (1024 * 1024) power then 1024 * 1024 else power

unfoldable pub sanitize : TunableConfig → TunableConfig
sanitize c =
    let block = sane_block_size (c.block_size) in
    record c {
      block_size = block;
      bulk_flush_size = sane_bulk_flush_size block (c.bulk_flush_size);
    }

unfoldable pub default : TunableConfig
default = record {
  ringbuf_size_order = 8;
  max_data_rot_size = 32 * 1024 * 1024;
  max_log_entry_size = 1024 * 1024;
  block_size = 64 * 1024;
  bulk_flush_size = 256 * 1024;
  checks_bef_flush_log = 5;
  checks_bef_flush_adv_lsn = 0;
}

unfoldable pub from_opt : Option TunableConfig → TunableConfig
from_opt (some c) = sanitize c
from_opt none = default
