-- ===== src/Wal/Fullness.antt =====
-- src/wal.rs: `Fullness`, its byte, and `TryFrom<u8>`.
use dbprimkit.Base.{ℕ, ◌≡◌, ◌<◌, refl, Option, none, some, arith, ◌==◌, if◌then◌else◌}

pub data Fullness : Type 0 where
  full first middle last : Fullness

-- `fullness as u8`.
unfoldable pub as_u8 : Fullness → ℕ
as_u8 full = 0
as_u8 first = 1
as_u8 middle = 2
as_u8 last = 3

unfoldable pub try_from : ℕ → Option Fullness
try_from v =
    if v == 0
    then some full
    else if v == 1
    then some first
    else if v == 2
    then some middle
    else if v == 3
    then some last
    else none

pub try_from-as_u8 : (f : Fullness) → try_from (as_u8 f) ≡ some f
unfolding try_from as_u8
try_from-as_u8 full = refl
try_from-as_u8 first = refl
try_from-as_u8 middle = refl
try_from-as_u8 last = refl

pub as_u8-lt : (f : Fullness) → as_u8 f < 256
unfolding as_u8
as_u8-lt f = ground arith
