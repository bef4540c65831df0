-- ===== src/Lmdb/MemSize.antt =====
-- storage/lmdb/src/memsize.rs and initial_map_size.rs: sizes in bytes, as 64-bit numbers.
use rpi4_usb_io_breaker.Base.{
  ℕ, ◌*◌, ◌^◌, ◌<◌, ◌%◌, Bool, Option, some, ltb, if◌then◌else◌, ◌≡◌, arith,
}
use rpi4_usb_io_breaker.Core.Error.{Result, ok, panicked, ◌>>=◌}

pub record MemSize : Type 0 where
  pub bytes : ℕ

-- `1024 * x` on `u64`: on overflow it panics with overflow checks, and wraps around without
unfoldable pub mul1024 : Bool → ℕ → Result ℕ
mul1024 overflow_checks x =
    if ltb (1024 * x) (2 ^ 64)
    then ok (1024 * x)
    else if overflow_checks
    then panicked
    else ok ((1024 * x) % 2 ^ 64)

unfoldable pub from_bytes : ℕ → MemSize
from_bytes n = record { bytes = n }

unfoldable pub from_kilobytes : Bool → ℕ → Result MemSize
unfolding mul1024 from_bytes
from_kilobytes checks kilobytes = do n ← mul1024 checks kilobytes; ok (from_bytes n)

unfoldable pub from_megabytes : Bool → ℕ → Result MemSize
unfolding from_kilobytes
from_megabytes checks megabytes = do n ← mul1024 checks megabytes; from_kilobytes checks n

unfoldable pub as_bytes : MemSize → ℕ
as_bytes s = s.bytes

-- `InitialMapSize`, with `From<MemSize>` and `into_memsize`
pub record InitialMapSize : Type 0 where
  pub initial_map_size : Option MemSize

unfoldable pub from_memsize : MemSize → InitialMapSize
from_memsize s = record { initial_map_size = some s }

unfoldable pub into_memsize : InitialMapSize → Option MemSize
into_memsize s = s.initial_map_size

-- Below 2^44 megabytes the size in bytes is exact, with overflow checks or without.
pub from_megabytes_exact :
    (checks : Bool) (megabytes : ℕ)
    → megabytes < 2 ^ 44
    → from_megabytes checks megabytes ≡ ok (from_bytes (1048576 * megabytes))
unfolding from_megabytes
from_megabytes_exact checks megabytes h = ground arith
