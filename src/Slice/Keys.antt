-- ===== src/Slice/Keys.antt =====
-- mbbd/inetslicer.c and timeslicer.c: the two kinds of keys.
pub mod Instances
use mbb_devel.Prelude.{ℕ, ◌+◌, ◌-◌, ◌%◌, ◌^◌, ◌≤◌, ◌<◌, ◌≡◌, refl, arith, ◌&&◌}
use mbb_devel.Prelude.Tests.{ltb, if◌then◌else◌}
use mbb_devel.Prelude.Int.{ℤ, pos, minus_one, signed32, is_neg, is_pos}
use mbb_devel.Inet.{ipv4_max}
use mbb_devel.Slice.{SliceOps, slicer_dup_dummy}

-- GPOINTER_TO_IPV4: the low 32 bits of a pointer.
abbrev pub to_ipv4 : ℕ → ℕ
to_ipv4 p = p % 2 ^ 32

pub inet_cmp : ℕ → ℕ → ℤ
inet_cmp a b =
    let ip1 = to_ipv4 a in
    let ip2 = to_ipv4 b in if ltb ip1 ip2 then minus_one else if ltb ip2 ip1 then pos 1 else pos 0

pub inet_inc : ℕ → ℕ
inet_inc p = let ip = to_ipv4 p in if ltb ip ipv4_max then ip + 1 else ip

pub inet_dec : ℕ → ℕ
inet_dec p = let ip = to_ipv4 p in if ltb 0 ip then ip - 1 else ip

pub inet_ops : SliceOps
inet_ops = record { cmp = inet_cmp; dup = slicer_dup_dummy; inc = inet_inc; dec = inet_dec }

-- `t1 - t2` in 64 bits, cut to the 32 bits of a gint.
pub time_cmp : ℕ → ℕ → ℤ
time_cmp a b = signed32 ((a + 2 ^ 64 - b) % 2 ^ 64 % 2 ^ 32)

pub time_inc : ℕ → ℕ
time_inc p = (p + 1) % 2 ^ 64

-- `t > 0` for a signed 64-bit value.
pub time_dec : ℕ → ℕ
time_dec p = if ltb 0 p && ltb p (2 ^ 63) then p - 1 else p

pub time_ops : SliceOps
time_ops = record { cmp = time_cmp; dup = slicer_dup_dummy; inc = time_inc; dec = time_dec }
