-- ===== src/Range.antt =====
-- mbbd/range.c and range.h: closed ranges of IPv4 addresses.
-- Allocation is left out: a call with a NULL result pointer returns the same range in new memory.
pub mod Network
pub mod Order
mod Tests
use mbb_devel.Prelude.{ℕ, ◌-◌, ◌/◌, ◌^◌, Option, none, some, ◌++◌, ◌∷◌}
use mbb_devel.Prelude.Tests.{ltb, leb, ◌==◌, if◌then◌else◌}
use mbb_devel.Prelude.Int.{ℤ, pos, minus_one}
use mbb_devel.Prelude.Bits.{bit_and, bit_or}
use mbb_devel.Prelude.Text.{Bytes, snprintf}
use mbb_devel.Inet.{Inet, ipv4toa}

-- `struct range`.
pub record Range : Type 0 where
  pub r_min : ℕ
  pub r_max : ℕ

unfoldable pub range_new : ℕ → ℕ → Range
range_new lo hi = record { r_min = lo; r_max = hi }

pub range_new_uno : ℕ → Range
range_new_uno v = record { r_min = v; r_max = v }

-- `tmp = 0xffffffff >> mask`, and `~tmp` in 32 bits.
unfoldable pub inet2range : Inet → Range
inet2range i =
    if leb 32 i.mask
    then range_new_uno i.addr
    else (let tmp = 0xffffffff / 2 ^ i.mask in
        let mask = 0xffffffff - tmp in let ip = bit_and i.addr mask in range_new ip (bit_or ip tmp))

pub range_cmp : Range → Range → ℤ
range_cmp ra rb =
    if ltb ra.r_max rb.r_min then minus_one else if ltb rb.r_max ra.r_min then pos 1 else pos 0

pub range_ipcmp : Range → ℕ → ℤ
range_ipcmp r ip = if ltb ip r.r_min then pos 1 else if ltb r.r_max ip then minus_one else pos 0

-- RANGE_BUFSIZE.
abbrev pub range_bufsize : ℕ
range_bufsize = 64

-- `buf` is the text in the caller's buffer, or NULL. The text of two addresses is written to a
-- buffer of the function, so that of the caller is returned as it was.
pub rangetoa : Option Bytes → Range → Bytes
rangetoa buf r = if r.r_min == r.r_max then ipv4toa r.r_min else elim buf [
  | none ↦ snprintf range_bufsize (ipv4toa r.r_min ++ (b'-' ∷ ipv4toa r.r_max))
  | some old ↦ old
]
