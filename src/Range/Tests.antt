-- ===== src/Range/Tests.antt =====
-- Ranges at concrete values.
use mbb_devel.Prelude.{◌/◌, ◌≡◌, ◌↔◌, refl, arith}
use mbb_devel.Prelude.Int.{pos}
use mbb_devel.Inet.{Inet}
use mbb_devel.Range.{Range, range_new, inet2range, range_ipcmp}
use mbb_devel.Range.Network.{block, inet2range-range_ipcmp}

abbrev lan : Inet
lan = record { addr = 0xc0a8_0a07; mask = 24 }

abbrev low_range : Range
low_range = record { r_min = 5; r_max = 9 }

abbrev high_range : Range
high_range = record { r_min = 9; r_max = 12 }

lan_range : inet2range lan ≡ record { r_min = 0xc0a8_0a00; r_max = 0xc0a8_0aff }
unfolding inet2range range_new
lan_range = refl

inet2range-range_ipcmp_example :
    (range_ipcmp (inet2range lan) 0xc0a8_0a55 ≡ pos 0)
    ↔ (0xc0a8_0a55 / block 24 ≡ 0xc0a8_0a07 / block 24)
inet2range-range_ipcmp_example = inet2range-range_ipcmp lan 0xc0a8_0a55 (omega arith) (omega arith)
