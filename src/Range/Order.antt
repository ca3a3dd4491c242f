-- ===== src/Range/Order.antt =====
-- How ranges compare.
use mbb_devel.Prelude.{ℕ, ◌≤◌, ◌<◌, ◌≡◌, arith, ◌↔◌}
use mbb_devel.Prelude.Tests.{ltb, if◌then◌else◌}
use mbb_devel.Prelude.Int.{pos, minus_one}
use mbb_devel.Range.{Range, range_cmp, range_ipcmp}

-- Two ranges that are not empty compare as equal exactly when they share an address, -1 means
-- that the first ends below the second, and swapping them negates the result.
pub range_cmp_overlap :
    (ra rb : Range)
    → ra.r_min ≤ ra.r_max
    → rb.r_min ≤ rb.r_max
    → ((range_cmp ra rb ≡ pos 0)
        ↔ ((ip : ℕ) × (range_ipcmp ra ip ≡ pos 0) × (range_ipcmp rb ip ≡ pos 0)))
      × ((range_cmp ra rb ≡ minus_one) ↔ (ra.r_max < rb.r_min))
      × ((range_cmp ra rb ≡ minus_one) ↔ (range_cmp rb ra ≡ pos 1))
unfolding range_cmp range_ipcmp
range_cmp_overlap ra rb h k = (
  (
    λ e. (if ltb ra.r_min rb.r_min then rb.r_min else ra.r_min, ground arith, ground arith),
    λ e. ground arith,
  ),
  (λ e. ground arith, λ e. ground arith),
  (λ e. ground arith, λ e. ground arith),
)
