-- ===== src/Separator/Tests.antt =====
-- Three entries, of which 2 has got a new `nice`.
use mbb_devel.Prelude.{ℕ, arith, inl, [], ◌∷◌}
use mbb_devel.Prelude.Tests.{◌==◌, if◌then◌else◌}
use mbb_devel.Prelude.Slists.{slist_remove}
use mbb_devel.Separator.{PoolEntry, separator_del, mbb_unit_sep_reorder}
use mbb_devel.Separator.Order.{InOrder, Placed, mbb_unit_sep_reorder-InOrder}

abbrev pool_entries : ℕ → PoolEntry
pool_entries x = if x == 2 then record { nice = 9; flag = 0 } else record { nice = x; flag = 1 }

mbb_unit_sep_reorder-InOrder_example :
    InOrder pool_entries (mbb_unit_sep_reorder pool_entries (1 ∷ 2 ∷ 3 ∷ []) 2)
    × Placed pool_entries
        (separator_del (1 ∷ 2 ∷ 3 ∷ []) 2)
        2
        (mbb_unit_sep_reorder pool_entries (1 ∷ 2 ∷ 3 ∷ []) 2)
unfolding separator_del slist_remove
mbb_unit_sep_reorder-InOrder_example =
    mbb_unit_sep_reorder-InOrder pool_entries (1 ∷ 2 ∷ 3 ∷ []) 2
      ((omega arith, omega arith), ((omega arith, omega arith), tt)) (omega arith, omega arith)
      ((inl (omega arith), tt), (tt, tt))
