-- ===== src/Units/Times.antt =====
-- The times of units and of their networks, which may be inherited.
use mbb_devel.Prelude.{ℕ, Bool, true, false, Option, none, some, List, [], ◌∷◌, ◌||◌, ◌&&◌, not}
use mbb_devel.Prelude.Tests.{◌==◌, if◌then◌else◌}
use mbb_devel.Prelude.Int.{ℤ, is_neg, is_pos}
use mbb_devel.Times.{mbb_time_becmp, mbb_time_pbecmp}
use mbb_devel.Objects.Consumer.{Consumer}
use mbb_devel.Units.{MbbUnit, InetPoolEntry}

-- The consumer of a unit, on whose heap a NULL `con` is not read.
module _ (consumers : ℕ → Consumer) where
  unfoldable pub mbb_unit_get_start : MbbUnit → ℤ
  mbb_unit_get_start unit =
      if not (is_neg unit.start) || unit.con == 0 then unit.start else (consumers unit.con).start

  unfoldable pub mbb_unit_get_end : MbbUnit → ℤ
  mbb_unit_get_end unit =
      if not (is_neg unit.end) || unit.con == 0 then unit.end else (consumers unit.con).end

  unfoldable pub mbb_unit_inherit_time : MbbUnit → MbbUnit
  mbb_unit_inherit_time unit =
      let con = consumers unit.con in
      if unit.con == 0 then unit else record unit {
        start = if is_neg unit.start then con.start else unit.start;
        end = if is_neg unit.end then con.end else unit.end;
      }

  -- By the methods of the entry's owner, which is a unit.
  unfoldable pub mbb_inet_pool_entry_get_start : MbbUnit → InetPoolEntry → ℤ
  mbb_inet_pool_entry_get_start owner entry =
      if not (is_neg entry.start) then entry.start else mbb_unit_get_start owner

  unfoldable pub mbb_inet_pool_entry_get_end : MbbUnit → InetPoolEntry → ℤ
  mbb_inet_pool_entry_get_end owner entry =
      if not (is_neg entry.end) then entry.end else mbb_unit_get_end owner

unfoldable pub mbb_inet_pool_entry_test_time : InetPoolEntry → ℤ → ℤ → Bool
mbb_inet_pool_entry_test_time entry start end =
    not (is_pos (mbb_time_pbecmp entry.start entry.end start end))

module _ (entries : ℕ → InetPoolEntry) where
  unfoldable pub unit_test_inet_time : List ℕ → ℤ → ℤ → Bool
  unit_test_inet_time [] start end = true
  unit_test_inet_time (e ∷ childs) start end =
      let rest = unit_test_inet_time childs start end in
      if not (mbb_inet_pool_entry_test_time (entries e) start end) then false else rest

  unfoldable pub mbb_unit_test_time : MbbUnit → ℤ → ℤ → Bool
  mbb_unit_test_time unit start end =
      let start' = if is_neg unit.start then start else unit.start in
      let end' = if is_neg unit.end then end else unit.end in
      if is_pos (mbb_time_becmp start' end')
      then false
      else unit_test_inet_time unit.sep start' end'

  -- `unit->con` is read for a bound that is inherited; `none` is a read through NULL.
  unfoldable pub mbb_unit_mod_time : (ℕ → Consumer) → MbbUnit → ℤ → ℤ → Option (MbbUnit × Bool)
  mbb_unit_mod_time consumers unit start end =
      let con = consumers unit.con in
      let ts = if is_neg start then con.start else start in
      let te = if is_neg end then con.end else end in
      if (is_neg start || is_neg end) && unit.con == 0
      then none
      else if not (unit_test_inet_time unit.sep ts te)
      then some (unit, false)
      else some (record unit { start = start; end = end }, true)
