-- ===== src/Units/Build.antt =====
-- The map of a unit, built anew from its networks.
use mbb_devel.Prelude.{ℕ, ◌-◌, ◌^◌, Bool, true, false, Option, none, some, List, [], ◌∷◌, ◌%◌}
use mbb_devel.Prelude.Tests.{◌==◌, if◌then◌else◌}
use mbb_devel.Prelude.Int.{ℤ, pos, negsuc}
use mbb_devel.Range.{inet2range}
use mbb_devel.Slice.{Slice}
use mbb_devel.Slice.Keys.{inet_ops, time_ops}
use mbb_devel.Slicer.{Search}
use mbb_devel.Slicer.Query.{slicer_new, slicer_init}
use mbb_devel.Separator.{separator_count}
use mbb_devel.Objects.Consumer.{Consumer}
use mbb_devel.Map.{MapEntry, MapCross, Map, map_data_ops, map_add, map_del}
use mbb_devel.Units.{MbbUnit, InetPoolEntry}
use mbb_devel.Units.Times.{mbb_inet_pool_entry_get_start, mbb_inet_pool_entry_get_end}

-- TIME_TO_POINTER, for pointers of 64 bits.
unfoldable pub time_to_pointer : ℤ → ℕ
time_to_pointer (pos n) = n % 2 ^ 64
time_to_pointer (negsuc n) = 2 ^ 64 - 1 - n % 2 ^ 64

-- `time_map_init`: one entry without data for all times.
unfoldable pub time_map_init : Map
time_map_init = slicer_init time_ops (map_data_ops inet_ops) none 0 0 slicer_new

module _ (consumers : ℕ → Consumer) (unit : MbbUnit) where
  -- The slice of times of an entry.
  unfoldable pub entry_key : InetPoolEntry → Slice
  entry_key entry = record {
    begin = time_to_pointer (mbb_inet_pool_entry_get_start consumers unit entry);
    end = time_to_pointer (mbb_inet_pool_entry_get_end consumers unit entry);
  }

-- The slice of addresses of an entry.
unfoldable pub entry_dkey : InetPoolEntry → Slice
entry_dkey entry = let r = inet2range entry.inet in record { begin = r.r_min; end = r.r_max }

module _ (lookup : Search (List MapEntry)) (consumers : ℕ → Consumer) (entries : ℕ → InetPoolEntry)
    (unit : MbbUnit) where
  -- The pointer to the entry is its address `e`; `none` is a failed assertion.
  unfoldable pub unit_map_add_inet : ℕ → Map → MapCross → Option (Map × MapCross)
  unit_map_add_inet e map cross =
      let entry = entries e in
      if entry.flag == 0
      then elim (map_del time_ops inet_ops lookup (entry_key consumers unit entry)
          (entry_dkey entry) 0 map cross) [
            | none ↦ none
            | some r ↦ some (r.0, record cross { found = false })
          ]
      else map_add time_ops inet_ops lookup (entry_key consumers unit entry) (entry_dkey entry) e
          map cross

  -- The map built, or the two entries that overlap, for `pp`.
  pub data Rebuilt : Type 0 where
    rebuilt : Map → Rebuilt
    overlap : ℕ → ℕ → Rebuilt

  -- The loop of `mbb_unit_map_rebuild`.
  unfoldable pub add_inets : List ℕ → Map → MapCross → Option Rebuilt
  add_inets [] map cross = some (rebuilt map)
  add_inets (e ∷ sep) map cross = elim (unit_map_add_inet e map cross) [
    | none ↦ none
    | some r ↦
        (let rest = add_inets sep r.0 r.1 in if r.1.found then some (overlap r.1.value e) else rest)
  ]

  -- The unit after the call, its result, and `pp`. The report begins as it lies on the stack.
  unfoldable pub mbb_unit_map_rebuild : MapCross → Option (MbbUnit × Bool × Option (ℕ × ℕ))
  mbb_unit_map_rebuild cross =
      let built = add_inets unit.sep time_map_init cross in
      if separator_count unit.sep == 0
      then some (record unit { map = none }, true, none)
      else elim built [
        | none ↦ none
        | some (rebuilt map) ↦ some (record unit { map = some map }, true, none)
        | some (overlap old new) ↦ some (unit, false, some (old, new))
      ]
