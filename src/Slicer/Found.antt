-- ===== src/Slicer/Found.antt =====
-- `slicer_search` returns the data of all entries that meet the slice, in the order of the keys.
use mbb_devel.Prelude.{ℕ, Option, none, some, List, [], ◌∷◌}
use mbb_devel.Prelude.Tests.{if◌then◌else◌}
use mbb_devel.Slice.{Slice}
use mbb_devel.Slicer.{Entry, Slicer}
use mbb_devel.Slicer.Partition.{meets}

module _ {D : Type 0} where
  -- The data of an entry, if it is there, in front of a list.
  abbrev pub put : Option D → List D → List D
  put none found = found
  put (some d) found = d ∷ found

module _ {D : Type 0} (limit : ℕ) (new : Slice) where
  -- The data of the entries that meet the slice.
  abbrev pub met : List (Entry D) → List D
  met [] = []
  met (e ∷ q) = if meets limit new e.slice then put e.content (met q) else met q
