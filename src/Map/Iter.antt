-- ===== src/Map/Iter.antt =====
-- The iterators of mbbd/map.c: over the slices of a map, and over the entries of one queue. An
-- iterator is the list of what it has not passed.
use mbb_devel.Prelude.{Bool, true, false, Option, none, some, List, [], ◌∷◌}
use mbb_devel.Slice.{Slice}
use mbb_devel.Slicer.{Entry}
use mbb_devel.Slicer.Query.{slicer_iter_init, slicer_iter_next}
use mbb_devel.Map.{MapEntry, Map, entries}

abbrev pub MapIter : Type 0
MapIter = List (Entry (List MapEntry))

abbrev pub MapDataIter : Type 0
MapDataIter = List MapEntry

unfoldable pub map_iter_init : Map → MapIter
map_iter_init map = slicer_iter_init map

-- `p = g_list_last(p)`, of either iterator.
abbrev last : {A : Type 0} → List A → List A
last [] = []
last (e ∷ []) = e ∷ []
last (e ∷ f ∷ q) = last (f ∷ q)

unfoldable pub map_iter_last : MapIter → MapIter
map_iter_last iter = last iter

-- FALSE is `none`.
unfoldable pub map_iter_next : MapIter → Option (MapDataIter × Slice × MapIter)
map_iter_next iter = elim (slicer_iter_next iter) [
  | none ↦ none
  | some (queue, slice, next) ↦ some (entries queue, slice, next)
]

unfoldable pub map_data_iter_is_null : MapDataIter → Bool
map_data_iter_is_null [] = true
map_data_iter_is_null (e ∷ q) = false

unfoldable pub map_data_iter_next : MapDataIter → Option (MapEntry × MapDataIter)
map_data_iter_next [] = none
map_data_iter_next (e ∷ q) = some (e, q)

unfoldable pub map_data_iter_last : MapDataIter → MapDataIter
map_data_iter_last iter = last iter
