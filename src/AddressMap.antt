-- ===== src/AddressMap.antt =====
-- mbbd/mbbinetmap.c: the map of all units, from addresses and times to the networks of the pool,
-- and the table of units made of it for fast lookup (`umap`). The global map is an argument.
-- Locks, reference counts and freeing are left out.
pub mod Bsearch
pub mod Chain
pub mod Lookup
mod Tests
use mbb_devel.Prelude.{
  ℕ, zero, suc, ◌+◌, ◌-◌, ◌/◌, ◌^◌, Bool, true, false, Option, none, some, List, [], ◌∷◌, ◌++◌,
}
use mbb_devel.Prelude.Tests.{ltb, leb, ◌==◌, if◌then◌else◌}
use mbb_devel.Prelude.Int.{ℤ, pos, negsuc, ltb_ℤ, pred_ℤ, is_zero}
use mbb_devel.Prelude.Lists.{length, get_elem?}
use mbb_devel.Slice.{Slice}
use mbb_devel.Slice.Keys.{inet_ops, time_ops, to_ipv4}
use mbb_devel.Slicer.{Search, Entry}
use mbb_devel.Slicer.Query.{slicer_new, slicer_init, slicer_count}
use mbb_devel.Inet.{ipv4_max}
use mbb_devel.Map.{MapEntry, MapCross, Map, map_data_ops, map_add}
use mbb_devel.Map.Iter.{MapIter, MapDataIter, map_iter_init, map_data_iter_is_null}
use mbb_devel.Units.{InetPoolEntry}

-- GPOINTER_TO_TIME: the signed integer of 64 bits.
unfoldable pub pointer_to_time : ℕ → ℤ
pointer_to_time p = if ltb p (2 ^ 63) then pos p else negsuc (2 ^ 64 - p - 1)

-- `struct umap_data_entry`, without `next`; a chain is a list.
pub record UmapDataEntry : Type 0 where
  pub unit : ℕ
  pub min : ℤ
  pub max : ℤ

-- `struct umap_entry`.
pub record UmapEntry : Type 0 where
  pub chain : List UmapDataEntry
  pub min : ℕ
  pub max : ℕ

module _ (heap : ℕ → InetPoolEntry) where
  -- The loop of `umap_get_data`, with the chain made so far.
  unfoldable pub umap_get_data : MapDataIter → List UmapDataEntry → List UmapDataEntry
  umap_get_data [] chain = chain
  umap_get_data (e ∷ iter) chain = umap_get_data iter (
      record {
        unit = (heap e.value).owner;
        min = pointer_to_time e.slice.begin;
        max = pointer_to_time e.slice.end;
      }
      ∷ chain)

  -- `g_array_append_val`, unless there is no data.
  abbrev pub append_entry : Slice → List UmapDataEntry → List UmapEntry → List UmapEntry
  append_entry slice [] array = array
  append_entry slice (d ∷ chain) array =
      record { chain = d ∷ chain; min = to_ipv4 slice.begin; max = to_ipv4 slice.end } ∷ array

  -- The loop of `umap_init`. The entry of a slice goes in front of those of the later slices.
  unfoldable pub umap_entries : MapIter → List UmapEntry
  umap_entries [] = []
  umap_entries (s ∷ iter) = elim s.content [
    | none ↦ umap_entries iter
    | some queue ↦
        append_entry s.slice (if map_data_iter_is_null queue then [] else umap_get_data queue [])
          (umap_entries iter)
  ]

  unfoldable pub umap_init : Map → List UmapEntry
  umap_init map = umap_entries (map_iter_init map)

  -- The array, or NULL when it is empty.
  abbrev pub array_or_null : List UmapEntry → Option (List UmapEntry)
  array_or_null [] = none
  array_or_null (e ∷ array) = some (e ∷ array)

  -- A map without slicer is `none`, and so is the result NULL.
  unfoldable pub mbb_umap_create : Option Map → Option (List UmapEntry)
  mbb_umap_create none = none
  mbb_umap_create (some global_map) =
      if is_zero (slicer_count global_map) then none else array_or_null (umap_init global_map)

-- What one turn of the loop of `umap_bsearch` does: NULL, an entry, or a narrower window. A sum
-- that leaves the gint, and an index behind the array, are `broken`.
pub data BsearchStep : Type 0 where
  missed : BsearchStep
  broken : BsearchStep
  hit : UmapEntry → BsearchStep
  narrowed : ℕ → ℤ → BsearchStep

unfoldable pub umap_probe : ℕ → ℕ → ℕ → ℕ → UmapEntry → BsearchStep
umap_probe ip min max n entry =
    if ltb ip entry.min
    then narrowed min (pred_ℤ (pos n))
    else if ltb entry.max ip
    then narrowed (suc n) (pos max)
    else hit entry

unfoldable pub umap_bsearch_step : List UmapEntry → ℕ → ℕ → ℤ → BsearchStep
umap_bsearch_step base ip min (negsuc max) = missed
umap_bsearch_step base ip min (pos max) =
    let n = (min + max) / 2 in
    if ltb max min
    then missed
    else if leb (2 ^ 31) (min + max)
    then broken
    else elim (get_elem? base n) [ none ↦ broken | some entry ↦ umap_probe ip min max n entry ]

-- The loop, on fuel; `none` is a broken step or no fuel.
unfoldable pub umap_bsearch_loop : List UmapEntry → ℕ → ℕ → ℕ → ℤ → Option (Option UmapEntry)
umap_bsearch_loop base ip zero min max = none
umap_bsearch_loop base ip (suc fuel) min max = elim (umap_bsearch_step base ip min max) [
  | missed ↦ some none
  | broken ↦ none
  | hit entry ↦ some (some entry)
  | narrowed min' max' ↦ umap_bsearch_loop base ip fuel min' max'
]

unfoldable pub umap_bsearch : List UmapEntry → ℕ → Option (Option UmapEntry)
umap_bsearch base ip = umap_bsearch_loop base ip (length base + 1) 0 (pred_ℤ (pos (length base)))

-- The do-while loop of `umap_data_search`; NULL is `none`.
unfoldable pub search_chain : List UmapDataEntry → ℤ → Option ℕ
search_chain [] t = none
search_chain (d ∷ chain) t =
    let rest = search_chain chain t in
    if ltb_ℤ d.max t then none else if ltb_ℤ t d.min then rest else some d.unit

unfoldable pub umap_data_search : List UmapDataEntry → ℤ → Option ℕ
umap_data_search [] t = none
umap_data_search (d ∷ chain) t =
    if is_zero d.max
    then if ltb_ℤ t d.min then search_chain chain t else some d.unit
    else search_chain (d ∷ chain) t

-- The end of `mbb_umap_find`, from the result of the binary search.
abbrev pub find_in : Option (Option UmapEntry) → ℤ → Option (Option ℕ)
find_in none t = none
find_in (some none) t = some none
find_in (some (some entry)) t = some (umap_data_search entry.chain t)

-- The outer `none` is the one of `umap_bsearch`.
unfoldable pub mbb_umap_find : List UmapEntry → ℕ → ℤ → Option (Option ℕ)
mbb_umap_find umap ip t = find_in (umap_bsearch umap ip) t

-- `inet_map_init`: one entry without data for all addresses.
unfoldable pub inet_map_init : Map
inet_map_init = slicer_init inet_ops (map_data_ops time_ops) none 0 ipv4_max slicer_new

module _ (lookup : Search (List MapEntry)) where
  -- The inner loop of `map_add_map`, over the entries of one slice of times.
  unfoldable pub add_queue : MapDataIter → Slice → Map → MapCross → Option (Map × MapCross × Bool)
  add_queue [] dkey map cross = some (map, cross, true)
  add_queue (e ∷ iter) dkey map cross =
      elim (map_add inet_ops time_ops lookup e.slice dkey e.value map cross) [
        | none ↦ none
        | some (map', cross') ↦
            (let rest = add_queue iter dkey map' cross' in
              if cross'.found then some (map', cross', false) else rest)
      ]

  -- The outer loop. The outer `none` is a failed assertion.
  unfoldable pub add_slices : MapIter → Map → MapCross → Option (Map × MapCross × Bool)
  add_slices [] map cross = some (map, cross, true)
  add_slices (s ∷ iter) map cross =
      elim (add_queue (elim s.content [ none ↦ [] | some q ↦ q ]) s.slice map cross) [
        | none ↦ none
        | some (map', cross', false) ↦ some (map', cross', false)
        | some (map', cross', true) ↦ add_slices iter map' cross'
      ]

  unfoldable pub map_add_map : Map → Map → MapCross → Option (Map × MapCross × Bool)
  map_add_map map unit_map cross = add_slices (map_iter_init unit_map) map cross

  -- `none` in front is a failed assertion. The report begins as it lies on the stack.
  unfoldable pub mbb_umap_from_unit :
      (ℕ → InetPoolEntry) → Option Map → MapCross → Option (Option (List UmapEntry))
  mbb_umap_from_unit heap none cross = some none
  mbb_umap_from_unit heap (some unit_map) cross =
      if is_zero (slicer_count unit_map)
      then some none
      else elim (map_add_map inet_map_init unit_map cross) [
        | none ↦ none
        | some (imap, cross', false) ↦ some none
        | some (imap, cross', true) ↦ some (array_or_null heap (umap_init heap imap))
      ]
