-- ===== src/Map.antt =====
-- mbbd/map.c and map.h: a slicer whose data are queues of entries, each with a slice of a second
-- kind of keys and a pointer. NULL is 0. Reference counts and freeing are left out; so are
-- `node_add` and `node_del`, so the model is that of a map for which both are NULL.
pub mod Queue
pub mod Join
pub mod Insertion
pub mod Removal
pub mod Iter
pub mod Find
pub mod Addition
pub mod Deletion
mod Tests
use mbb_devel.Prelude.{
  ℕ, Bool, true, false, Option, none, some, List, [], ◌∷◌, ◌++◌, ◌&&◌, ◌||◌, not,
}
use mbb_devel.Prelude.Tests.{◌==◌, if◌then◌else◌}
use mbb_devel.Prelude.Int.{ℤ, pos, negsuc, is_neg, is_pos, is_zero, sub_ℕ, pos_part, neg_part}
use mbb_devel.Slice.{Slice, SliceOps, Parts, slice_cmp, slice_cmp_point, slice_cross, is_null}
use mbb_devel.Slicer.{Slicer, DataOps, Search, slicer_insert, slicer_delete}
use mbb_devel.Slicer.Query.{slicer_find, slicer_search, slicer_foreach}
use mbb_devel.Slicer.Glue.{slicer_glue_null}

-- `struct map_entry`.
pub record MapEntry : Type 0 where
  pub slice : Slice
  pub value : ℕ

-- A queue of a map; NULL is `none`.
abbrev pub MapQueue : Type 0
MapQueue = Option (List MapEntry)

-- `struct map_cross`.
pub record MapCross : Type 0 where
  pub slice : Slice
  pub value : ℕ
  pub found : Bool

-- What the search for the place of a new entry gives: the queue from the link before that place
-- on, or the entry that overlaps the new one.
pub data Added : Type 0 where
  added : List MapEntry → Added
  crossing : MapEntry → Added

-- `g_queue_free` of an empty queue, which leaves NULL.
abbrev pub or_null : List MapEntry → MapQueue
or_null [] = none
or_null (e ∷ q) = some (e ∷ q)

-- The entries of a queue.
abbrev pub entries : MapQueue → List MapEntry
entries none = []
entries (some q) = q

-- `list->prev`, if there is one, in front of what follows.
abbrev pub with_prev : Option MapEntry → List MapEntry → List MapEntry
with_prev none q = q
with_prev (some p) q = p ∷ q

abbrev pub keep_prev : Option MapEntry → Added → Added
keep_prev prev (added q) = added (with_prev prev q)
keep_prev prev (crossing e) = crossing e

-- A part of a crossed entry that stays.
abbrev pub part_entry : ℕ → Option Slice → List MapEntry
part_entry value none = []
part_entry value (some s) = record { slice = s; value = value } ∷ []

-- The test `== 1`.
abbrev pub is_one : ℤ → Bool
is_one (pos n) = n == 1
is_one (negsuc n) = false

module _ (ops : SliceOps) where
  -- TRUE comes with the entry that takes the place of both.
  unfoldable pub map_data_split : MapEntry → MapEntry → Option MapEntry
  map_data_split mea meb =
      if not (mea.value == meb.value)
      then none
      else if is_one (ops.cmp meb.slice.begin mea.slice.end)
      then some (record {
        slice = record { begin = ops.dup mea.slice.begin; end = ops.dup meb.slice.end };
        value = mea.value;
      })
      else none

  -- The queue ends: the last link is `prev`.
  unfoldable pub add_at_tail : MapEntry → Option MapEntry → List MapEntry
  add_at_tail cur none = cur ∷ []
  add_at_tail cur (some t) = elim (map_data_split t cur) [ none ↦ t ∷ cur ∷ [] | some m ↦ m ∷ [] ]

  -- The new entry belongs before the link of `e`.
  unfoldable pub add_before : MapEntry → Option MapEntry → MapEntry → List MapEntry → List MapEntry
  add_before cur none e q = elim (map_data_split cur e) [ none ↦ cur ∷ e ∷ q | some m ↦ m ∷ q ]
  add_before cur (some p) e q = elim (map_data_split cur e) [
    | none ↦ elim (map_data_split p cur) [ none ↦ p ∷ cur ∷ e ∷ q | some m ↦ m ∷ e ∷ q ]
    | some m ↦ elim (map_data_split p m) [ none ↦ p ∷ m ∷ q | some m' ↦ m' ∷ q ]
  ]

  -- The loop of `map_data_add` over the links.
  unfoldable pub add_at : MapEntry → Option MapEntry → List MapEntry → Added
  add_at cur prev [] = added (add_at_tail cur prev)
  add_at cur prev (e ∷ q) =
      let rest = keep_prev prev (add_at cur (some e) q) in
      let n = slice_cmp ops cur.slice e.slice in
      if is_pos n then rest else if is_neg n then added (add_before cur prev e q) else crossing e

  unfoldable pub map_data_add : MapEntry → MapQueue → MapCross → MapQueue × MapCross
  map_data_add cur queue cross =
      if cross.found then (queue, cross) else elim (add_at cur none (entries queue)) [
        | added q ↦ (some q, cross)
        | crossing e ↦ (
          queue,
          record {
            slice = record { begin = ops.dup e.slice.begin; end = ops.dup e.slice.end };
            value = e.value;
            found = true;
          },
        )
      ]

  -- What the loop of `map_data_del` makes of one link.
  unfoldable pub del_entry : MapEntry → MapEntry → List MapEntry
  del_entry cur e =
      let parts = slice_cross ops e.slice cur.slice in
      if not (is_null cur.value) && not (cur.value == e.value)
      then e ∷ []
      else if not (is_zero (slice_cmp ops e.slice cur.slice))
      then e ∷ []
      else part_entry e.value parts.left ++ part_entry e.value parts.right

  unfoldable pub del_entries : MapEntry → List MapEntry → List MapEntry
  del_entries cur [] = []
  del_entries cur (e ∷ q) = del_entry cur e ++ del_entries cur q

  unfoldable pub map_data_del : MapEntry → MapQueue → MapQueue
  map_data_del cur none = none
  map_data_del cur (some q) = or_null (del_entries cur q)

-- Each link's entry is shared by the copy.
unfoldable pub map_data_dup : MapQueue → MapQueue
map_data_dup none = none
map_data_dup (some q) = some q

unfoldable pub map_data_is_null : MapQueue → Bool
map_data_is_null none = true
map_data_is_null (some []) = true
map_data_is_null (some (e ∷ q)) = false

-- `map_data_ops`, with the operations on the second kind of keys.
unfoldable pub map_data_ops : SliceOps → DataOps MapCross (List MapEntry) MapEntry
map_data_ops dkey_ops = record {
  add = map_data_add dkey_ops;
  del = λ cur queue cross. (map_data_del dkey_ops cur queue, cross);
  dup = map_data_dup;
  is_null = map_data_is_null;
}

-- `struct map`: its slicer; the operations on the two kinds of keys are parameters.
abbrev pub Map : Type 0
Map = Slicer (List MapEntry)

module _ (dkey_ops : SliceOps) where
  -- The entry that `map_add` and `map_del` make.
  unfoldable pub map_entry_new : Slice → ℕ → MapEntry
  map_entry_new dkey ptr = record {
    slice = record { begin = dkey_ops.dup dkey.begin; end = dkey_ops.dup dkey.end };
    value = ptr;
  }

  -- The loop of `map_find`.
  unfoldable pub find_value : ℕ → List MapEntry → ℕ
  find_value dkey [] = 0
  find_value dkey (e ∷ q) =
      let rest = find_value dkey q in
      let n = slice_cmp_point dkey_ops e.slice dkey in
      if is_zero n then e.value else if is_pos n then 0 else rest

  -- `g_slist_prepend` of the pointers of the entries that meet `dkey`.
  unfoldable pub map_data_search : Slice → List MapEntry → List ℕ → List ℕ
  map_data_search dkey [] found = found
  map_data_search dkey (e ∷ q) found =
      map_data_search dkey q
        (if is_zero (slice_cmp dkey_ops dkey e.slice) then e.value ∷ found else found)

  unfoldable pub search_queues : Slice → List (List MapEntry) → List ℕ → List ℕ
  search_queues dkey [] found = found
  search_queues dkey (q ∷ qs) found = search_queues dkey qs (map_data_search dkey q found)

module _ (ops dkey_ops : SliceOps) where
  unfoldable pub map_add :
      Search (List MapEntry) → Slice → Slice → ℕ → Map → MapCross → Option (Map × MapCross)
  map_add lookup key dkey ptr map cross =
      slicer_insert ops (map_data_ops dkey_ops) lookup (map_entry_new dkey_ops dkey ptr) key map
        (record cross { found = false })

  -- `cross` is NULL here, and is not touched.
  unfoldable pub map_del :
      Search (List MapEntry) → Slice → Slice → ℕ → Map → MapCross → Option (Map × MapCross)
  map_del lookup key dkey ptr map cross =
      slicer_delete ops (map_data_ops dkey_ops) lookup (map_entry_new dkey_ops dkey ptr) key map
        cross

  unfoldable pub map_find : Search (List MapEntry) → ℕ → ℕ → Map → ℕ
  map_find search key dkey map = find_value dkey_ops dkey (entries (slicer_find ops search key map))

  -- The outer `none` is a failed assertion of `slicer_search`.
  unfoldable pub map_search : Search (List MapEntry) → Slice → Slice → Map → Option (List ℕ)
  map_search lookup key dkey map = elim (slicer_search ops lookup key.begin key.end map) [
    | none ↦ none
    | some none ↦ some []
    | some (some queues) ↦ some (search_queues dkey_ops dkey queues [])
  ]

  unfoldable pub map_glue_null : Map → Map
  map_glue_null map = slicer_glue_null ops (map_data_ops dkey_ops) map

-- The entries for which `cmp` with the user's data is not 0 are taken out.
unfoldable pub map_data_remove_custom : (ℕ → Bool) → List MapEntry → List MapEntry
map_data_remove_custom cmp [] = []
map_data_remove_custom cmp (e ∷ q) =
    let rest = map_data_remove_custom cmp q in if cmp e.value then rest else e ∷ rest

unfoldable pub map_remove_custom : (ℕ → Bool) → Map → Map
map_remove_custom cmp map =
    (slicer_foreach (λ q slice arg. (map_data_remove_custom cmp q, arg)) map (tt {0})).0
