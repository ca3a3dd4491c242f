-- ===== src/Map/Deletion.antt =====
-- `map_del` against the abstract map, a function from two keys to a pointer.
use mbb_devel.Prelude.{ℕ, ◌≤◌, ◌≡◌, refl, ap, ◌∙◌, ◌⊎◌, inl, inr, ◌&&◌, none, some, List, [], ◌∷◌}
use mbb_devel.Prelude.Tests.{if◌then◌else◌, Bool-cases}
use mbb_devel.Slice.{Slice, SliceOps}
use mbb_devel.Slice.Laws.{KeyLaws}
use mbb_devel.Slicer.{Entry, Search}
use mbb_devel.Slicer.Tree.{SearchLaws}
use mbb_devel.Slicer.Partition.{IsRequest}
use mbb_devel.Slicer.Sweep.{Affected}
use mbb_devel.Slicer.Query.{slicer_find}
use mbb_devel.Slicer.Content.{inside}
use mbb_devel.Slicer.Effect.{Computes, Changed, slicer_delete-Changed}
use mbb_devel.Map.{
  MapEntry, MapQueue, MapCross, Map, entries, map_data_ops, map_data_del, or_null, map_entry_new,
  del_entries, map_del, map_find,
}
use mbb_devel.Map.Queue.{InOrder, value_at}
use mbb_devel.Map.Removal.{matches, del_entries_lem}
use mbb_devel.Map.Find.{
  dup_same, IsMap, EachContent, Changed-IsMap, Changed-map_find, map_find-at, slicer_find-InOrder,
}

module _ {ops dkey_ops : SliceOps} {limit dlimit : ℕ} (laws : KeyLaws ops limit)
    (dlaws : KeyLaws dkey_ops dlimit) (top dtop : ℕ) (top_open : (top ≡ 0) ⊎ (top ≡ limit))
    (dtop_open : (dtop ≡ 0) ⊎ (dtop ≡ dlimit)) (lookup : Search (List MapEntry))
    (search_laws : SearchLaws lookup) (key dkey : Slice) (ptr : ℕ)
    (request : IsRequest limit top key) (dkey_request : IsRequest dlimit dtop dkey) where
  cur : MapEntry
  cur = map_entry_new dkey_ops dkey ptr

  cur-same : cur ≡ record { slice = dkey; value = ptr }
  unfolding cur map_entry_new
  cur-same = rw (dlaws.dup_same dkey.begin, dlaws.dup_same dkey.end) refl

  -- The data that a deletion can be made in.
  abbrev HasOrder : MapQueue → Type 0
  HasOrder d = InOrder dlimit dtop 0 (entries d)

  entries-map_data_del :
      (d : MapQueue) → entries (map_data_del dkey_ops cur d) ≡ del_entries dkey_ops cur (entries d)
  unfolding map_data_del del_entries
  entries-map_data_del none = refl
  entries-map_data_del (some q) = keep (del_entries dkey_ops cur q)
    where
      keep : (q : List MapEntry) → entries (or_null q) ≡ q
      keep [] = refl
      keep (e ∷ q) = refl

  del_lem :
      (d : MapQueue)
      → HasOrder d
      → HasOrder (map_data_del dkey_ops cur d)
        × ((p : ℕ)
            → p ≤ dlimit
            → value_at dlimit p (entries (map_data_del dkey_ops cur d)) ≡ (
                if inside dlimit dkey p && matches ptr (value_at dlimit p (entries d))
                then 0
                else value_at dlimit p (entries d)))
  del_lem d o =
      rw (entries-map_data_del d, cur-same)
        (del_entries_lem dlaws dtop dtop_open (record { slice = dkey; value = ptr }) dkey_request 0
          (entries d) o)

  del-Computes :
      (cross : MapCross)
      → Computes
          (λ d (c : MapCross). (map_data_del dkey_ops cur d, c))
          (map_data_del dkey_ops cur)
          HasOrder
          (λ c. c ≡ cross)
  del-Computes cross = record { result = λ d c o g. refl; good = λ d c o g. g }

  deleted-map_find :
      (map map' : Map)
      → IsMap limit top dlimit dtop map
      → IsMap limit top dlimit dtop map'
      → Changed ops limit top lookup (map_data_del dkey_ops cur) key map map'
      → (k d : ℕ) → k ≤ limit
      → d ≤ dlimit
      → map_find ops dkey_ops lookup k d map' ≡ (
          if inside limit key k
            && (inside dlimit dkey d && matches ptr (map_find ops dkey_ops lookup k d map))
          then 0
          else map_find ops dkey_ops lookup k d map)
  deleted-map_find map map' is_map is_map' changed k d h h' =
      Changed-map_find laws dlaws top dtop top_open dtop_open lookup search_laws
        (map_data_del dkey_ops cur) key map map' is_map is_map' changed k d h h'
      ∙ elim (Bool-cases (inside limit key k)) [
        | inl i ↦
            rw
              (
                i,
                map_find-at laws dlaws top dtop top_open dtop_open lookup search_laws map is_map k d
                    h h',
              )
              ((del_lem (slicer_find ops lookup k map) (
                  slicer_find-InOrder laws dlaws top dtop top_open dtop_open lookup search_laws map
                    is_map k h)).1
                d h')
        | inr o ↦ rw o
      ]

  -- For slices of keys within the limits of both kinds (of times that is 2 ^ 31 - 1), neither of
  -- which begins at 1 or is empty: a deletion from a map in order succeeds, and takes away exactly
  -- the pointers at the pairs of keys of the two slices that are the one given, or all of them if
  -- none is given, for all keys within the limits.
  pub map_del-map_find :
      (map : Map) (cross : MapCross)
      → IsMap limit top dlimit dtop map
      → (map' : Map) × (map_del ops dkey_ops lookup key dkey ptr map cross ≡ some (map', cross))
        × IsMap limit top dlimit dtop map'
        × ((k d : ℕ)
            → k ≤ limit
            → d ≤ dlimit
            → map_find ops dkey_ops lookup k d map' ≡ (
                if inside limit key k
                  && (inside dlimit dkey d && matches ptr (map_find ops dkey_ops lookup k d map))
                then 0
                else map_find ops dkey_ops lookup k d map))
  unfolding map_del map_data_ops cur
  map_del-map_find map cross is_map =
      let (map', cross', eq, changed, good) =
        slicer_delete-Changed laws top top_open key request (map_data_ops dkey_ops) dup_same lookup
          search_laws cur map cross (del-Computes cross) is_map.partition
          (all map.queue is_map.queues) refl in
      let is_map' : IsMap limit top dlimit dtop map' =
        Changed-IsMap ops limit top dlimit dtop lookup (map_data_del dkey_ops cur) HasOrder key map
          map' is_map changed (all map.queue is_map.queues) (λ d o. (del_lem d o).0) in
      (
        map',
        eq ∙ ap (λ c. some (map', c)) good,
        is_map',
        deleted-map_find map map' is_map is_map' changed,
      )
    where
      all :
          (q : List (Entry (List MapEntry)))
          → EachContent HasOrder q
          → Affected limit key HasOrder q
      all [] o = tt
      all (e ∷ q) (o, os) = (λ hit. o, all q os)
