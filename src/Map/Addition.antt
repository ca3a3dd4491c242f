-- ===== src/Map/Addition.antt =====
-- `map_add` against the abstract map, a function from two keys to a pointer.
use mbb_devel.Prelude.{
  ℕ, ◌≤◌, ◌≡◌, refl, arith, ◌∙◌, ◌⊎◌, inl, inr, false, ◌&&◌, none, some, List, [], ◌∷◌,
}
use mbb_devel.Prelude.Tests.{if◌then◌else◌, Bool-cases}
use mbb_devel.Slice.{Slice, SliceOps}
use mbb_devel.Slice.Laws.{KeyLaws}
use mbb_devel.Slicer.{Entry, Search}
use mbb_devel.Slicer.Tree.{SearchLaws, IsEntry}
use mbb_devel.Slicer.Partition.{IsRequest}
use mbb_devel.Slicer.Sweep.{Affected}
use mbb_devel.Slicer.Query.{slicer_find}
use mbb_devel.Slicer.Content.{inside}
use mbb_devel.Slicer.Effect.{Computes, Changed, slicer_insert-Changed}
use mbb_devel.Map.{
  MapEntry, MapQueue, MapCross, Map, Added, added, crossing, entries, map_data_ops, map_data_add,
  map_entry_new, add_at, map_add, map_find,
}
use mbb_devel.Map.Queue.{InOrder, value_at, Apart}
use mbb_devel.Map.Join.{JoinsNext, IsResult}
use mbb_devel.Map.Insertion.{InTheWay, IsAddition, add_at-IsAddition}
use mbb_devel.Map.Find.{
  dup_same, IsMap, EachContent, Changed-IsMap, Changed-map_find, slicer_find-affected, map_find-at,
}

-- An entry in the way is not apart.
Apart-InTheWay :
    (limit : ℕ) (s : Slice) (x : MapEntry) (q : List MapEntry)
    → Apart limit s q
    → InTheWay limit s x q
    → ⊥
Apart-InTheWay limit s x [] a w = w
Apart-InTheWay limit s x (e ∷ q) (a, as') (inl (same, hit)) = cc
Apart-InTheWay limit s x (e ∷ q) (a, as') (inr w) = Apart-InTheWay limit s x q as' w

module _ {ops dkey_ops : SliceOps} {limit dlimit : ℕ} (laws : KeyLaws ops limit)
    (dlaws : KeyLaws dkey_ops dlimit) (top dtop : ℕ) (top_open : (top ≡ 0) ⊎ (top ≡ limit))
    (dtop_open : (dtop ≡ 0) ⊎ (dtop ≡ dlimit)) (lookup : Search (List MapEntry))
    (search_laws : SearchLaws lookup) (key dkey : Slice) (ptr : ℕ)
    (request : IsRequest limit top key) where
  cur : MapEntry
  cur = map_entry_new dkey_ops dkey ptr

  cur-same : cur ≡ record { slice = dkey; value = ptr }
  unfolding cur map_entry_new
  cur-same = rw (dlaws.dup_same dkey.begin, dlaws.dup_same dkey.end) refl

  -- What an insertion makes of the data of an entry.
  add_result : MapQueue → MapQueue
  add_result d = elim (add_at dkey_ops cur none (entries d)) [ added q ↦ some q | crossing e ↦ d ]

  -- The data that an insertion can be made in.
  abbrev CanAdd : MapQueue → Type 0
  CanAdd d =
      InOrder dlimit dtop 0 (entries d)
      × Apart dlimit dkey (entries d)
      × JoinsNext dkey_ops dlimit ptr (entries d)

  module _ (entry : IsEntry dlimit dtop dkey) where
    added_lem :
        (d : MapQueue)
        → CanAdd d
        → (q : List MapEntry) × (add_at dkey_ops cur none (entries d) ≡ added q)
          × IsResult dlimit dtop 0 (record { slice = dkey; value = ptr }) (entries d) q
    added_lem d (o, a, j) = rw cur-same (
        pick (add_at dkey_ops (record { slice = dkey; value = ptr }) none (entries d)) refl (
          add_at-IsAddition dlaws dtop dtop_open 0 (record { slice = dkey; value = ptr }) none
            (entries d) o (omega arith) entry tt j))
      where
        pick :
            (r : Added)
            → add_at dkey_ops (record { slice = dkey; value = ptr }) none (entries d) ≡ r
            → IsAddition dlimit dtop 0 (record { slice = dkey; value = ptr }) none (entries d) r
            → (q : List MapEntry) × (add_at dkey_ops
                  (record { slice = dkey; value = ptr })
                  none
                  (entries d)
                ≡ added q)
              × IsResult dlimit dtop 0 (record { slice = dkey; value = ptr }) (entries d) q
        pick (added q) same (apart, result) = (q, same, result)
        pick (crossing e) same way = absurd (Apart-InTheWay dlimit dkey e (entries d) a way)

    add_result_lem : (d : MapQueue) (can : CanAdd d) → add_result d ≡ some (added_lem d can).0
    unfolding add_result
    add_result_lem d can = let (q, same, r) = added_lem d can in rw (add_result, same) refl

    map_data_add_lem :
        (d : MapQueue) (cross : MapCross) (can : CanAdd d)
        → cross.found ≡ false
        → map_data_add dkey_ops cur d cross ≡ (some (added_lem d can).0, cross)
    unfolding map_data_add
    map_data_add_lem d cross can new = let (q, same, r) = added_lem d can in simp (new, same) refl

    add-Computes :
        Computes (map_data_add dkey_ops cur) add_result CanAdd (λ cross. cross.found ≡ false)
    add-Computes = record {
      result = λ d cross can new. rw (map_data_add_lem d cross can new, add_result_lem d can) refl;
      good = λ d cross can new. rw (map_data_add_lem d cross can new) new;
    }

    add_result-value :
        (d : MapQueue) (k : ℕ)
        → CanAdd d
        → k ≤ dlimit
        → value_at dlimit k (entries (add_result d))
          ≡ (if inside dlimit dkey k then ptr else value_at dlimit k (entries d))
    add_result-value d k can h = rw (add_result_lem d can) ((added_lem d can).2.1 k h)

    add_result-InOrder : (d : MapQueue) → CanAdd d → InOrder dlimit dtop 0 (entries (add_result d))
    add_result-InOrder d can = rw (add_result_lem d can) (added_lem d can).2.0

    added-map_find :
        (map map' : Map)
        → IsMap limit top dlimit dtop map
        → IsMap limit top dlimit dtop map'
        → Changed ops limit top lookup add_result key map map'
        → Affected limit key CanAdd map.queue
        → (k d : ℕ) → k ≤ limit
        → d ≤ dlimit
        → map_find ops dkey_ops lookup k d map' ≡ (
            if inside limit key k && inside dlimit dkey d
            then ptr
            else map_find ops dkey_ops lookup k d map)
    added-map_find map map' is_map is_map' changed can k d h h' =
        Changed-map_find laws dlaws top dtop top_open dtop_open lookup search_laws add_result key
          map map' is_map is_map' changed k d h h'
        ∙ elim (Bool-cases (inside limit key k)) [
          | inl i ↦
              rw
                (
                  i,
                  map_find-at laws dlaws top dtop top_open dtop_open lookup search_laws map is_map k
                      d h h',
                )
                (add_result-value (slicer_find ops lookup k map) d
                  (slicer_find-affected laws dlaws top dtop top_open dtop_open lookup search_laws
                    map is_map CanAdd key k h i can)
                  h')
          | inr o ↦ rw o
        ]

    -- For slices of keys within the limits of both kinds (of times that is 2 ^ 31 - 1), where the
    -- first slice does not begin at 1, and neither is empty or ends otherwise than the entries of
    -- its kind do: an addition to a map in order succeeds if in each queue that it concerns no entry is in
    -- the way, and either the comparison of the second kind gives 1 for the next key only (that of
    -- times) or no entry has the pointer to be added (as for addresses, whose comparison gives 1
    -- for all greater ones, so that entries of one pointer would be joined over a gap). It sets the
    -- pointer at exactly the pairs of keys of the two slices, for all keys within the limits.
    pub map_add-map_find :
        (map : Map) (cross : MapCross)
        → IsMap limit top dlimit dtop map
        → Affected limit key
            (λ d. Apart dlimit dkey (entries d) × JoinsNext dkey_ops dlimit ptr (entries d))
            map.queue
        → (map' : Map) × (cross' : MapCross) × (map_add ops dkey_ops lookup key dkey ptr map cross
            ≡ some (map', cross'))
          × (cross'.found ≡ false)
          × IsMap limit top dlimit dtop map'
          × ((k d : ℕ)
              → k ≤ limit
              → d ≤ dlimit
              → map_find ops dkey_ops lookup k d map' ≡ (
                  if inside limit key k && inside dlimit dkey d
                  then ptr
                  else map_find ops dkey_ops lookup k d map))
    unfolding map_add map_data_ops cur
    map_add-map_find map cross is_map free =
        let (map', cross', eq, changed, good) =
          slicer_insert-Changed laws top top_open key request (map_data_ops dkey_ops) dup_same
            lookup search_laws cur map (record cross { found = false }) add-Computes
            is_map.partition (can map.queue is_map.queues free) refl in
        let is_map' : IsMap limit top dlimit dtop map' =
          Changed-IsMap ops limit top dlimit dtop lookup add_result CanAdd key map map' is_map
            changed (can map.queue is_map.queues free) add_result-InOrder in
        (
          map',
          cross',
          eq,
          good,
          is_map',
          added-map_find map map' is_map is_map' changed (can map.queue is_map.queues free),
        )
      where
        can :
            (q : List (Entry (List MapEntry)))
            → EachContent (λ d. InOrder dlimit dtop 0 (entries d)) q
            → Affected limit key
                (λ d. Apart dlimit dkey (entries d) × JoinsNext dkey_ops dlimit ptr (entries d))
                q
            → Affected limit key CanAdd q
        can [] o f = tt
        can (e ∷ q) (o, os) (f, fs) = (λ hit. (o, (f hit).0, (f hit).1), can q os fs)
