-- ===== src/Map/Tests.antt =====
-- A map of addresses and times with one entry, added to and deleted from.
use mbb_devel.Prelude.{ℕ, ◌≡◌, ◌≤◌, refl, arith, inl, inr, false, ◌&&◌, none, some, [], ◌∷◌}
use mbb_devel.Prelude.Tests.{if◌then◌else◌}
use mbb_devel.Prelude.Int.{pos}
use mbb_devel.Inet.{ipv4_max}
use mbb_devel.Slice.{Slice}
use mbb_devel.Slice.Keys.{inet_ops, time_ops}
use mbb_devel.Slice.Keys.Instances.{inet_laws, time_laws, time_max}
use mbb_devel.Slicer.FirstHit.{first_hit, first_hit_laws}
use mbb_devel.Slicer.Partition.{IsRequest}
use mbb_devel.Slicer.Content.{inside}
use mbb_devel.Map.{MapEntry, MapCross, Map, map_add, map_del, map_find}
use mbb_devel.Map.Removal.{matches}
use mbb_devel.Map.Find.{IsMap}
use mbb_devel.Map.Addition.{map_add-map_find}
use mbb_devel.Map.Deletion.{map_del-map_find}

abbrev entry : ℕ → ℕ → ℕ → MapEntry
entry b e v = record { slice = record { begin = b; end = e }; value = v }

abbrev no_cross : MapCross
no_cross = record { slice = record { begin = 0; end = 0 }; value = 0; found = false }

-- From 10.0.0.0 on, the pointer 7 in the seconds 10 to 20.
abbrev one_entry : Map
one_entry = record {
  queue =
      record { slice = record { begin = 0; end = 0x9ff_ffff }; content = none }
      ∷ record {
        slice = record { begin = 0xa00_0000; end = ipv4_max };
        content = some (entry 10 20 7 ∷ []);
      }
      ∷ [];
  count = pos 1;
}

one_entry-IsMap : IsMap ipv4_max ipv4_max time_max 0 one_entry
one_entry-IsMap = record { partition = omega arith; queues = omega arith }

abbrev key_slice : Slice
key_slice = record { begin = 0x900_0000; end = 0xaff_ffff }

key_slice-IsRequest : IsRequest ipv4_max ipv4_max key_slice
key_slice-IsRequest = record {
  begins = omega arith;
  not_one = omega arith;
  ends = omega arith;
  not_empty = omega arith;
}

abbrev late : Slice
late = record { begin = 30; end = 40 }

abbrev middle : Slice
middle = record { begin = 12; end = 15 }

middle-IsRequest : IsRequest time_max 0 middle
middle-IsRequest = record {
  begins = omega arith;
  not_one = omega arith;
  ends = omega arith;
  not_empty = omega arith;
}

map_add-map_find_example :
    (map' : Map) × (cross' : MapCross) × (map_add inet_ops time_ops first_hit key_slice late 5
        one_entry no_cross
      ≡ some (map', cross'))
    × (cross'.found ≡ false)
    × IsMap ipv4_max ipv4_max time_max 0 map'
    × ((k d : ℕ)
        → k ≤ ipv4_max
        → d ≤ time_max
        → map_find inet_ops time_ops first_hit k d map' ≡ (
            if inside ipv4_max key_slice k && inside time_max late d
            then 5
            else map_find inet_ops time_ops first_hit k d one_entry))
map_add-map_find_example =
    map_add-map_find inet_laws time_laws ipv4_max 0 (inr refl) (inl refl) first_hit first_hit_laws
      key_slice late 5 key_slice-IsRequest (omega arith) one_entry no_cross one_entry-IsMap
      ((λ h. (tt, inr tt)), ((λ h. ((refl, tt), inr (refl, tt))), tt))

map_del-map_find_example :
    (map' : Map) × (map_del inet_ops time_ops first_hit key_slice middle 7 one_entry no_cross
      ≡ some (map', no_cross))
    × IsMap ipv4_max ipv4_max time_max 0 map'
    × ((k d : ℕ)
        → k ≤ ipv4_max
        → d ≤ time_max
        → map_find inet_ops time_ops first_hit k d map' ≡ (
            if inside ipv4_max key_slice k
              && (inside time_max middle d
                  && matches 7 (map_find inet_ops time_ops first_hit k d one_entry))
            then 0
            else map_find inet_ops time_ops first_hit k d one_entry))
map_del-map_find_example =
    map_del-map_find inet_laws time_laws ipv4_max 0 (inr refl) (inl refl) first_hit first_hit_laws
      key_slice middle 7 key_slice-IsRequest middle-IsRequest one_entry no_cross one_entry-IsMap
