-- ===== src/Units/Rebuild.antt =====
-- The map that `mbb_unit_map_rebuild` builds, as a function of a time and an address.
use mbb_devel.Prelude.{ℕ, ◌≡◌, false, ◌&&◌, some, List, [], ◌∷◌}
use mbb_devel.Prelude.Tests.{◌==◌, if◌then◌else◌}
use mbb_devel.Inet.{ipv4_max}
use mbb_devel.Slice.{Slice}
use mbb_devel.Slice.Keys.{inet_ops}
use mbb_devel.Slice.Keys.Instances.{time_max}
use mbb_devel.Slicer.{Search}
use mbb_devel.Slicer.Tree.{IsEntry}
use mbb_devel.Slicer.Partition.{IsRequest}
use mbb_devel.Slicer.Sweep.{Affected}
use mbb_devel.Slicer.Content.{inside}
use mbb_devel.Map.{MapEntry, MapCross, Map, entries}
use mbb_devel.Map.Queue.{Apart}
use mbb_devel.Map.Join.{JoinsNext}
use mbb_devel.Map.Find.{IsMap}
use mbb_devel.Objects.Consumer.{Consumer}
use mbb_devel.Units.{MbbUnit, InetPoolEntry}
use mbb_devel.Units.Build.{entry_key, entry_dkey, unit_map_add_inet}

-- A map from times to addresses.
abbrev pub IsUnitMap : Map → Type 0
IsUnitMap = IsMap time_max 0 ipv4_max ipv4_max

module _ (lookup : Search (List MapEntry)) (consumers : ℕ → Consumer) (heap : ℕ → InetPoolEntry)
    (unit : MbbUnit) where
  abbrev pub key_of : ℕ → Slice
  key_of e = entry_key consumers unit (heap e)

  abbrev pub dkey_of : ℕ → Slice
  dkey_of e = entry_dkey (heap e)

  -- The slices of an entry are such as may be asked for and held.
  abbrev pub Fits : ℕ → Type 0
  Fits e =
      IsRequest time_max 0 (key_of e)
      × IsRequest ipv4_max ipv4_max (dkey_of e)
      × IsEntry ipv4_max ipv4_max (dkey_of e)

  -- No network of the map is in the way of the entry, and none of them is the entry itself.
  abbrev pub IsFree : ℕ → Map → Type 0
  IsFree e map =
      Affected time_max (key_of e)
        (λ d. Apart ipv4_max (dkey_of e) (entries d) × JoinsNext inet_ops ipv4_max e (entries d))
        map.queue

  -- What an entry makes of the network at a time and an address.
  abbrev pub covered : ℕ → ℕ → ℕ → ℕ → ℕ
  covered k d e v =
      if inside time_max (key_of e) k && inside ipv4_max (dkey_of e) d
      then (if (heap e).flag == 0 then 0 else e)
      else v

  -- The last entry of the list that covers the time and the address, if its flag is set.
  abbrev pub covered_by : ℕ → ℕ → List ℕ → ℕ → ℕ
  covered_by k d [] v = v
  covered_by k d (e ∷ sep) v = covered_by k d sep (covered k d e v)

  -- Each entry fits and, when its turn comes, is free if its flag is set.
  abbrev pub EachFree : List ℕ → Map → Type 0
  EachFree [] map = Unit
  EachFree (e ∷ sep) map =
      Fits e
      × (((heap e).flag == 0) ≡ false → IsFree e map)
      × ((map' : Map) (cross cross' : MapCross)
          → unit_map_add_inet lookup consumers heap unit e map cross ≡ some (map', cross')
          → EachFree sep map')
