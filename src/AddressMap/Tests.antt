-- ===== src/AddressMap/Tests.antt =====
-- A table made of a map with one network of the unit 3, for the seconds 10 to 20 and from 30 on.
use mbb_devel.Prelude.{ℕ, ◌≡◌, refl, arith, none, some, List, [], ◌∷◌}
use mbb_devel.Prelude.Int.{pos}
use mbb_devel.Inet.{ipv4_max}
use mbb_devel.Slice.Keys.{inet_ops, time_ops}
use mbb_devel.Slice.Keys.Instances.{time_max}
use mbb_devel.Slicer.FirstHit.{first_hit, first_hit_laws}
use mbb_devel.Map.{MapEntry, Map, map_find}
use mbb_devel.Map.Find.{IsMap}
use mbb_devel.Units.{InetPoolEntry}
use mbb_devel.Map.Iter.{map_iter_init, map_data_iter_is_null}
use mbb_devel.Slicer.Query.{slicer_count, slicer_iter_init}
use mbb_devel.AddressMap.{
  UmapEntry, umap_init, mbb_umap_find, mbb_umap_create, umap_entries, umap_get_data,
  pointer_to_time,
}
use mbb_devel.AddressMap.Bsearch.{scan, umap_bsearch-scan}
use mbb_devel.AddressMap.{umap_bsearch}
use mbb_devel.AddressMap.Chain.{owner_of}
use mbb_devel.AddressMap.Lookup.{mbb_umap_find-map_find}

abbrev pool : ℕ → InetPoolEntry
pool x = record {
  id = x;
  inet = record { addr = 0; mask = 0 };
  flag = 1;
  start = pos 0;
  end = pos 0;
  nice = 0;
  owner = 3;
  node_list = [];
}

abbrev entry : ℕ → ℕ → ℕ → MapEntry
entry b e v = record { slice = record { begin = b; end = e }; value = v }

abbrev two_times : Map
two_times = record {
  queue =
      record { slice = record { begin = 0; end = 0x9ff_ffff }; content = none }
      ∷ record {
        slice = record { begin = 0xa00_0000; end = ipv4_max };
        content = some (entry 10 20 7 ∷ entry 30 0 8 ∷ []);
      }
      ∷ [];
  count = pos 1;
}

two_times-IsMap : IsMap ipv4_max ipv4_max time_max 0 two_times
two_times-IsMap = record { partition = omega arith; queues = omega arith }

abbrev table : List UmapEntry
table =
    record {
      chain =
          record { unit = 3; min = pos 30; max = pos 0 }
          ∷ record { unit = 3; min = pos 10; max = pos 20 }
          ∷ [];
      min = 0xa00_0000;
      max = ipv4_max;
    }
    ∷ []

two_times-table : mbb_umap_create pool (some two_times) ≡ some table
unfolding mbb_umap_create slicer_count umap_init umap_entries map_iter_init slicer_iter_init
    map_data_iter_is_null umap_get_data pointer_to_time
two_times-table = refl

mbb_umap_find-map_find_example :
    mbb_umap_find table 0xa00_0001 (pos 15)
    ≡ some (owner_of pool (map_find inet_ops time_ops first_hit 0xa00_0001 15 two_times))
mbb_umap_find-map_find_example =
    mbb_umap_find-map_find pool first_hit first_hit_laws two_times table 0xa00_0001 15
      two_times-IsMap (tt, (((λ e. omega arith), ((λ e. omega arith), tt)), tt)) (omega arith)
      two_times-table (omega arith) (omega arith)

umap_bsearch-scan_example : umap_bsearch table 0x900_0000 ≡ some (scan 0x900_0000 table)
umap_bsearch-scan_example =
    umap_bsearch-scan table 0 0x900_0000 (omega arith, omega arith, tt) (omega arith)
