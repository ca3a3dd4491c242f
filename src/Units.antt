-- ===== src/Units.antt =====
-- mbbd/mbbunit.c and mbbinetpool.c: units, the networks that belong to them for a time, and the map
-- of a unit, from times and addresses to networks. Creation, freeing, reference counts and the
-- visits by a regular expression are left out, and so are the functions that also change the map
-- of all units (`mbb_unit_del_inet`, `mbb_unit_clear_inet`) and the lists of nodes.
pub mod Times
pub mod Build
pub mod Rebuild
pub mod Intervals
mod Tests
use mbb_devel.Prelude.{
  ℕ, ◌+◌, ◌-◌, ◌^◌, Bool, true, false, Option, none, some, List, [], ◌∷◌, ◌||◌, ◌&&◌, not, ◌%◌,
}
use mbb_devel.Prelude.Tests.{◌==◌, if◌then◌else◌}
use mbb_devel.Prelude.Int.{ℤ, pos, negsuc, is_neg, is_pos}
use mbb_devel.Prelude.Slists.{slist_has}
use mbb_devel.Inet.{Inet}
use mbb_devel.Range.{inet2range}
use mbb_devel.Times.{mbb_time_becmp, mbb_time_pbecmp}
use mbb_devel.Slice.{Slice}
use mbb_devel.Slice.Keys.{inet_ops, time_ops}
use mbb_devel.Slicer.{Search, is_some}
use mbb_devel.Slicer.Query.{slicer_new, slicer_init}
use mbb_devel.Registry.{
  self_key, id_key, name_key, Entries, Registry, join, detach, get_by, mod_name, data_link_foreach,
  set_at,
}
use mbb_devel.Separator.{PoolEntry, separator_add, separator_has, separator_count}
use mbb_devel.Objects.Consumer.{Consumer, mbb_consumer_del_unit}
use mbb_devel.Map.{MapEntry, MapCross, Map, map_data_ops, map_add, map_del}

-- `struct mbb_inet_pool_entry`; the owner is the unit, and `node_list` holds nodes of maps.
pub record InetPoolEntry : Type 0 where
  pub id : ℕ
  pub inet : Inet
  pub flag : ℕ
  pub start : ℤ
  pub end : ℤ
  pub nice : ℕ
  pub owner : ℕ
  pub node_list : List ℕ

-- `struct mbb_unit`. NULL is 0 for `con`; a map without slicer is `none`.
pub record MbbUnit : Type 0 where
  pub id : ℕ
  pub name : List ℕ
  pub con : ℕ
  pub local : Bool
  pub start : ℤ
  pub end : ℤ
  pub sep : List ℕ
  pub map : Option Map

-- `dl_entries`.
abbrev pub unit_entries : Entries MbbUnit
unit_entries = (λ x o. self_key x) ∷ (λ x o. id_key o.id) ∷ (λ x o. name_key o.name) ∷ []

-- A hash table by an id: `g_hash_table_insert`, `g_hash_table_lookup`, `g_hash_table_remove`.
abbrev pub Ids : Type 0
Ids = List (ℕ × ℕ)

unfoldable pub ids_insert : ℕ → ℕ → Ids → Ids
ids_insert id x [] = (id, x) ∷ []
ids_insert id x (r ∷ t) =
    let rest = ids_insert id x t in if r.0 == id then (id, x) ∷ t else r ∷ rest

unfoldable pub ids_lookup : ℕ → Ids → Option ℕ
ids_lookup id [] = none
ids_lookup id (r ∷ t) = let rest = ids_lookup id t in if r.0 == id then some r.1 else rest

unfoldable pub ids_remove : ℕ → Ids → Ids
ids_remove id [] = []
ids_remove id (r ∷ t) = let rest = ids_remove id t in if r.0 == id then t else r ∷ rest

-- A table that is NULL until it is first used.
abbrev pub or_new : Option Ids → Ids
or_new none = []
or_new (some t) = t

-- The module's state: the registry of the units with their heap, the heaps of consumers and of
-- entries, `inet_pool` and `ht_local`.
pub record Units : Type 0 where
  pub units : Registry MbbUnit
  pub consumers : ℕ → Consumer
  pub entries : ℕ → InetPoolEntry
  pub inet_pool : Option Ids
  pub ht_local : Option Ids

unfoldable pub mbb_inet_pool_new : Ids
mbb_inet_pool_new = []

unfoldable pub mbb_inet_pool_add : Ids → ℕ → InetPoolEntry → Ids
mbb_inet_pool_add pool x entry = ids_insert entry.id x pool

unfoldable pub mbb_inet_pool_del : Ids → ℕ → Ids
mbb_inet_pool_del pool id = ids_remove id pool

unfoldable pub mbb_inet_pool_get : Option Ids → ℕ → Option ℕ
mbb_inet_pool_get none id = none
mbb_inet_pool_get (some pool) id = ids_lookup id pool

abbrev pub values : Ids → List ℕ
values [] = []
values (r ∷ t) = r.1 ∷ values t

-- The entries in the order in which `func` gets them.
unfoldable pub mbb_inet_pool_foreach : Option Ids → List ℕ
mbb_inet_pool_foreach none = []
mbb_inet_pool_foreach (some pool) = values pool

abbrev pub unit_at : ℕ → Units → MbbUnit
unit_at x s = s.units.heap x

abbrev pub set_unit : ℕ → MbbUnit → Units → Units
set_unit x unit s = record s {
  units = record s.units { heap = set_at unit_entries x unit s.units.heap };
}

unfoldable pub mbb_unit_local_add : ℕ → Units → Units
mbb_unit_local_add x s =
    let unit = unit_at x s in
    set_unit x (record unit { local = true })
      (record s { ht_local = some (ids_insert unit.id x (or_new s.ht_local)) })

unfoldable pub mbb_unit_local_del : ℕ → Units → Units
mbb_unit_local_del x s = elim s.ht_local [
  | none ↦ s
  | some t ↦
      (let unit = unit_at x s in
        set_unit x (record unit { local = false })
          (record s { ht_local = some (ids_remove unit.id t) }))
]

unfoldable pub mbb_unit_join : ℕ → Units → Units
mbb_unit_join x s =
    let s' = record s { units = join unit_entries x s.units } in
    if (unit_at x s').local then mbb_unit_local_add x s' else s'

unfoldable pub mbb_unit_detach : ℕ → Units → Units
mbb_unit_detach x s =
    let s' = record s { units = detach unit_entries x s.units } in
    if not (is_some s.units.dlink)
    then s
    else if (unit_at x s').local
    then mbb_unit_local_del x s'
    else s'

abbrev pub set_consumer_at : ℕ → Consumer → (ℕ → Consumer) → ℕ → Consumer
set_consumer_at c con heap y = if y == c then con else heap y

-- The reference is given back after this.
unfoldable pub mbb_unit_remove : ℕ → Units → Units
mbb_unit_remove x s =
    let unit = unit_at x s in
    let con = mbb_consumer_del_unit (s.consumers unit.con) x in
    let s' =
      set_unit x (record unit { con = 0 })
        (record s { consumers = set_consumer_at unit.con con s.consumers }) in
    mbb_unit_detach x (if unit.con == 0 then s else s')

unfoldable pub mbb_unit_get_by_id : ℕ → Units → Option ℕ
mbb_unit_get_by_id id s = get_by unit_entries 1 (id_key id) s.units

unfoldable pub mbb_unit_get_by_name : List ℕ → Units → Option ℕ
mbb_unit_get_by_name name s = get_by unit_entries 2 (name_key name) s.units

unfoldable pub mbb_unit_mod_name : ℕ → List ℕ → Units → Units × Bool
mbb_unit_mod_name x newname s =
    let r = mod_name unit_entries (λ name obj. record obj { name = name }) x newname s.units in
    (record s { units = r.0 }, r.1)

-- The objects in the order in which `func` gets them.
unfoldable pub mbb_unit_foreach : Units → List ℕ
mbb_unit_foreach s = data_link_foreach s.units.dlink

unfoldable pub mbb_unit_get_pool : Units → Option Ids
mbb_unit_get_pool s = s.inet_pool

unfoldable pub mbb_unit_set_consumer : MbbUnit → ℕ → MbbUnit
mbb_unit_set_consumer unit con = record unit { con = con }

unfoldable pub mbb_unit_unset_consumer : MbbUnit → MbbUnit × Bool
mbb_unit_unset_consumer unit =
    if is_neg unit.start || is_neg unit.end then (unit, false) else (record unit { con = 0 }, true)

-- What `entry_cmp` reads of the entries.
abbrev pub order_of : (ℕ → InetPoolEntry) → ℕ → PoolEntry
order_of heap x = record { nice = (heap x).nice; flag = (heap x).flag }

unfoldable pub mbb_unit_add_inet : ℕ → ℕ → Units → Units
mbb_unit_add_inet x e s =
    let unit = unit_at x s in
    if separator_has unit.sep e
    then s
    else set_unit x (record unit { sep = separator_add (order_of s.entries) unit.sep e })
        (record s { inet_pool = some (mbb_inet_pool_add (or_new s.inet_pool) e (s.entries e)) })

abbrev pub any_node : (ℕ → InetPoolEntry) → List ℕ → Bool
any_node heap [] = false
any_node heap (e ∷ sep) =
    let rest = any_node heap sep in elim (heap e).node_list [ [] ↦ rest | _ ↦ true ]

unfoldable pub mbb_unit_mapped : (ℕ → InetPoolEntry) → MbbUnit → Bool
mbb_unit_mapped heap unit = any_node heap unit.sep
