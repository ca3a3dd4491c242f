-- ===== src/Objects/Consumer.antt =====
-- The registry of mbbd/mbbconsumer.c.
use mbb_devel.Prelude.{ℕ, Bool, true, false, Option, List, [], ◌∷◌}
use mbb_devel.Prelude.Tests.{if◌then◌else◌}
use mbb_devel.Prelude.Int.{ℤ, is_pos}
use mbb_devel.Registry.{
  self_key, id_key, name_key, Entries, Registry, join, detach, get_by, mod_name, data_link_foreach,
}
use mbb_devel.Times.{mbb_time_becmp}
use mbb_devel.Prelude.Slists.{slist_has, slist_remove}

-- `struct mbb_consumer`.
pub record Consumer : Type 0 where
  pub id : ℕ
  pub name : List ℕ
  pub units : List ℕ
  pub start : ℤ
  pub end : ℤ

-- `dl_entries`.
abbrev pub consumer_entries : Entries Consumer
consumer_entries = (λ x o. self_key x) ∷ (λ x o. id_key o.id) ∷ (λ x o. name_key o.name) ∷ []

unfoldable pub mbb_consumer_join : ℕ → Registry Consumer → Registry Consumer
mbb_consumer_join = join consumer_entries

unfoldable pub mbb_consumer_detach : ℕ → Registry Consumer → Registry Consumer
mbb_consumer_detach = detach consumer_entries

unfoldable pub mbb_consumer_get_by_id : ℕ → Registry Consumer → Option ℕ
mbb_consumer_get_by_id id = get_by consumer_entries 1 (id_key id)

unfoldable pub mbb_consumer_get_by_name : List ℕ → Registry Consumer → Option ℕ
mbb_consumer_get_by_name name = get_by consumer_entries 2 (name_key name)

unfoldable pub mbb_consumer_mod_name : ℕ → List ℕ → Registry Consumer → Registry Consumer × Bool
mbb_consumer_mod_name = mod_name consumer_entries (λ name obj. record obj { name = name })

-- The objects in the order in which `func` gets them.
unfoldable pub mbb_consumer_foreach : Registry Consumer → List ℕ
mbb_consumer_foreach r = data_link_foreach r.dlink

unfoldable pub mbb_consumer_add_unit : Consumer → ℕ → Consumer
mbb_consumer_add_unit con unit =
    if slist_has unit con.units then con else record con { units = unit ∷ con.units }

unfoldable pub mbb_consumer_del_unit : Consumer → ℕ → Consumer
mbb_consumer_del_unit con unit = record con { units = slist_remove unit con.units }

unfoldable pub mbb_consumer_has_unit : Consumer → ℕ → Bool
mbb_consumer_has_unit con unit = slist_has unit con.units

-- `mbb_unit_mapped` is the argument.
unfoldable pub any_mapped : (ℕ → Bool) → List ℕ → Bool
any_mapped mapped [] = false
any_mapped mapped (unit ∷ units) =
    let rest = any_mapped mapped units in if mapped unit then true else rest

unfoldable pub mbb_consumer_mapped : (ℕ → Bool) → Consumer → Bool
mbb_consumer_mapped mapped con = any_mapped mapped con.units

-- `mbb_unit_test_time` is the argument.
unfoldable pub units_fit : (ℕ → ℤ → ℤ → Bool) → ℤ → ℤ → List ℕ → Bool
units_fit test_time start end [] = true
units_fit test_time start end (unit ∷ units) =
    let rest = units_fit test_time start end units in
    if test_time unit start end then rest else false

unfoldable pub mbb_consumer_mod_time : (ℕ → ℤ → ℤ → Bool) → Consumer → ℤ → ℤ → Consumer × Bool
mbb_consumer_mod_time test_time con start end =
    if is_pos (mbb_time_becmp start end)
    then (con, false)
    else if units_fit test_time start end con.units
    then (record con { start = start; end = end }, true)
    else (con, false)
