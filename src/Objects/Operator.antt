-- ===== src/Objects/Operator.antt =====
-- The registry of mbbd/mbboperator.c.
use mbb_devel.Prelude.{ℕ, Bool, Option, List, [], ◌∷◌}
use mbb_devel.Registry.{
  self_key, id_key, name_key, Entries, Registry, join, detach, get_by, mod_name, data_link_foreach,
}
use mbb_devel.Prelude.Slists.{slist_remove}

-- `struct mbb_operator`.
pub record Operator : Type 0 where
  pub id : ℕ
  pub name : List ℕ
  pub links : List ℕ

-- `dl_entries`.
abbrev pub operator_entries : Entries Operator
operator_entries = (λ x o. self_key x) ∷ (λ x o. id_key o.id) ∷ (λ x o. name_key o.name) ∷ []

unfoldable pub mbb_operator_join : ℕ → Registry Operator → Registry Operator
mbb_operator_join = join operator_entries

unfoldable pub mbb_operator_detach : ℕ → Registry Operator → Registry Operator
mbb_operator_detach = detach operator_entries

unfoldable pub mbb_operator_get_by_id : ℕ → Registry Operator → Option ℕ
mbb_operator_get_by_id id = get_by operator_entries 1 (id_key id)

unfoldable pub mbb_operator_get_by_name : List ℕ → Registry Operator → Option ℕ
mbb_operator_get_by_name name = get_by operator_entries 2 (name_key name)

unfoldable pub mbb_operator_mod_name : ℕ → List ℕ → Registry Operator → Registry Operator × Bool
mbb_operator_mod_name = mod_name operator_entries (λ name obj. record obj { name = name })

-- The objects in the order in which `func` gets them.
unfoldable pub mbb_operator_foreach : Registry Operator → List ℕ
mbb_operator_foreach r = data_link_foreach r.dlink

unfoldable pub mbb_operator_add_link : Operator → ℕ → Operator
mbb_operator_add_link op gl = record op { links = gl ∷ op.links }

unfoldable pub mbb_operator_del_link : Operator → ℕ → Operator
mbb_operator_del_link op gl = record op { links = slist_remove gl op.links }
