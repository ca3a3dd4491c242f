-- ===== src/Objects/Gateways.antt =====
-- The registry of mbbd/mbbgateway.c.
use mbb_devel.Prelude.{ℕ, Bool, Option, List, [], ◌∷◌}
use mbb_devel.Registry.{
  self_key, id_key, name_key, addr_key, Entries, Registry, join, detach, get_by, mod_name,
  data_link_foreach,
}
use mbb_devel.Gateway.{Gateway}

-- `dl_entries`.
abbrev pub gateway_entries : Entries Gateway
gateway_entries =
    (λ x o. self_key x)
    ∷ (λ x o. id_key o.id)
    ∷ (λ x o. name_key o.name)
    ∷ (λ x o. addr_key o.addr)
    ∷ []

unfoldable pub mbb_gateway_join : ℕ → Registry Gateway → Registry Gateway
mbb_gateway_join = join gateway_entries

unfoldable pub mbb_gateway_detach : ℕ → Registry Gateway → Registry Gateway
mbb_gateway_detach = detach gateway_entries

unfoldable pub mbb_gateway_get_by_id : ℕ → Registry Gateway → Option ℕ
mbb_gateway_get_by_id id = get_by gateway_entries 1 (id_key id)

unfoldable pub mbb_gateway_get_by_name : List ℕ → Registry Gateway → Option ℕ
mbb_gateway_get_by_name name = get_by gateway_entries 2 (name_key name)

unfoldable pub mbb_gateway_mod_name : ℕ → List ℕ → Registry Gateway → Registry Gateway × Bool
mbb_gateway_mod_name = mod_name gateway_entries (λ name obj. record obj { name = name })

-- The objects in the order in which `func` gets them.
unfoldable pub mbb_gateway_foreach : Registry Gateway → List ℕ
mbb_gateway_foreach r = data_link_foreach r.dlink

unfoldable pub mbb_gateway_get_by_addr : ℕ → Registry Gateway → Option ℕ
mbb_gateway_get_by_addr addr = get_by gateway_entries 3 (addr_key addr)
