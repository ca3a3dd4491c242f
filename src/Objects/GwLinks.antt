-- ===== src/Objects/GwLinks.antt =====
-- The registry of mbbd/mbbgwlink.c.
use mbb_devel.Prelude.{ℕ, Option, List, [], ◌∷◌}
use mbb_devel.Registry.{
  self_key, id_key, Entries, Registry, join, detach, get_by, data_link_foreach,
}
use mbb_devel.Gateway.{GwLink}

-- `dl_entries`.
abbrev pub gwlink_entries : Entries GwLink
gwlink_entries = (λ x o. self_key x) ∷ (λ x o. id_key o.id) ∷ []

unfoldable pub mbb_gwlink_join : ℕ → Registry GwLink → Registry GwLink
mbb_gwlink_join = join gwlink_entries

unfoldable pub mbb_gwlink_detach : ℕ → Registry GwLink → Registry GwLink
mbb_gwlink_detach = detach gwlink_entries

unfoldable pub mbb_gwlink_get_by_id : ℕ → Registry GwLink → Option ℕ
mbb_gwlink_get_by_id id = get_by gwlink_entries 1 (id_key id)

-- The objects in the order in which `func` gets them.
unfoldable pub mbb_gwlink_foreach : Registry GwLink → List ℕ
mbb_gwlink_foreach r = data_link_foreach r.dlink
