-- ===== src/Objects/User.antt =====
-- The registry of mbbd/mbbuser.c.
use mbb_devel.Prelude.{zero, suc, ◌/◌, ◌%◌, reverse}
use mbb_devel.Registry.{set_at}
use mbb_devel.Objects.Group.{group_entries}
use mbb_devel.Prelude.{ℕ, ◌+◌, Bool, Option, none, some, List, [], ◌∷◌}
use mbb_devel.Prelude.Tests.{◌==◌, if◌then◌else◌}
use mbb_devel.Registry.{
  self_key, id_key, name_key, Entries, Registry, join, detach, get_by, mod_name, data_link_foreach,
}
use mbb_devel.Objects.Group.{Group, mbb_group_get_by_id, mbb_group_del_user}
use mbb_devel.Prelude.Slists.{slist_has, slist_remove}

-- `struct mbb_user`.
pub record User : Type 0 where
  pub id : ℕ
  pub name : List ℕ
  pub secret : Option (List ℕ)
  pub cap_mask : ℕ
  pub childs : List ℕ

-- `dl_entries`.
abbrev pub user_entries : Entries User
user_entries = (λ x o. self_key x) ∷ (λ x o. id_key o.id) ∷ (λ x o. name_key o.name) ∷ []

unfoldable pub mbb_user_join : ℕ → Registry User → Registry User
mbb_user_join = join user_entries

unfoldable pub mbb_user_get_by_id : ℕ → Registry User → Option ℕ
mbb_user_get_by_id id = get_by user_entries 1 (id_key id)

unfoldable pub mbb_user_get_by_name : List ℕ → Registry User → Option ℕ
mbb_user_get_by_name name = get_by user_entries 2 (name_key name)

unfoldable pub mbb_user_mod_name : ℕ → List ℕ → Registry User → Registry User × Bool
mbb_user_mod_name = mod_name user_entries (λ name obj. record obj { name = name })

-- The objects in the order in which `func` gets them.
unfoldable pub mbb_user_foreach : Registry User → List ℕ
mbb_user_foreach r = data_link_foreach r.dlink

-- The loops over `cap_mask` by its lowest bit; 32 rounds empty a mask of 32 bits.
unfoldable pub mask_bits : ℕ → ℕ → ℕ → List ℕ
mask_bits zero n mask = []
mask_bits (suc fuel) n mask =
    let rest = mask_bits fuel (n + 1) (mask / 2) in
    if mask == 0 then [] else if mask % 2 == 1 then n ∷ rest else rest

-- The registries of the users and of the groups.
pub record Members : Type 0 where
  pub users : Registry User
  pub groups : Registry Group

-- One round of `mbb_user_detach`: the user at `x` leaves the group with id `n`.
unfoldable pub leave_group : ℕ → ℕ → Members → Members
leave_group x n m = elim (mbb_group_get_by_id n m.groups) [
  | none ↦ m
  | some g ↦
      (let user = m.users.heap x in
        let r = mbb_group_del_user (m.groups.heap g) user.id user.cap_mask in
        record {
          users = record m.users {
            heap = set_at user_entries x (record user { cap_mask = r.1 }) m.users.heap;
          };
          groups = record m.groups { heap = set_at group_entries g r.0 m.groups.heap };
        })
]

unfoldable pub leave_groups : ℕ → List ℕ → Members → Members
leave_groups x [] m = m
leave_groups x (n ∷ ns) m = leave_groups x ns (leave_group x n m)

unfoldable pub mbb_user_detach : ℕ → Members → Members
mbb_user_detach x m = elim m.users.dlink [
  | none ↦ m
  | some dl ↦
      (let m' = leave_groups x (mask_bits 32 0 (m.users.heap x).cap_mask) m in
        record m' { users = detach user_entries x m'.users })
]

-- Without `mbb_user_unref`, which frees the user when nothing else refers to it.
unfoldable pub mbb_user_remove : ℕ → Members → Members
mbb_user_remove x m = mbb_user_detach x (record m {
  users = record m.users {
    heap = set_at user_entries x (record (m.users.heap x) { cap_mask = 0 }) m.users.heap;
  };
})

unfoldable pub mbb_user_add_consumer : User → ℕ → User
mbb_user_add_consumer user con =
    if slist_has con user.childs then user else record user { childs = con ∷ user.childs }

unfoldable pub mbb_user_del_consumer : User → ℕ → User
mbb_user_del_consumer user con = record user { childs = slist_remove con user.childs }

unfoldable pub mbb_user_has_consumer : User → ℕ → Bool
mbb_user_has_consumer user con = slist_has con user.childs

unfoldable pub mbb_user_mod_pass : User → Option (List ℕ) → User
mbb_user_mod_pass user newpass = record user { secret = newpass }

-- `g_slist_prepend` of each number of a bit of the mask.
unfoldable pub mbb_user_get_groups : User → List ℕ
mbb_user_get_groups user = reverse (mask_bits 32 0 user.cap_mask)
