-- ===== src/Objects/Group.antt =====
-- The registry of mbbd/mbbgroup.c.
use Prim.Native.Nat.{bit_or, bit_and}
use mbb_devel.Prelude.{ℕ, ◌-◌, ◌^◌, Bool, true, false, Option, none, some, List, [], ◌∷◌}
use mbb_devel.Prelude.Tests.{◌==◌, if◌then◌else◌}
use mbb_devel.Registry.{
  self_key, id_key, name_key, Entries, Registry, join, detach, get_by, mod_name, data_link_foreach,
}

-- `struct mbb_group`.
pub record Group : Type 0 where
  pub id : ℕ
  pub name : List ℕ
  pub users : Option (List (ℕ × ℕ))

-- `dl_entries`.
abbrev pub group_entries : Entries Group
group_entries = (λ x o. self_key x) ∷ (λ x o. id_key o.id) ∷ (λ x o. name_key o.name) ∷ []

unfoldable pub mbb_group_join : ℕ → Registry Group → Registry Group
mbb_group_join = join group_entries

unfoldable pub mbb_group_detach : ℕ → Registry Group → Registry Group
mbb_group_detach = detach group_entries

unfoldable pub mbb_group_get_by_id : ℕ → Registry Group → Option ℕ
mbb_group_get_by_id id = get_by group_entries 1 (id_key id)

unfoldable pub mbb_group_get_by_name : List ℕ → Registry Group → Option ℕ
mbb_group_get_by_name name = get_by group_entries 2 (name_key name)

unfoldable pub mbb_group_mod_name : ℕ → List ℕ → Registry Group → Registry Group × Bool
mbb_group_mod_name = mod_name group_entries (λ name obj. record obj { name = name })

-- The objects in the order in which `func` gets them.
unfoldable pub mbb_group_foreach : Registry Group → List ℕ
mbb_group_foreach r = data_link_foreach r.dlink

-- `users` has the users by their ids.
unfoldable pub has_key : ℕ → List (ℕ × ℕ) → Bool
has_key k [] = false
has_key k (r ∷ t) = let rest = has_key k t in if r.0 == k then true else rest

unfoldable pub remove_key : ℕ → List (ℕ × ℕ) → List (ℕ × ℕ)
remove_key k [] = []
remove_key k (r ∷ t) = let rest = remove_key k t in if r.0 == k then t else r ∷ rest

unfoldable pub mbb_group_has_user : Group → ℕ → Bool
mbb_group_has_user group user_id = elim group.users [ none ↦ false | some t ↦ has_key user_id t ]

-- `1 << group->id`, for the ids of groups, which are the numbers of capabilities.
abbrev pub cap_bit : ℕ → ℕ
cap_bit id = 2 ^ id

-- The user at address `x`, with its id and its `cap_mask`; the new mask is returned.
unfoldable pub mbb_group_add_user : Group → ℕ → ℕ → ℕ → Group × ℕ
mbb_group_add_user group x user_id cap_mask = elim group.users [
  | none ↦ (record group { users = some ((user_id, x) ∷ []) }, bit_or cap_mask (cap_bit group.id))
  | some t ↦
      if has_key user_id t
      then (group, cap_mask)
      else (record group { users = some ((user_id, x) ∷ t) }, bit_or cap_mask (cap_bit group.id))
]

-- `~ (mbb_cap_t) (1 << group->id)` on 32 bits.
unfoldable pub mbb_group_del_user : Group → ℕ → ℕ → Group × ℕ
mbb_group_del_user group user_id cap_mask = elim group.users [
  | none ↦ (group, cap_mask)
  | some t ↦
      if has_key user_id t
      then (
        record group { users = some (remove_key user_id t) },
        bit_and cap_mask (2 ^ 32 - 1 - cap_bit group.id),
      )
      else (group, cap_mask)
]
