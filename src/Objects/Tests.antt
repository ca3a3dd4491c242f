-- ===== src/Objects/Tests.antt =====
-- A group 4 with one user, whose id is 7.
use mbb_devel.Prelude.{none, ◌≡◌, some, [], ◌∷◌}
use mbb_devel.Registry.{self_key, id_key, name_key}
use mbb_devel.Objects.User.{Members, mbb_user_remove}
use mbb_devel.Objects.Removal.{mbb_user_remove-groups}

abbrev one_member : Members
one_member = record {
  users = record {
    heap = λ x. record { id = 7; name = 97 ∷ []; secret = none; cap_mask = 16; childs = [] };
    dlink =
        some (((self_key 1, 1) ∷ []) ∷ ((id_key 7, 1) ∷ []) ∷ ((name_key (97 ∷ []), 1) ∷ []) ∷ []);
  };
  groups = record {
    heap = λ x. record { id = 4; name = 98 ∷ []; users = some ((7, 1) ∷ []) };
    dlink =
        some (((self_key 2, 2) ∷ []) ∷ ((id_key 4, 2) ∷ []) ∷ ((name_key (98 ∷ []), 2) ∷ []) ∷ []);
  };
}

mbb_user_remove-groups_example : (mbb_user_remove 1 one_member).groups ≡ one_member.groups
mbb_user_remove-groups_example = mbb_user_remove-groups 1 one_member
