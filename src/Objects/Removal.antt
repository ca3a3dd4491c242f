-- ===== src/Objects/Removal.antt =====
-- `mbb_user_remove` and the members of the groups.
use mbb_devel.Prelude.{ℕ, ◌≡◌, refl}
use mbb_devel.Prelude.{inl, inr}
use mbb_devel.Prelude.Tests.{Option-cases, ==-refl}
use mbb_devel.Registry.{set_at}
use mbb_devel.Objects.User.{
  Members, user_entries, mask_bits, leave_groups, mbb_user_detach, mbb_user_remove,
}

-- A user whose mask is 0 leaves no group when it is detached.
detach-groups :
    (x : ℕ) (m : Members) → (m.users.heap x).cap_mask ≡ 0 → (mbb_user_detach x m).groups ≡ m.groups
unfolding mbb_user_detach mask_bits leave_groups
detach-groups x m h = elim (Option-cases m.users.dlink) [
  | inl null ↦ rw null refl
  | inr (dl, set) ↦ rw (set, h) refl
]

-- Removing a user leaves the groups as they were: each of them still has the user.
pub mbb_user_remove-groups : (x : ℕ) (m : Members) → (mbb_user_remove x m).groups ≡ m.groups
unfolding mbb_user_remove set_at
mbb_user_remove-groups x m =
    detach-groups x
      (record m {
        users = record m.users {
          heap = set_at user_entries x (record (m.users.heap x) { cap_mask = 0 }) m.users.heap;
        };
      })
      (rw (==-refl x) refl)
