-- ===== src/Separator.antt =====
-- mbbd/separator.c: the entries of a pool of networks, ordered by `nice` and then by `flag`.
-- The heap has the fields of the entries that `entry_cmp` reads.
pub mod Order
mod Tests
use mbb_devel.Prelude.{ℕ, ◌-◌, ◌+◌, ◌%◌, ◌^◌, Bool, true, false, List, [], ◌∷◌, ◌++◌}
use mbb_devel.Prelude.Tests.{◌==◌, if◌then◌else◌}
use mbb_devel.Prelude.Int.{ℤ, pos, signed32, is_neg, is_zero}
use mbb_devel.Prelude.Lists.{length}
use mbb_devel.Prelude.Slists.{slist_has, slist_remove}

-- The members of `struct mbb_inet_pool_entry` that the order reads: a guint and a gboolean.
pub record PoolEntry : Type 0 where
  pub nice : ℕ
  pub flag : ℕ

-- `(gint) a - (gint) b`, with the wrap of 32 bits that compilers give it.
abbrev pub int_sub : ℕ → ℕ → ℤ
int_sub a b = signed32 ((a + (2 ^ 32 - b % 2 ^ 32)) % 2 ^ 32)

pub entry_cmp : PoolEntry → PoolEntry → ℤ
entry_cmp e1 e2 =
    let d = int_sub e1.nice e2.nice in if is_zero d then int_sub e2.flag e1.flag else d

module _ (heap : ℕ → PoolEntry) where
  pub separator_add : List ℕ → ℕ → List ℕ
  separator_add [] entry = entry ∷ []
  separator_add (x ∷ sep) entry =
      let rest = separator_add sep entry in
      if is_neg (entry_cmp (heap entry) (heap x)) then entry ∷ x ∷ sep else x ∷ rest

-- g_queue_remove takes out the first occurrence.
pub separator_del : List ℕ → ℕ → List ℕ
separator_del sep entry = slist_remove entry sep

pub separator_has : List ℕ → ℕ → Bool
separator_has sep entry = slist_has entry sep

unfoldable pub separator_count : List ℕ → ℕ
separator_count sep = length sep

-- The entries of `src` without `excl`, pushed at the head of `dst` from the last one on.
pub separator_copy : List ℕ → List ℕ → ℕ → List ℕ
separator_copy dst [] excl = dst
separator_copy dst (x ∷ src) excl =
    let rest = separator_copy dst src excl in if x == excl then rest else x ∷ rest

-- `dst` after the move.
pub separator_move : List ℕ → List ℕ → List ℕ
separator_move dst src = src

pub separator_clear : List ℕ → List ℕ
separator_clear sep = []

module _ (heap : ℕ → PoolEntry) where
  -- mbbd/mbbunit.c: the entry is taken out and put in again after a change of its `nice`.
  pub mbb_unit_sep_reorder : List ℕ → ℕ → List ℕ
  mbb_unit_sep_reorder sep entry = separator_add heap (separator_del sep entry) entry
