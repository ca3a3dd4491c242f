-- ===== src/Slicer.antt =====
-- mbbd/slicer.c and slicer.h: a partition of the keys into slices, each with data or NULL.
-- The queue is the list of the slicer's entries. The GTree beside it maps each entry's slice to
-- its link; GLib's search in that tree is a parameter: `lookup` and `search` return the position
-- of an entry for which the comparison that they are given is 0. The operations on an entry's
-- data may keep a state of their own, `S`. Allocation, `free` and `user_data` are left out.
pub mod Tree
pub mod Partition
pub mod Change
pub mod Sweep
pub mod Apply
pub mod Query
pub mod Glue
pub mod Found
pub mod Content
pub mod Effect
pub mod FirstHit
mod Tests
use mbb_devel.Prelude.{
  ℕ, zero, suc, Bool, true, false, Option, none, some, List, [], ◌∷◌, ◌++◌, not, reverse,
}
use mbb_devel.Prelude.Tests.{if◌then◌else◌}
use mbb_devel.Prelude.Int.{ℤ, pos, is_neg, is_pos, is_zero, succ_ℤ, pred_ℤ}
use mbb_devel.Prelude.Lists.{drop, get_elem?}
use mbb_devel.Slice.{Slice, SliceOps, Parts, begin_end_cmp, slice_cmp, slice_cross, slice_cmp_point}

-- `struct slicer_entry`; NULL data is `none`.
pub record Entry (D : Type 0) : Type 0 where
  pub slice : Slice
  pub content : Option D

-- `struct slicer`, less the tree.
pub record Slicer (D : Type 0) : Type 0 where
  pub queue : List (Entry D)
  pub count : ℤ

-- `struct slice_data_ops`. `add` and `del` may read and write a state that the element carries.
pub record DataOps (S D E : Type 0) : Type 0 where
  pub add : E → Option D → S → Option D × S
  pub del : E → Option D → S → Option D × S
  pub dup : Option D → Option D
  pub is_null : Option D → Bool

-- What the loops of a change pass on: the count and the state of the data operations.
pub record Work (S : Type 0) : Type 0 where
  pub count : ℤ
  pub env : S

module _ {D : Type 0} where
  -- `data != NULL`.
  abbrev pub is_some : Option D → Bool
  is_some none = false
  is_some (some d) = true

  -- The links before position `i`, nearest first: the chain of `prev`.
  pub links_before : ℕ → List (Entry D) → List (Entry D) → List (Entry D)
  links_before zero q acc = acc
  links_before (suc i) [] acc = acc
  links_before (suc i) (e ∷ q) acc = links_before i q (e ∷ acc)

  -- A chain of `prev` links in front of what follows.
  pub join_links : List (Entry D) → List (Entry D) → List (Entry D)
  join_links [] tail = tail
  join_links (e ∷ before) tail = join_links before (e ∷ tail)

-- The position of an entry, as GLib's search in the tree returns it.
abbrev pub Search : Type 0 → Type 0
Search D = (Slice → ℤ) → List (Entry D) → Option ℕ

module _ {S D E : Type 0} (ops : SliceOps) (dops : DataOps S D E) where
  -- The type of `insert_add` and `insert_del`, once they have the element.
  abbrev pub Op : Type 0
  Op = Option D → Slice → Work S → Entry D × Work S

  pub insert_dup : Op
  insert_dup cur slice w =
      let new = dops.dup cur in
      (
        record { slice = slice; content = new },
        record w { count = if is_some new then succ_ℤ w.count else w.count },
      )

  pub insert_add : E → Op
  insert_add elem cur slice w =
      let r = dops.add elem (dops.dup cur) w.env in
      (record { slice = slice; content = r.0 }, record { count = succ_ℤ w.count; env = r.1 })

  pub insert_del : E → Op
  insert_del elem cur slice w =
      let r = dops.del elem (dops.dup cur) w.env in
      (
        record { slice = slice; content = r.0 },
        record { count = if is_some r.0 then succ_ℤ w.count else w.count; env = r.1 },
      )

  -- The part of `slicer_entry_free` that is no deallocation.
  pub entry_free : Entry D → Work S → Work S
  entry_free e w = record w { count = if is_some e.content then pred_ℤ w.count else w.count }

  -- An operation on a part that may be missing.
  pub insert_part : Op → Option D → Option Slice → Work S → List (Entry D) × Work S
  insert_part op cur none w = ([], w)
  insert_part op cur (some slice) w = let r = op cur slice w in (r.0 ∷ [], r.1)

  -- The entries that take the place of `e`, cut into `parts`.
  pub replace_entry : Op → Parts → Entry D → Work S → List (Entry D) × Work S
  replace_entry op parts e w =
      let left = insert_part insert_dup e.content parts.left w in
      let middle = insert_part op e.content parts.middle left.1 in
      let right = insert_part insert_dup e.content parts.right middle.1 in
      (left.0 ++ (middle.0 ++ right.0), entry_free e right.1)

  -- `none` is the result 0: the entry does not meet the slice. Otherwise the entry is replaced.
  pub change_data : Op → Slice → Entry D → Work S → Option (List (Entry D) × Work S)
  change_data op new e w =
      let replaced = replace_entry op (slice_cross ops e.slice new) e w in
      if is_zero (slice_cmp ops e.slice new) then some replaced else none

  -- The first loop of `slicer_apply_change`: along `next` while entries meet the slice.
  pub change_next : Op → Slice → List (Entry D) → Work S → List (Entry D) × Work S
  change_next op new [] w = ([], w)
  change_next op new (e ∷ q) w = elim (change_data op new e w) [
    | none ↦ (e ∷ q, w)
    | some (parts, w') ↦ (let r = change_next op new q w' in (parts ++ r.0, r.1))
  ]

  -- The second loop: along `prev`. `tail` is the queue behind the links, already changed.
  pub change_prev : Op → Slice → List (Entry D) → List (Entry D) → Work S → List (Entry D) × Work S
  change_prev op new [] tail w = (tail, w)
  change_prev op new (e ∷ before) tail w = elim (change_data op new e w) [
    | none ↦ (join_links (e ∷ before) tail, w)
    | some (parts, w') ↦ change_prev op new before (parts ++ tail) w'
  ]

  pub change_at : Op → Slice → ℕ → Slicer D → S → Slicer D × S
  change_at op new i s env =
      let fwd = change_next op new (drop i s.queue) (record { count = s.count; env = env }) in
      let bwd = change_prev op new (links_before i s.queue []) fwd.0 fwd.1 in
      (record { queue = bwd.0; count = bwd.1.count }, bwd.1.env)

  -- `none` is a failed assertion: the tree has no entry that meets the slice.
  pub apply_change : Search D → Op → Slice → Slicer D → S → Option (Slicer D × S)
  apply_change lookup op new s env =
      if is_pos (begin_end_cmp ops new.begin new.end)
      then some (s, env)
      else elim (lookup (λ key. slice_cmp ops new key) s.queue) [
        | none ↦ none
        | some i ↦ some (change_at op new i s env)
      ]

  pub slicer_insert : Search D → E → Slice → Slicer D → S → Option (Slicer D × S)
  slicer_insert lookup elem new = apply_change lookup (insert_add elem) new

  pub slicer_delete : Search D → E → Slice → Slicer D → S → Option (Slicer D × S)
  slicer_delete lookup elem new = apply_change lookup (insert_del elem) new
