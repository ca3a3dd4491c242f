-- ===== src/Slice.antt =====
-- The slices of mbbd/slicer.c and slicer.h: closed ranges of keys behind an interface of key
-- operations. A key is a pointer value; NULL is 0 and leaves a side of a slice open.
-- `free` is left out of the interface, as all memory management is.
pub mod Laws
pub mod Keys
mod Tests
use mbb_devel.Prelude.{ℕ, Bool, true, false, ◌&&◌, ◌||◌, Option, none, some, not}
use mbb_devel.Prelude.Tests.{◌==◌, if◌then◌else◌}
use mbb_devel.Prelude.Int.{ℤ, pos, minus_one, is_neg, is_pos, is_zero}

-- `struct slice`.
pub record Slice : Type 0 where
  pub begin : ℕ
  pub end : ℕ

-- `struct slice_ops`.
pub record SliceOps : Type 0 where
  pub cmp : ℕ → ℕ → ℤ
  pub dup : ℕ → ℕ
  pub inc : ℕ → ℕ
  pub dec : ℕ → ℕ

abbrev pub is_null : ℕ → Bool
is_null p = p == 0

pub slicer_dup_dummy : ℕ → ℕ
slicer_dup_dummy p = p

-- What `slice_cross` writes: each part is there or NULL.
pub record Parts : Type 0 where
  pub left : Option Slice
  pub middle : Option Slice
  pub right : Option Slice

module _ (ops : SliceOps) where
  pub begin_end_cmp : ℕ → ℕ → ℤ
  begin_end_cmp b e = if is_null b || is_null e then minus_one else ops.cmp b e

  pub end_begin_cmp : ℕ → ℕ → ℤ
  end_begin_cmp e b = if is_null e || is_null b then pos 1 else ops.cmp e b

  pub begin_begin_cmp : ℕ → ℕ → ℤ
  begin_begin_cmp b1 b2 =
      if is_null b1 && is_null b2
      then pos 0
      else if is_null b1
      then minus_one
      else if is_null b2
      then pos 1
      else ops.cmp b1 b2

  pub end_end_cmp : ℕ → ℕ → ℤ
  end_end_cmp e1 e2 =
      if is_null e1 && is_null e2
      then pos 0
      else if is_null e1
      then pos 1
      else if is_null e2
      then minus_one
      else ops.cmp e1 e2

  pub slice_cmp : Slice → Slice → ℤ
  slice_cmp a b =
      if is_neg (end_begin_cmp a.end b.begin)
      then minus_one
      else if is_pos (begin_end_cmp a.begin b.end)
      then pos 1
      else pos 0

  pub slice_cmp_point : Slice → ℕ → ℤ
  slice_cmp_point s point =
      if not (is_null s.begin) && is_neg (ops.cmp point s.begin)
      then pos 1
      else if not (is_null s.end) && is_neg (ops.cmp s.end point)
      then minus_one
      else pos 0

  -- The part of `a` below `b`, where `b` begins later.
  pub cross_left : Slice → Slice → Option Slice
  cross_left a b =
      if is_neg (begin_begin_cmp a.begin b.begin)
      then some (record { begin = ops.dup a.begin; end = ops.dec (ops.dup b.begin) })
      else none

  -- The part of `a` above `b`, where `b` ends earlier.
  pub cross_right : Slice → Slice → Option Slice
  cross_right a b =
      if is_neg (end_end_cmp b.end a.end)
      then some (record { begin = ops.inc (ops.dup b.end); end = ops.dup a.end })
      else none

  pub cross_middle : Slice → Slice → Slice
  cross_middle a b =
      let begin = if is_neg (begin_begin_cmp a.begin b.begin) then b.begin else a.begin in
      let end = if is_neg (end_end_cmp b.end a.end) then b.end else a.end in
      record { begin = ops.dup begin; end = ops.dup end }

  pub slice_cross : Slice → Slice → Parts
  slice_cross a b =
      if is_zero (slice_cmp a b)
      then record {
        left = cross_left a b;
        middle = some (cross_middle a b);
        right = cross_right a b;
      }
      else record { left = none; middle = none; right = none }
