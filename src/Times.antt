-- ===== src/Times.antt =====
-- mbbd/mbbtime.c and mbbtime.h: bounds of time intervals. A `time_t` is an integer; 0 as the
-- start of an interval means no lower bound, 0 as its end no upper bound, and -1 (any negative
-- value in `test_order`) means that the bound is taken from the parent.
pub mod Bounds
pub mod Interval
use mbb_devel.Prelude.{ℕ, zero, Bool, true, false, Option, none, some, ◌&&◌, ◌||◌}
use mbb_devel.Prelude.Tests.{if◌then◌else◌}
use mbb_devel.Prelude.Int.{ℤ, pos, negsuc, ltb_ℤ, is_neg, is_pos, minus_one}

-- `t == 0`.
abbrev pub is_null : ℤ → Bool
is_null (pos zero) = true
is_null _ = false

-- MBB_TIME_PARENT.
abbrev pub time_parent : ℤ
time_parent = negsuc 0

-- `t == MBB_TIME_PARENT`.
abbrev pub is_parent : ℤ → Bool
is_parent (negsuc zero) = true
is_parent _ = false

unfoldable pub timecmp : ℤ → ℤ → ℤ
timecmp a b = if ltb_ℤ a b then minus_one else if ltb_ℤ b a then pos 1 else pos 0

unfoldable pub mbb_time_becmp : ℤ → ℤ → ℤ
mbb_time_becmp ta tb = if is_null ta || is_null tb then minus_one else timecmp ta tb

unfoldable pub mbb_time_pbecmp : ℤ → ℤ → ℤ → ℤ → ℤ
mbb_time_pbecmp ta tb pta ptb =
    let ta' = if is_parent ta then pta else ta in
    let tb' = if is_parent tb then ptb else tb in mbb_time_becmp ta' tb'

unfoldable pub mbb_time_ebcmp : ℤ → ℤ → ℤ
mbb_time_ebcmp ta tb = if is_null ta || is_null tb then pos 1 else timecmp ta tb

pub mbb_time_bbcmp : ℤ → ℤ → ℤ
mbb_time_bbcmp ta tb =
    if is_null ta && is_null tb
    then pos 0
    else if is_null ta
    then minus_one
    else if is_null tb
    then pos 1
    else timecmp ta tb

pub mbb_time_eecmp : ℤ → ℤ → ℤ
mbb_time_eecmp ta tb =
    if is_null ta && is_null tb
    then pos 0
    else if is_null ta
    then pos 1
    else if is_null tb
    then minus_one
    else timecmp ta tb

pub mbb_time_bmin : ℤ → ℤ → ℤ
mbb_time_bmin ta tb = if is_neg (mbb_time_bbcmp ta tb) then ta else tb

pub mbb_time_bmax : ℤ → ℤ → ℤ
mbb_time_bmax ta tb = if is_pos (mbb_time_bbcmp ta tb) then ta else tb

pub mbb_time_emin : ℤ → ℤ → ℤ
mbb_time_emin ta tb = if is_neg (mbb_time_eecmp ta tb) then ta else tb

pub mbb_time_emax : ℤ → ℤ → ℤ
mbb_time_emax ta tb = if is_pos (mbb_time_eecmp ta tb) then ta else tb

unfoldable pub mbb_time_rcmp : ℤ → ℤ → ℤ → ℤ
mbb_time_rcmp t ta tb =
    if is_neg (mbb_time_ebcmp t ta)
    then minus_one
    else if is_pos (mbb_time_becmp t tb)
    then pos 1
    else pos 0

-- The messages of `mbb_time_test_order`.
pub data OrderError : Type 0 where
  pstart_more_end pend_less_start invalid_time_order : OrderError

-- NULL, which means that the order is fine, is `none`.
pub mbb_time_test_order : ℤ → ℤ → ℤ → ℤ → Option OrderError
mbb_time_test_order a b pa pb =
    if is_neg a && is_neg b
    then none
    else if is_neg a
    then if is_pos (mbb_time_becmp pa b) then some pstart_more_end else none
    else if is_neg b
    then if is_pos (mbb_time_becmp a pb) then some pend_less_start else none
    else if is_pos (mbb_time_becmp a b)
    then some invalid_time_order
    else none
