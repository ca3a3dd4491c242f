-- ===== src/Slice/Keys/Instances.antt =====
-- The address keys and the time keys meet the laws up to their limits, and what happens beyond.
use mbb_devel.Prelude.{ℕ, ◌+◌, ◌^◌, ◌≤◌, ◌<◌, ◌≡◌, refl, arith, ◌↔◌, true}
use mbb_devel.Prelude.Tests.{ltb}
use mbb_devel.Prelude.Int.{pos, is_neg, is_pos}
use mbb_devel.Inet.{ipv4_max}
use mbb_devel.Slice.{slicer_dup_dummy}
use mbb_devel.Slice.Keys.{
  inet_ops, inet_cmp, inet_inc, inet_dec, time_ops, time_cmp, time_inc, time_dec,
}
use mbb_devel.Slice.Laws.{KeyLaws}

-- Address keys are ordered, and have neighbours, up to the last address.
pub inet_laws : KeyLaws inet_ops ipv4_max
unfolding inet_ops inet_cmp inet_inc inet_dec slicer_dup_dummy
inet_laws = record {
  cmp_neg = λ a b h k. ground arith;
  cmp_pos = λ a b h k. ground arith;
  dup_same = λ a. refl;
  inc_next = λ a h. ground arith;
  dec_prev = λ a h k. ground arith;
}

-- The last time for which every difference fits a gint.
abbrev pub time_max : ℕ
time_max = 0x7fff_ffff

pub time_laws : KeyLaws time_ops time_max
unfolding time_ops time_cmp time_inc time_dec slicer_dup_dummy
time_laws = record {
  cmp_neg = λ a b h k. ground arith;
  cmp_pos = λ a b h k. ground arith;
  dup_same = λ a. refl;
  inc_next = λ a h. ground arith;
  dec_prev = λ a h k. ground arith;
}

-- `time_cmp` orders two times that are less than 2 ^ 31 seconds apart.
time_cmp_near :
    (a b : ℕ)
    → a < 2 ^ 63
    → b < 2 ^ 63
    → a < b + 2 ^ 31
    → b < a + 2 ^ 31
    → (is_neg (time_cmp a b) ≡ ltb a b) × (is_pos (time_cmp a b) ≡ ltb b a)
unfolding time_cmp
time_cmp_near a b h k near near' = (ground arith, ground arith)

-- `time_cmp` takes the later of two times for the earlier one when they are at least 2 ^ 31 and less
-- than 2 ^ 32 seconds apart: the difference does not fit the gint that it returns.
time_cmp_far :
    (a b : ℕ) → a < 2 ^ 63 → b + 2 ^ 31 ≤ a → a < b + 2 ^ 32 → is_neg (time_cmp a b) ≡ true
unfolding time_cmp
time_cmp_far a b h far close = ground arith

-- A difference of 1 means adjacent times.
pub time_cmp_one : (a b : ℕ) → a ≤ time_max → b ≤ time_max → (time_cmp b a ≡ pos 1) ↔ (b ≡ a + 1)
unfolding time_cmp
time_cmp_one a b h k = (λ e. ground arith, λ e. ground arith)

-- For addresses a result of 1 only means "greater".
pub inet_cmp_one : (a b : ℕ) → a ≤ ipv4_max → b ≤ ipv4_max → (inet_cmp b a ≡ pos 1) ↔ (a < b)
unfolding inet_cmp
inet_cmp_one a b h k = (λ e. ground arith, λ e. ground arith)

pub inet_ops_one : (a b : ℕ) → a < b → b ≤ ipv4_max → inet_ops.cmp b a ≡ pos 1
unfolding inet_ops inet_cmp
inet_ops_one a b h k = ground arith
