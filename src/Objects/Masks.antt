-- ===== src/Objects/Masks.antt =====
-- The loops over the bits of a capability mask.
use native.Mathlib.Nat.{zero-add, suc-add}
use native.Mathlib.Numerals.{unary_clauses}
use mbb_devel.Prelude.{ℕ, zero, suc, ◌+◌, ◌/◌, ◌^◌, ◌<◌, ◌≡◌, refl, arith, []}
use mbb_devel.Objects.User.{mask_bits}

half_lem : (fuel mask : ℕ) → mask < 2 ^ suc fuel → mask / 2 < 2 ^ fuel
half_lem fuel mask h = omega (arith, simp unary_clauses at h)

bits_of_zero : (k n : ℕ) → mask_bits k n 0 ≡ []
unfolding mask_bits
bits_of_zero zero n = refl
bits_of_zero (suc k) n = refl

-- A mask that is less than 2 to the number of rounds is empty after them: more rounds find the
-- same bits.
pub mask_bits_enough :
    (fuel more n mask : ℕ)
    → mask < 2 ^ fuel
    → mask_bits (fuel + more) n mask ≡ mask_bits fuel n mask
unfolding mask_bits
mask_bits_enough zero more n mask h =
    let empty : mask ≡ 0 = omega arith in rw (empty, zero-add more) (bits_of_zero more n)
mask_bits_enough (suc fuel) more n mask h =
    rw (suc-add fuel more, mask_bits_enough fuel more (n + 1) (mask / 2) (half_lem fuel mask h))
      refl
