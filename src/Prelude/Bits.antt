-- ===== src/Prelude/Bits.antt =====
-- The operators `|` and `&` of the source on words, where one operand is a low mask, the
-- complement of one, or stays below the other's lowest set bit.
use Prim.Native.Nat.{
  ℕ, zero, suc, ◌+◌, ◌-◌, ◌*◌, ◌/◌, ◌%◌, ◌^◌, ◌≤◌, ◌<◌, min, max, digits, bitwise, bit_and-bitwise,
  bit_or-bitwise,
}
use mathlib.Core.Path.{◌≡◌, ◌∙◌, refl, sym, ap}
use native.Mathlib.Nat.{pow-suc}
use native.Mathlib.Omega.{arith}
pub use Prim.Native.Nat.{bit_and, bit_or}

-- The count of rounds does not matter once it covers the first number.
module _ (rest : ℕ → ℕ) (digit : ℕ → ℕ → ℕ) where
  same_digits : (x y k l : ℕ) → x ≤ k → x ≤ l → digits rest digit k x y ≡ digits rest digit l x y
  same_digits zero y zero zero hk hl = refl
  same_digits zero y (suc k) zero hk hl = refl
  same_digits zero y zero (suc l) hk hl = refl
  same_digits zero y (suc k) (suc l) hk hl = refl
  same_digits (suc x) y (suc k) (suc l) hk hl =
      ap (λ t. t * 2 + digit (suc x % 2) (y % 2))
        (same_digits (suc x / 2) (y / 2) k l (omega arith) (omega arith))
  same_digits (suc x) y k zero hk hl = absurd (omega arith)
  same_digits (suc x) y zero l hk hl = absurd (omega arith)

  -- The lowest digit of a positive number stands behind the digits of the halves.
  lowest_digit :
      (x y : ℕ)
      → bitwise rest digit (suc x) y
        ≡ bitwise rest digit (suc x / 2) (y / 2) * 2 + digit (suc x % 2) (y % 2)
  lowest_digit x y =
      ap (λ t. t * 2 + digit (suc x % 2) (y % 2))
        (same_digits (suc x / 2) (y / 2) x (suc x / 2) (omega arith) (omega arith))

or_step : (a b : ℕ) → bit_or a b ≡ bit_or (a / 2) (b / 2) * 2 + max (a % 2) (b % 2)
or_step zero b =
    bit_or-bitwise 0 b
    ∙ omega arith
    ∙ ap (λ t. t * 2 + max (0 % 2) (b % 2)) (sym (bit_or-bitwise 0 (b / 2)))
or_step (suc a) b =
    bit_or-bitwise (suc a) b
    ∙ lowest_digit (λ c. c) max a b
    ∙ ap (λ t. t * 2 + max (suc a % 2) (b % 2)) (sym (bit_or-bitwise (suc a / 2) (b / 2)))

and_step : (a b : ℕ) → bit_and a b ≡ bit_and (a / 2) (b / 2) * 2 + min (a % 2) (b % 2)
and_step zero b = search (bit_and-bitwise 0 b, bit_and-bitwise 0 (b / 2), arith)
and_step (suc a) b =
    bit_and-bitwise (suc a) b
    ∙ lowest_digit (λ c. 0) min a b
    ∙ ap (λ t. t * 2 + min (suc a % 2) (b % 2)) (sym (bit_and-bitwise (suc a / 2) (b / 2)))

pub pow_pos : (k : ℕ) → 0 < 2 ^ k
pow_pos zero = omega arith
pow_pos (suc k) = omega (arith, pow-suc 2 k, pow_pos k)

pub pow_add : (j k : ℕ) → 2 ^ (j + k) ≡ 2 ^ j * 2 ^ k
pow_add zero k = omega (arith, ap (λ (t : ℕ). 2 ^ t) (let e : 0 + k ≡ k = omega arith in e))
pow_add (suc j) k = omega (
  arith,
  pow_add j k,
  ap (λ (t : ℕ). 2 ^ t) (let e : suc j + k ≡ suc (j + k) = omega arith in e),
  pow-suc 2 (j + k),
  ap (λ (t : ℕ). t * 2 ^ k) (pow-suc 2 j),
)

or_double : (u b : ℕ) → bit_or (u * 2) b ≡ bit_or u (b / 2) * 2 + b % 2
or_double u b = omega (
  arith,
  or_step (u * 2) b,
  ap (λ t. bit_or t (b / 2)) (let e : u * 2 / 2 ≡ u = omega arith in e),
)

and_double : (u v r : ℕ) → r < 2 → bit_and (u * 2 + r) (v * 2) ≡ bit_and u v * 2
and_double u v r h = omega (
  arith,
  and_step (u * 2 + r) (v * 2),
  ap (λ t. bit_and t (v * 2 / 2)) (let e : (u * 2 + r) / 2 ≡ u = omega arith in e),
  ap (bit_and u) (let e : v * 2 / 2 ≡ v = omega arith in e),
)

-- x * 2 ^ (k + 1) as a double.
pow_double : (x k : ℕ) → x * 2 ^ suc k ≡ x * 2 ^ k * 2
pow_double x k = omega (arith, ap (λ (t : ℕ). x * t) (pow-suc 2 k))

or_zero : (n a : ℕ) → a ≤ n → bit_or a 0 ≡ a
or_zero n zero h = bit_or-bitwise 0 0
or_zero zero (suc a) h = absurd (omega arith)
or_zero (suc n) (suc a) h = omega (arith, or_step (suc a) 0, or_zero n (suc a / 2) (omega arith))

-- `|` of a multiple of 2 ^ k and a number below 2 ^ k is their sum.
pub or_below : (k x b : ℕ) → b < 2 ^ k → bit_or (x * 2 ^ k) b ≡ x * 2 ^ k + b
or_below zero x zero h = omega (
  arith,
  or_zero x x (omega arith),
  ap (λ t. bit_or t 0) (let e : x * 2 ^ 0 ≡ x = omega arith in e),
)
or_below zero x (suc b) h = absurd (omega arith)
or_below (suc k) x b h = omega (
  arith,
  ap (λ t. bit_or t b) (pow_double x k),
  or_double (x * 2 ^ k) b,
  or_below k x (b / 2) (omega (arith, pow-suc 2 k)),
  pow_double x k,
)

-- `&` with a multiple of 2 ^ k clears the low k bits.
pub and_high : (k q r y : ℕ) → r < 2 ^ k → bit_and (q * 2 ^ k + r) (y * 2 ^ k) ≡ bit_and q y * 2 ^ k
and_high zero q r y h = omega (
  arith,
  ap (λ t. bit_and t (y * 2 ^ 0)) (let e : q * 2 ^ 0 + r ≡ q = omega arith in e),
  ap (bit_and q) (let e : y * 2 ^ 0 ≡ y = omega arith in e),
)
and_high (suc k) q r y h = omega (
  arith,
  ap (λ t. bit_and t (y * 2 ^ suc k)) split,
  ap (bit_and ((q * 2 ^ k + r / 2) * 2 + r % 2)) (pow_double y k),
  and_double (q * 2 ^ k + r / 2) (y * 2 ^ k) (r % 2) (omega arith),
  and_high k q (r / 2) y (omega (arith, pow-suc 2 k)),
  pow_double (bit_and q y) k,
)
  where
    split : q * 2 ^ suc k + r ≡ (q * 2 ^ k + r / 2) * 2 + r % 2
    split = omega (arith, pow_double q k)

-- `&` with k ones leaves a number below 2 ^ k.
pub and_ones : (k q : ℕ) → q < 2 ^ k → bit_and q (2 ^ k - 1) ≡ q
and_ones zero zero h = bit_and-bitwise 0 0
and_ones zero (suc q) h = absurd (omega arith)
and_ones (suc k) q h = omega (
  arith,
  and_step q (2 ^ suc k - 1),
  ap (bit_and (q / 2)) half,
  and_ones k (q / 2) (omega (arith, pow-suc 2 k)),
  pow-suc 2 k,
  pow_pos k,
)
  where
    half : (2 ^ suc k - 1) / 2 ≡ 2 ^ k - 1
    half = omega (arith, pow-suc 2 k, pow_pos k)
