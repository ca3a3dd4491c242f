-- ===== src/Range/Network.antt =====
-- The range of a network: all addresses with its prefix.
use mbb_devel.Prelude.{
  ℕ, zero, suc, ◌+◌, ◌-◌, ◌*◌, ◌/◌, ◌%◌, ◌^◌, ◌≤◌, ◌<◌, ◌≡◌, refl, ap, sym, ◌∙◌, Bool, true, arith,
  ◌↔◌, ◌&&◌, inl, inr,
}
use native.Mathlib.Nat.{div-add-mod', mod-lt, div-eq_of_lt-le}
use mbb_devel.Prelude.Tests.{leb, ◌==◌, ==_iff, Bool-cases, leb→le}
use mbb_devel.Prelude.Int.{pos}
use mbb_devel.Prelude.Bits.{bit_and, or_below, and_high, and_ones, pow_add, pow_pos}
use mbb_devel.Inet.{Inet}
use mbb_devel.Range.{range_new, range_new_uno, inet2range, range_ipcmp}

-- A test that holds at each of the first `n` numbers; every mask is checked by evaluation.
holds_until : (ℕ → Bool) → ℕ → Bool
holds_until test zero = true
holds_until test (suc n) = holds_until test n && test n

holds_at : (test : ℕ → Bool) (n m : ℕ) → m < n → holds_until test n ≡ true → test m ≡ true
unfolding holds_until
holds_at test zero m below all = elim below [ ]
holds_at test (suc n) m below all = elim (Bool-cases (m == n)) [
  | inl last ↦ rw ((==_iff m n).0 last) (ground arith)
  | inr earlier ↦ holds_at test n m (ground arith) (ground arith)
]

shifted_ones : holds_until (λ m. 0xffffffff / 2 ^ m == 2 ^ (32 - m) - 1) 33 ≡ true
unfolding holds_until
shifted_ones = refl

host_bits : (m : ℕ) → m ≤ 32 → 0xffffffff / 2 ^ m ≡ 2 ^ (32 - m) - 1
host_bits m h = (==_iff _ _).0 (holds_at _ 33 m (omega arith) shifted_ones)

-- The number of addresses of a network with this mask.
abbrev pub block : ℕ → ℕ
block m = 2 ^ (32 - m)

net_split : (m : ℕ) → m ≤ 32 → 2 ^ m * block m ≡ 2 ^ 32
net_split m h = sym (pow_add m (32 - m)) ∙ ap (λ (t : ℕ). 2 ^ t) {y = 32} (omega arith)

sub_one_mul : (m p : ℕ) → 0 < m → (m - 1) * p + p ≡ m * p
sub_one_mul zero p h = absurd (omega arith)
sub_one_mul (suc m) p h = grind arith

prefix_lt : (a m : ℕ) → a < 2 ^ 32 → m ≤ 32 → a / block m < 2 ^ m
prefix_lt a m h k = grind (arith, net_split m k, pow_pos (32 - m))

clear_host :
    (a m : ℕ)
    → a < 2 ^ 32
    → m ≤ 32
    → bit_and a (0xffffffff - 0xffffffff / 2 ^ m) ≡ a / block m * block m
clear_host a m h k =
    ap (λ t. bit_and t (0xffffffff - 0xffffffff / 2 ^ m)) split
    ∙ ap (bit_and (a / block m * block m + a % block m)) high_mask
    ∙ and_high (32 - m) (a / block m) (a % block m) (2 ^ m - 1) (mod-lt a (pow_pos (32 - m)))
    ∙ ap (λ t. t * block m) (and_ones m (a / block m) (prefix_lt a m h k))
  where
    split : a ≡ a / block m * block m + a % block m
    split = sym (div-add-mod' a (block m))

    high_mask : 0xffffffff - 0xffffffff / 2 ^ m ≡ (2 ^ m - 1) * block m
    high_mask = omega (
      arith,
      host_bits m k,
      net_split m k,
      pow_pos (32 - m),
      sub_one_mul (2 ^ m) (block m) (pow_pos m),
    )

-- The range of a network is the block of its prefix: it begins at the address with the host bits
-- cleared and has 2 ^ (32 - mask) addresses.
pub inet2range-block :
    (i : Inet)
    → i.addr < 2 ^ 32
    → i.mask ≤ 32
    → inet2range i
      ≡ range_new
          (i.addr / block i.mask * block i.mask)
          (i.addr / block i.mask * block i.mask + (block i.mask - 1))
unfolding inet2range range_new range_new_uno
inet2range-block i h k = elim (Bool-cases (leb 32 i.mask)) [
  | inl full ↦
      let e : i.mask ≡ 32 = omega (arith, leb→le 32 i.mask full) in rw full (rw e (ground arith))
  | inr net ↦
      rw (net, clear_host i.addr i.mask h k, host_bits i.mask k)
        (rw (
          or_below (32 - i.mask) (i.addr / block i.mask) (block i.mask - 1)
            (omega (arith, pow_pos (32 - i.mask)))))
]

in_block : (q p ip : ℕ) → 0 < p → (q * p ≤ ip) × (ip ≤ q * p + (p - 1)) → ip / p ≡ q
in_block q p ip h (lo, hi) = div-eq_of_lt-le p lo (grind arith)

block_in : (q p ip : ℕ) → 0 < p → ip / p ≡ q → (q * p ≤ ip) × (ip ≤ q * p + (p - 1))
block_in q p ip h e =
    rw (← e)
      (omega (arith, div-add-mod' ip p, mod-lt ip h), omega (arith, div-add-mod' ip p, mod-lt ip h))

range_ipcmp_zero :
    (lo hi ip : ℕ) → (range_ipcmp (range_new lo hi) ip ≡ pos 0) ↔ ((lo ≤ ip) × (ip ≤ hi))
unfolding range_ipcmp range_new
range_ipcmp_zero lo hi ip = (λ h. ground arith, λ h. ground arith)

-- An address lies in the range of a network exactly when it has the network's prefix, for a
-- network with a 32-bit address and a mask of at most 32 bits.
pub inet2range-range_ipcmp :
    (i : Inet) (ip : ℕ)
    → i.addr < 2 ^ 32
    → i.mask ≤ 32
    → (range_ipcmp (inet2range i) ip ≡ pos 0) ↔ (ip / block i.mask ≡ i.addr / block i.mask)
inet2range-range_ipcmp i ip h k = (inside, covered)
  where
    inside : range_ipcmp (inet2range i) ip ≡ pos 0 → ip / block i.mask ≡ i.addr / block i.mask
    inside e =
        in_block (i.addr / block i.mask) (block i.mask) ip (pow_pos (32 - i.mask))
          ((range_ipcmp_zero _ _ ip).0 (rw (inet2range-block i h k) at e))

    covered : ip / block i.mask ≡ i.addr / block i.mask → range_ipcmp (inet2range i) ip ≡ pos 0
    covered e =
        rw (inet2range-block i h k)
          ((range_ipcmp_zero _ _ ip).1 (block_in _ (block i.mask) ip (pow_pos (32 - i.mask)) e))

-- The range of a network with a 32-bit address and a mask of at most 32 bits holds its own
-- address and stays within 32 bits.
pub inet2range_bounds :
    (i : Inet)
    → i.addr < 2 ^ 32
    → i.mask ≤ 32
    → ((inet2range i).r_min ≤ i.addr)
      × (i.addr ≤ (inet2range i).r_max)
      × ((inet2range i).r_max < 2 ^ 32)
unfolding range_new
inet2range_bounds i h k =
    let (lo, hi) =
      block_in (i.addr / block i.mask) (block i.mask) i.addr (pow_pos (32 - i.mask)) refl in
    rw (inet2range-block i h k) (lo, hi, top)
  where
    top : i.addr / block i.mask * block i.mask + (block i.mask - 1) < 2 ^ 32
    top = grind (arith, net_split i.mask k, prefix_lt i.addr i.mask h k, pow_pos (32 - i.mask))
