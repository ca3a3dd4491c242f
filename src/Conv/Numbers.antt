-- ===== src/Conv/Numbers.antt =====
-- What the conversions of lib/strconv.c and mbbd/varconv.c store.
use mbb_devel.Prelude.{
  ℕ, ◌+◌, ◌-◌, ◌*◌, ◌%◌, ◌^◌, ◌≤◌, ◌<◌, ◌≡◌, ◌↔◌, ◌⊎◌, refl, sym, ap, ◌∙◌, inl, inr, arith, Bool,
  true, false, Option, none, some, [], ◌∷◌, ◌||◌,
}
use mbb_devel.Prelude.Tests.{ltb, ◌==◌, Bool-cases}
use mbb_devel.Prelude.Int.{ℤ, pos, negsuc, signed32, pos_part, neg_part}
use mbb_devel.Prelude.Bits.{bit_or, or_below}
use mbb_devel.Prelude.Text.{Bytes}
use mbb_devel.Prelude.Lists.{All}
use mbb_devel.Variant.{signed}
use mbb_devel.Inet.{Inet}
use mbb_devel.Inet.RoundTrip.{atoinet-inettoa, atoipv4-ipv4toa}
use mbb_devel.Registry.{str_equal}
use mbb_devel.Conv.{
  Read, Conv, converted, refused, no_errno, to_gint, above_gint, str_conv_to_int64,
  str_conv_to_mask, mask_digits, var_conv_int,
}
use mbb_devel.Conv.Values.{
  var_conv_bool, var_str_bool, var_conv_inet, var_str_inet, var_conv_ipv4, var_str_ipv4,
  var_str_int,
}

-- A value that a gint holds, and one that a gint64 holds.
abbrev pub IsGint : ℤ → Type 0
IsGint (pos n) = n < 2 ^ 31
IsGint (negsuc n) = n < 2 ^ 31

above_never : (z : ℤ) → above_gint (to_gint z) ≡ false
above_never (pos n) = ground arith
above_never (negsuc n) = ground arith

signed32_lem :
    (w : ℕ)
    → ((w < 2 ^ 31) × (signed32 w ≡ pos w))
      ⊎ ((2 ^ 31 ≤ w) × (signed32 w ≡ negsuc (2 ^ 32 - w - 1)))
signed32_lem w = elim (Bool-cases (ltb w (2 ^ 31))) [
  | inl s ↦ inl (ground arith, rw s refl)
  | inr s ↦ inr (ground arith, rw s refl)
]

same_iff : (z : ℤ) → (to_gint z ≡ z) ↔ IsGint z
same_iff (pos n) = (fits, (λ h. ground arith))
  where
    fits : to_gint (pos n) ≡ pos n → n < 2 ^ 31
    fits h = elim (signed32_lem (n % 2 ^ 32)) [
      | inl (l, e) ↦ (let k = ap pos_part (sym e ∙ h) in omega arith)
      | inr (l, e) ↦ (let k = ap neg_part (sym e ∙ h) in absurd (omega arith))
    ]
same_iff (negsuc n) = (fits, (λ h. ground arith))
  where
    fits : to_gint (negsuc n) ≡ negsuc n → n < 2 ^ 31
    fits h = elim (signed32_lem (2 ^ 32 - 1 - n % 2 ^ 32)) [
      | inl (l, e) ↦ (let k = ap neg_part (sym e ∙ h) in absurd (omega arith))
      | inr (l, e) ↦ (let k = ap neg_part (sym e ∙ h) in omega arith)
    ]

-- What is stored of a conversion's result.
abbrev pub stored : Conv ℤ → Option ℤ
stored (converted v) = some (to_gint v)
stored (refused e) = none

-- A text is accepted exactly when it is read as a number of 64 bits, whatever the number: what is
-- stored is its low 32 bits, so it is the number itself exactly where that fits a gint.
pub var_conv_int-to_gint :
    (strtoll : Bytes → Read ℤ) (arg : Bytes)
    → (var_conv_int strtoll arg ≡ stored (str_conv_to_int64 strtoll arg))
      × ((v : ℤ) → (to_gint v ≡ v) ↔ IsGint v)
unfolding var_conv_int
var_conv_int-to_gint strtoll arg = (go (str_conv_to_int64 strtoll arg) refl, same_iff)
  where
    go :
        (c : Conv ℤ)
        → str_conv_to_int64 strtoll arg ≡ c
        → var_conv_int strtoll arg ≡ stored (str_conv_to_int64 strtoll arg)
    go (converted v) h = rw (var_conv_int, h, above_never v) refl
    go (refused e) h = rw (var_conv_int, h) refl

-- The number that a text of binary digits writes, after `m`.
abbrev pub binary_value : ℕ → Bytes → ℕ
binary_value m [] = m
binary_value m (c ∷ s) = binary_value (m * 2 + (c - b'0')) s

abbrev pub IsBinary : Bytes → Type 0
IsBinary = All (λ c. (c ≡ b'0') ⊎ (c ≡ b'1'))

binary_mod :
    (a b : ℕ) (s : Bytes)
    → a % 2 ^ 32 ≡ b % 2 ^ 32
    → binary_value a s % 2 ^ 32 ≡ binary_value b s % 2 ^ 32
binary_mod a b [] h = h
binary_mod a b (c ∷ s) h = binary_mod (a * 2 + (c - b'0')) (b * 2 + (c - b'0')) s (omega arith)

or_digit : (m d : ℕ) → d < 2 → bit_or (m * 2 % 2 ^ 32) d ≡ (m * 2 + d) % 2 ^ 32
or_digit m d h =
    let e : m * 2 % 2 ^ 32 ≡ (m % 2 ^ 31) * 2 ^ 1 = omega arith in
    rw e (or_below 1 (m % 2 ^ 31) d (omega arith) ∙ omega arith)

digits-value :
    (m : ℕ) (s : Bytes)
    → m < 2 ^ 32
    → IsBinary s
    → mask_digits m s ≡ converted (binary_value m s % 2 ^ 32)
unfolding mask_digits
digits-value m [] h b = rw (let e : m % 2 ^ 32 ≡ m = omega arith in e) refl
digits-value m (c ∷ s) h (b, bs) =
    let small : c - b'0' < 2 = ground arith in
    let e = or_digit m (c - b'0') small in
    let hit : ((c == b'0') || (c == b'1')) ≡ true = ground arith in
    rw (hit, e)
      (digits-value ((m * 2 + (c - b'0')) % 2 ^ 32) s (omega arith) bs
        ∙ ap converted
            (binary_mod ((m * 2 + (c - b'0')) % 2 ^ 32) (m * 2 + (c - b'0')) s (omega arith)))

-- A text of binary digits is converted to the low 32 bits of the number that it writes.
pub str_conv_to_mask-value :
    (s : Bytes) → IsBinary s → str_conv_to_mask s ≡ converted (binary_value 0 s % 2 ^ 32)
unfolding str_conv_to_mask
str_conv_to_mask-value s b = digits-value 0 s (omega arith) b

-- The conversions read back what the prints of truth values, gints, networks of at most 32 bits
-- and addresses of 32 bits write, when `g_ascii_strtoll` reads the decimal print of the gint.
pub var_conv-var_str :
    (strtoll : Bytes → Read ℤ) (b : Bool) (z : ℤ) (i : Inet) (ip : ℕ)
    → strtoll (signed z) ≡ record { value = z; rest = []; unread = false; errno = no_errno }
    → IsGint z
    → i.addr < 2 ^ 32
    → i.mask ≤ 32
    → ip < 2 ^ 32
    → (var_conv_bool (var_str_bool b) ≡ some b)
      × (var_conv_int strtoll (var_str_int z) ≡ some z)
      × (var_conv_inet (var_str_inet i) ≡ some i)
      × (var_conv_ipv4 (var_str_ipv4 ip) ≡ some ip)
unfolding var_conv_bool var_str_bool str_equal var_conv_inet var_str_inet var_conv_ipv4 var_str_ipv4
    var_str_int str_conv_to_int64
var_conv-var_str strtoll b z i ip reads small h k h' = (
  bools b,
  ints z reads small,
  atoinet-inettoa i h k,
  rw (var_conv_ipv4, atoipv4-ipv4toa ip h') refl,
)
  where
    bools : (b : Bool) → var_conv_bool (var_str_bool b) ≡ some b
    bools true = refl
    bools false = refl

    ints :
        (z : ℤ)
        → strtoll (signed z) ≡ record { value = z; rest = []; unread = false; errno = no_errno }
        → IsGint z
        → var_conv_int strtoll (var_str_int z) ≡ some z
    ints (pos n) r h =
        let e : str_conv_to_int64 strtoll (signed (pos n)) ≡ converted (pos n) =
          rw (str_conv_to_int64, r) (ground arith) in
        (var_conv_int-to_gint strtoll (signed (pos n))).0
        ∙ ap stored e
        ∙ ap some ((same_iff (pos n)).1 h)
    ints (negsuc n) r h =
        let e : str_conv_to_int64 strtoll (signed (negsuc n)) ≡ converted (negsuc n) =
          rw (str_conv_to_int64, r) (ground arith) in
        (var_conv_int-to_gint strtoll (signed (negsuc n))).0
        ∙ ap stored e
        ∙ ap some ((same_iff (negsuc n)).1 h)
