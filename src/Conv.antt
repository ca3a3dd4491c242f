-- ===== src/Conv.antt =====
-- lib/strconv.c and mbbd/varconv.c: conversions of texts to the values of variables and of XML
-- attributes, and back. `g_ascii_strtoll` and `g_ascii_strtoull`, strptime, mktime and the clock,
-- and GLib's tests of characters and dates are parameters. The value behind the pointer is
-- returned; FALSE is `none`. Copies of texts are the texts.
pub mod Values
pub mod Numbers
mod Tests
use mbb_devel.Prelude.{
  ℕ, suc, ◌+◌, ◌-◌, ◌*◌, ◌%◌, ◌^◌, Bool, true, false, Option, none, some, List, [], ◌∷◌, ◌&&◌, ◌||◌,
  not,
}
use mbb_devel.Prelude.Tests.{ltb, leb, ◌==◌, if◌then◌else◌}
use mbb_devel.Prelude.Int.{ℤ, pos, negsuc, is_zero, signed32, ltb_ℤ}
use mbb_devel.Prelude.Bits.{bit_or}
use mbb_devel.Prelude.Text.{Bytes, peek, is_digit}

-- `errno` after a call.
pub data Errno : Type 0 where
  no_errno : Errno
  erange : Errno
  einval : Errno

-- What a conversion of GLib leaves: its value, `*endptr`, whether `endptr == str`, and `errno`.
pub record Read (A : Type 0) : Type 0 where
  pub value : A
  pub rest : Bytes
  pub unread : Bool
  pub errno : Errno

-- STR_CONV_ERROR_*, without the message.
pub data ConvError : Type 0 where
  overflow : ConvError
  invalid_base : ConvError
  fail : ConvError
  extra_symbols : ConvError

-- A value, or the error set.
pub data Conv (A : Type 0) : Type 0 where
  converted : A → Conv A
  refused : ConvError → Conv A

abbrev is_erange : Errno → Bool
is_erange erange = true
is_erange _ = false

abbrev is_einval : Errno → Bool
is_einval einval = true
is_einval _ = false

-- G_MAXINT64 and G_MININT64, and G_MAXUINT64.
abbrev is_limit : ℤ → Bool
is_limit (pos n) = n == 2 ^ 63 - 1
is_limit (negsuc n) = n == 2 ^ 63 - 1

-- The tests behind the one of the range.
abbrev checked : {A : Type 0} → Read A → Bool → Conv A
checked r zero_value =
    if zero_value && is_einval r.errno
    then refused invalid_base
    else if zero_value && r.unread
    then refused fail
    else if not (peek r.rest == 0)
    then refused extra_symbols
    else converted r.value

unfoldable pub str_conv_to_int64 : (Bytes → Read ℤ) → Bytes → Conv ℤ
str_conv_to_int64 strtoll str =
    let r = strtoll str in
    if is_limit r.value && is_erange r.errno then refused overflow else checked r (is_zero r.value)

unfoldable pub str_conv_to_uint64 : (Bytes → Read ℕ) → Bytes → Conv ℕ
str_conv_to_uint64 strtoull str =
    let r = strtoull str in
    if not (is_digit (peek str))
    then refused fail
    else if (r.value == 2 ^ 64 - 1) && is_erange r.errno
    then refused overflow
    else checked r (r.value == 0)

-- The loop of `str_conv_to_mask`. `mask |= digit` with `mask` even and `digit` 0 or 1.
unfoldable pub mask_digits : ℕ → Bytes → Conv ℕ
mask_digits mask [] = converted mask
mask_digits mask (c ∷ s) =
    let rest = mask_digits (bit_or (mask * 2 % 2 ^ 32) (c - b'0')) s in
    if (c == b'0') || (c == b'1') then rest else refused fail

unfoldable pub str_conv_to_mask : Bytes → Conv ℕ
str_conv_to_mask str = mask_digits 0 str

-- The conversion of a guint64 or gint64 to a gint: the low 32 bits.
abbrev pub to_gint : ℤ → ℤ
to_gint (pos n) = signed32 (n % 2 ^ 32)
to_gint (negsuc n) = signed32 (2 ^ 32 - 1 - n % 2 ^ 32)

-- G_MAXINT, G_MININT, G_MAXUINT and G_MAXLONG.
abbrev pub above_gint : ℤ → Bool
above_gint z = ltb_ℤ (pos 0x7fff_ffff) z || ltb_ℤ z (negsuc 0x7fff_ffff)

-- `val` is a gint already when it is compared with the limits.
unfoldable pub var_conv_int : (Bytes → Read ℤ) → Bytes → Option ℤ
var_conv_int strtoll arg = elim (str_conv_to_int64 strtoll arg) [
  | refused e ↦ none
  | converted v ↦ (let val = to_gint v in if above_gint val then none else some val)
]

-- `val` is a guint already.
unfoldable pub var_conv_uint : (Bytes → Read ℕ) → Bytes → Option ℕ
var_conv_uint strtoull arg = elim (str_conv_to_uint64 strtoull arg) [
  | refused e ↦ none
  | converted v ↦ (let val = v % 2 ^ 32 in if ltb 0xffff_ffff val then none else some val)
]

unfoldable pub var_conv_utime : (Bytes → Read ℕ) → Bytes → Option ℕ
var_conv_utime strtoull arg = elim (str_conv_to_uint64 strtoull arg) [
  | refused e ↦ none
  | converted v ↦ if ltb (2 ^ 63 - 1) v then none else some v
]
