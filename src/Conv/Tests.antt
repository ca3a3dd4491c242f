-- ===== src/Conv/Tests.antt =====
-- Conversions at some texts, with a reader of unsigned decimal numbers for `g_ascii_strtoll`.
use mbb_devel.Prelude.{
  ℕ, ◌+◌, ◌-◌, ◌*◌, ◌%◌, ◌^◌, ◌≡◌, ◌↔◌, refl, arith, inl, inr, Bool, true, false, some, [], ◌∷◌,
}
use mbb_devel.Prelude.Tests.{if◌then◌else◌}
use mbb_devel.Prelude.Int.{ℤ, pos}
use mbb_devel.Prelude.Text.{Bytes, codes, is_digit, decimal_long}
use mbb_devel.Inet.{Inet}
use mbb_devel.Variant.{signed}
use mbb_devel.Conv.{
  Read, no_errno, converted, to_gint, str_conv_to_int64, str_conv_to_mask, var_conv_int,
}
use mbb_devel.Conv.Values.{
  var_conv_bool, var_str_bool, var_conv_inet, var_str_inet, var_conv_ipv4, var_str_ipv4,
  var_str_int,
}
use mbb_devel.Conv.Numbers.{
  IsGint, stored, binary_value, var_conv_int-to_gint, str_conv_to_mask-value, var_conv-var_str,
}

abbrev read_digits : ℕ → Bool → Bytes → Read ℤ
read_digits n unread [] = record { value = pos n; rest = []; unread = unread; errno = no_errno }
read_digits n unread (c ∷ s) =
    let more = read_digits (n * 10 + (c - b'0')) false s in
    if is_digit c
    then more
    else record { value = pos n; rest = c ∷ s; unread = unread; errno = no_errno }

abbrev strtoll : Bytes → Read ℤ
strtoll = read_digits 0 true

-- 4294967303 is stored as 7.
var_conv_int_wraps : var_conv_int strtoll (codes "4294967303") ≡ some (pos 7)
unfolding var_conv_int str_conv_to_int64
var_conv_int_wraps = refl

var_conv_int-to_gint_example :
    (var_conv_int strtoll (codes "4294967303")
      ≡ stored (str_conv_to_int64 strtoll (codes "4294967303")))
    × ((v : ℤ) → (to_gint v ≡ v) ↔ IsGint v)
var_conv_int-to_gint_example = var_conv_int-to_gint strtoll (codes "4294967303")

str_conv_to_mask-value_example :
    str_conv_to_mask (codes "1011") ≡ converted (binary_value 0 (codes "1011") % 2 ^ 32)
str_conv_to_mask-value_example =
    str_conv_to_mask-value (codes "1011") (inr refl, (inl refl, (inr refl, (inr refl, tt))))

abbrev network : Inet
network = record { addr = 0xa00_0000; mask = 8 }

reads_42 :
    strtoll (signed (pos 42))
    ≡ record { value = pos 42; rest = []; unread = false; errno = no_errno }
unfolding decimal_long
reads_42 = refl

var_conv-var_str_example :
    (var_conv_bool (var_str_bool true) ≡ some true)
    × (var_conv_int strtoll (var_str_int (pos 42)) ≡ some (pos 42))
    × (var_conv_inet (var_str_inet network) ≡ some network)
    × (var_conv_ipv4 (var_str_ipv4 0xa00_0001) ≡ some 0xa00_0001)
var_conv-var_str_example =
    var_conv-var_str strtoll true (pos 42) network 0xa00_0001 reads_42 (omega arith) (omega arith)
      (omega arith) (omega arith)
