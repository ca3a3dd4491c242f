-- ===== src/Conv/Values.antt =====
-- mbbd/varconv.c: the conversions of texts, times, truth values and addresses.
use mbb_devel.Prelude.{ℕ, Bool, true, false, Option, none, some, List, [], ◌∷◌, ◌&&◌, ◌||◌, not}
use mbb_devel.Prelude.Tests.{ltb, ◌==◌, if◌then◌else◌}
use mbb_devel.Prelude.Int.{ℤ, pos, negsuc}
use mbb_devel.Prelude.Lists.{length}
use mbb_devel.Prelude.Text.{Bytes, codes, decimal}
use mbb_devel.Registry.{str_equal}
use mbb_devel.Variant.{signed}
use mbb_devel.Inet.{Inet, ipv4toa, inettoa, atoinet, atoipv4}

unfoldable pub var_conv_str : Bytes → Option Bytes
var_conv_str arg = some arg

unfoldable pub var_conv_dup : Bytes → Option Bytes
var_conv_dup arg = some arg

-- `arg[len - 1]`, for a text that is not empty.
abbrev last_byte : ℕ → Bytes → ℕ
last_byte c [] = c
last_byte c (d ∷ s) = last_byte d s

unfoldable pub var_conv_dir : Bytes → Option Bytes
var_conv_dir [] = none
var_conv_dir (c ∷ s) =
    if not (c == b'/') || (ltb 1 (length (c ∷ s)) && not (last_byte c s == b'/'))
    then none
    else some (c ∷ s)

-- The loop of `var_conv_legal`, over the characters as GLib decodes them.
unfoldable pub all_alnum : (ℕ → Bool) → List ℕ → Bool
all_alnum is_alnum [] = true
all_alnum is_alnum (uc ∷ s) =
    let rest = all_alnum is_alnum s in if not (is_alnum uc) then false else rest

unfoldable pub var_conv_legal : (Bytes → List ℕ) → (ℕ → Bool) → Bytes → Option Bytes
var_conv_legal decode is_alnum arg = if all_alnum is_alnum (decode arg) then some arg else none

-- `struct tm`, as far as it is read here.
pub record Tm : Type 0 where
  pub tm_sec : ℕ
  pub tm_min : ℕ
  pub tm_hour : ℕ
  pub tm_mday : ℕ
  pub tm_mon : ℕ
  pub tm_year : ℤ

-- `dtformats`.
abbrev pub dtformats : List Bytes
dtformats =
    codes "%Y-%m-%d %H:%M:%S"
    ∷ codes "%Y-%m-%d %H:%M"
    ∷ codes "%Y-%m-%d %H"
    ∷ codes "%Y-%m-%d"
    ∷ codes "%Y-%m"
    ∷ codes "%Y"
    ∷ []

-- What the conversion of times asks of the C library and of GLib: the clock, strptime of a text by
-- a format (the fields it sets in a cleared `struct tm`, and the text it leaves, or NULL), mktime,
-- and the test of a date's day, month from 0 and year from 1900.
pub record Calendar : Type 0 where
  pub now : ℤ
  pub strptime : Bytes → Bytes → Option (Tm × Bytes)
  pub mktime : Tm → ℤ
  pub date_valid : ℕ → ℕ → ℤ → Bool

module _ (calendar : Calendar) where
  -- The loop over the formats: the first that reads the whole text.
  unfoldable pub parse_time : Bytes → List Bytes → Option Tm
  parse_time str [] = none
  parse_time str (fmt ∷ fmts) =
      let rest = parse_time str fmts in
      elim (calendar.strptime str fmt) [
        | none ↦ rest
        | some (tm, []) ↦ some tm
        | some (tm, c ∷ s) ↦ rest
      ]

  -- `if (tm.tm_mday == 0) tm.tm_mday++`.
  unfoldable pub first_day : Tm → Tm
  first_day tm = record tm { tm_mday = if tm.tm_mday == 0 then 1 else tm.tm_mday }

  unfoldable pub var_conv_time : Bytes → Option ℤ
  var_conv_time str =
      if str_equal str (codes "now") then some calendar.now else elim (parse_time str dtformats) [
        | none ↦ none
        | some tm ↦
            (let tm' = first_day tm in
              if not (calendar.date_valid tm'.tm_mday tm'.tm_mon tm'.tm_year)
              then none
              else some (calendar.mktime tm'))
      ]

  -- VAR_CONV_TIME_PARENT is -1, VAR_CONV_TIME_NULL is 0.
  unfoldable pub var_conv_etime : Bytes → Option ℤ
  var_conv_etime str =
      if str_equal str (codes "parent")
      then some (negsuc 0)
      else if str_equal str (codes "null") || str_equal str (codes "inf")
      then some (pos 0)
      else var_conv_time str

unfoldable pub var_conv_bool : Bytes → Option Bool
var_conv_bool arg =
    if str_equal arg (codes "true")
    then some true
    else if str_equal arg (codes "false")
    then some false
    else none

unfoldable pub var_conv_inet : Bytes → Option Inet
var_conv_inet arg = atoinet arg

unfoldable pub var_conv_ipv4 : Bytes → Option ℕ
var_conv_ipv4 arg = elim (atoipv4 arg) [ none ↦ none | some inet ↦ some inet.addr ]

-- `re_new` is a parameter.
unfoldable pub var_conv_regex : {R : Type 0} → (Bytes → Option R) → Bytes → Option R
var_conv_regex re_new arg = re_new arg

unfoldable pub var_str_str : Option Bytes → Bytes
var_str_str none = codes "(dummy)"
var_str_str (some s) = s

unfoldable pub var_str_int : ℤ → Bytes
var_str_int n = signed n

unfoldable pub var_str_uint : ℕ → Bytes
var_str_uint n = decimal n

-- `timetoa` is a parameter.
unfoldable pub var_str_time : (ℤ → Bytes) → ℤ → Bytes
var_str_time timetoa t = timetoa t

unfoldable pub var_str_bool : Bool → Bytes
var_str_bool b = if b then codes "true" else codes "false"

unfoldable pub var_str_inet : Inet → Bytes
var_str_inet inet = inettoa inet

unfoldable pub var_str_ipv4 : ℕ → Bytes
var_str_ipv4 ip = ipv4toa ip
