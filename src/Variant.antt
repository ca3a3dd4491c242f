-- ===== src/Variant.antt =====
-- lib/variant.c and variant.h: values of XML attributes and bodies. Ownership of the texts, and
-- with it freeing, is left out, so the two constructors that differ only in who frees the text are
-- two functions for one value.
use mbb_devel.Prelude.{ℕ, ◌+◌, Bool, true, false, Option, none, some, ◌∷◌}
use mbb_devel.Prelude.Int.{ℤ, pos, negsuc}
use mbb_devel.Prelude.Text.{Bytes, decimal_long}

-- `struct variant`. NULL is `none`: of a text, of the function `convert`, and of its result.
pub data Variant : Type 0 where
  variant_int : ℤ → Variant
  variant_long : ℤ → Variant
  variant_string : Option Bytes → Variant
  variant_static_string : Option Bytes → Variant
  variant_pointer : ℕ → Option (ℕ → Option Bytes) → Variant

unfoldable pub variant_new_int : ℤ → Variant
variant_new_int value = variant_int value

unfoldable pub variant_new_long : ℤ → Variant
variant_new_long value = variant_long value

unfoldable pub variant_new_string : Option Bytes → Variant
variant_new_string str = variant_string str

unfoldable pub variant_new_alloc_string : Option Bytes → Variant
variant_new_alloc_string str = variant_string str

unfoldable pub variant_new_static_string : Option Bytes → Variant
variant_new_static_string str = variant_static_string str

unfoldable pub variant_new_pointer : ℕ → Option (ℕ → Option Bytes) → Variant
variant_new_pointer ptr convert = variant_pointer ptr convert

unfoldable pub variant_is_int : Variant → Bool
variant_is_int (variant_int n) = true
variant_is_int _ = false

unfoldable pub variant_is_long : Variant → Bool
variant_is_long (variant_long n) = true
variant_is_long _ = false

unfoldable pub variant_is_string : Variant → Bool
variant_is_string (variant_string s) = true
variant_is_string (variant_static_string s) = true
variant_is_string _ = false

unfoldable pub variant_is_pointer : Variant → Bool
variant_is_pointer (variant_pointer p f) = true
variant_is_pointer _ = false

unfoldable pub variant_get_int : Variant → ℤ
variant_get_int (variant_int n) = n
variant_get_int _ = pos 0

unfoldable pub variant_get_long : Variant → ℤ
variant_get_long (variant_long n) = n
variant_get_long (variant_int n) = n
variant_get_long _ = pos 0

unfoldable pub variant_get_string : Variant → Option Bytes
variant_get_string (variant_string s) = s
variant_get_string (variant_static_string s) = s
variant_get_string _ = none

unfoldable pub variant_get_pointer : Variant → Option ℕ
variant_get_pointer (variant_pointer p f) = some p
variant_get_pointer _ = none

-- The directives `%d` and `%ld`.
abbrev pub signed : ℤ → Bytes
signed (pos n) = decimal_long n
signed (negsuc n) = b'-' ∷ decimal_long (n + 1)

unfoldable pub variant_to_string : Variant → Option Bytes
variant_to_string (variant_int n) = some (signed n)
variant_to_string (variant_long n) = some (signed n)
variant_to_string (variant_string s) = s
variant_to_string (variant_static_string s) = s
variant_to_string (variant_pointer p none) = none
variant_to_string (variant_pointer p (some convert)) = convert p
