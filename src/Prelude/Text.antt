-- ===== src/Prelude/Text.antt =====
-- C strings as lists of byte values (the end of the list is the terminating NUL), the
-- character classes of the source, and the directive %d of printf.
use Prim.Native.Nat.{ℕ, zero, suc, ◌+◌, ◌-◌, ◌/◌, ◌%◌, ◌≤◌, ◌<◌}
use Prim.Native.Char.{code}
use Prim.Native.String.{String}
use mathlib.Core.Path.{◌≡◌}
use mathlib.Core.Bool.{Bool, ◌&&◌}
use mathlib.Core.List.{List, [], ◌∷◌}
use native.Mathlib.Omega.{arith}
use mbb_devel.Prelude.Tests.{ltb, leb, if◌then◌else◌}
use mbb_devel.Prelude.Lists.{take, length}

abbrev pub Bytes : Type 0
Bytes = List ℕ

-- The bytes of an ASCII literal.
abbrev pub codes : String → Bytes
codes String.[] = []
codes (String.◌∷◌ c s) = code c ∷ codes s

-- `*p`: the byte under the cursor, NUL at the end.
abbrev pub peek : Bytes → ℕ
peek [] = 0
peek (c ∷ s) = c

-- `p++`.
abbrev pub advance : Bytes → Bytes
advance [] = []
advance (c ∷ s) = s

abbrev pub is_digit : ℕ → Bool
is_digit c = leb b'0' c && leb c b'9'

-- ASCII characters that print and are not blank.
abbrev pub is_graph : ℕ → Bool
is_graph c = leb 33 c && leb c 126

-- The digits of n, the lowest first put before `out`; ten rounds print every 32-bit number.
put_decimal : ℕ → ℕ → Bytes → Bytes
put_decimal zero n out = out
put_decimal (suc f) n out =
    let longer = put_decimal f (n / 10) ((b'0' + n % 10) ∷ out) in
    if ltb n 10 then (b'0' + n) ∷ out else longer

unfoldable pub decimal : ℕ → Bytes
unfolding put_decimal
decimal n = put_decimal 10 n []

-- The same with twenty rounds, enough for every 64-bit number.
unfoldable pub decimal_long : ℕ → Bytes
unfolding put_decimal
decimal_long n = put_decimal 20 n []

-- `snprintf` into a buffer of `size` bytes: one byte is left for the NUL.
abbrev pub snprintf : ℕ → Bytes → Bytes
snprintf size s = take (size - 1) s

-- The print of a byte value has one, two or three digits.
pub decimal_byte :
    (n : ℕ)
    → n < 256
    → decimal n ≡ (
        if ltb n 10
        then (b'0' + n) ∷ []
        else if ltb n 100
        then (b'0' + n / 10) ∷ (b'0' + n % 10) ∷ []
        else (b'0' + n / 100) ∷ (b'0' + n / 10 % 10) ∷ (b'0' + n % 10) ∷ [])
unfolding decimal
decimal_byte n h = ground arith

pub length-decimal_byte : (n : ℕ) → n < 256 → length (decimal n) ≤ 3
length-decimal_byte n h = ground (arith, decimal_byte n h)
