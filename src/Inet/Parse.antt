-- ===== src/Inet/Parse.antt =====
-- What the parsers of inet.c accept, and the range of what they return.
use mbb_devel.Prelude.{
  ℕ, ◌+◌, ◌-◌, ◌*◌, ◌≤◌, ◌≡◌, refl, ap, true, false, [], ◌∷◌, ◌++◌, some, arith, inl, inr, ◌≢◌, ◌↔◌,
}
use mathlib.Core.List.{cons-ne-nil}
use mbb_devel.Prelude.Tests.{Bool-cases, ltb, le→ltb-false}
use mbb_devel.Prelude.Lists.{All}
use mbb_devel.Prelude.Text.{Bytes, peek, is_digit}
use mbb_devel.Inet.{read_digits, read_byte}

abbrev pub Digits : Bytes → Type 0
Digits = All (λ c. is_digit c ≡ true)

-- The number that digits spell behind `n`, with no bound.
abbrev pub value : ℕ → Bytes → ℕ
value n [] = n
value n (c ∷ s) = value (n * 10 + (c - b'0')) s

-- `read_digits` splits its text: digits whose value is the result, then a rest.
abbrev ReadsDigits : ℕ → Bytes → ℕ → Bytes → Type 0
ReadsDigits num s r rest =
    (ds : Bytes) × (s ≡ ds ++ rest)
    × Digits ds
    × (value num ds ≡ r)
    × (is_digit (peek rest) ≡ false)
    × (r ≤ 255)

read_digits_sound :
    (num : ℕ) (s : Bytes) (r : ℕ) (rest : Bytes)
    → num ≤ 255
    → read_digits num s ≡ some (r, rest)
    → ReadsDigits num s r rest
unfolding read_digits
read_digits_sound num [] r rest fits h =
    ([], ground arith, tt, ground arith, ground arith, ground arith)
read_digits_sound num (c ∷ s) r rest fits h = elim (Bool-cases (is_digit c)) [
  | inl digit ↦ elim (Bool-cases (ltb 255 (num * 10 + (c - b'0')))) [
    | inl large ↦ cc (rw (digit, large) at h)
    | inr small ↦
        let (ds, split, all, val, stop, le) =
          read_digits_sound (num * 10 + (c - b'0')) s r rest (ground arith)
            (rw (digit, small) at h) in
        (c ∷ ds, ap (◌∷◌ c) split, (digit, all), val, stop, le)
  ]
  | inr other ↦ ([], ground arith, tt, ground arith, ground arith, ground arith)
]

le-value : (n : ℕ) (s : Bytes) → n ≤ value n s
le-value n [] = omega arith
le-value n (c ∷ s) = omega (arith, le-value (n * 10 + (c - b'0')) s)

read_digits_complete :
    (num : ℕ) (ds rest : Bytes)
    → Digits ds
    → value num ds ≤ 255
    → is_digit (peek rest) ≡ false
    → read_digits num (ds ++ rest) ≡ some (value num ds, rest)
unfolding read_digits
read_digits_complete num [] [] all fits stop = refl
read_digits_complete num [] (c ∷ s) all fits stop = ground arith
read_digits_complete num (c ∷ ds) rest (digit, all) fits stop =
    rw
      (
        digit,
        le→ltb-false 255 (num * 10 + (c - b'0'))
            (omega (arith, le-value (num * 10 + (c - b'0')) ds)),
      )
      (read_digits_complete (num * 10 + (c - b'0')) ds rest all fits stop)

-- `ds` is one or more digits that spell `b`, a byte.
abbrev pub Spells : Bytes → ℕ → Type 0
Spells ds b = (ds ≢ []) × Digits ds × (value 0 ds ≡ b) × (b ≤ 255)

-- `s` is a spelled byte and then `rest`, which goes on with no digit.
abbrev pub ByteText : Bytes → ℕ → Bytes → Type 0
ByteText s b rest = (ds : Bytes) × (s ≡ ds ++ rest) × Spells ds b × (is_digit (peek rest) ≡ false)

-- A text that starts with a digit is read as one or more of them.
digits-ne-nil :
    (s ds rest : Bytes)
    → is_digit (peek s) ≡ true
    → s ≡ ds ++ rest
    → is_digit (peek rest) ≡ false
    → ds ≢ []
digits-ne-nil s [] rest digit e stop = ground arith
digits-ne-nil s (c ∷ ds) rest digit e stop = cons-ne-nil c ds

-- `read_byte` accepts exactly a run of digits whose value is at most 255, leading zeros allowed,
-- and returns that value and the text behind the run.
pub read_byte_iff :
    (s : Bytes) (b : ℕ) (rest : Bytes) → (read_byte s ≡ some (b, rest)) ↔ ByteText s b rest
unfolding read_byte
read_byte_iff s b rest = (sound, complete)
  where
    sound : read_byte s ≡ some (b, rest) → ByteText s b rest
    sound h = elim (Bool-cases (is_digit (peek s))) [
      | inl digit ↦
          let (ds, split, all, val, stop, le) =
            read_digits_sound 0 s b rest (omega arith) (rw digit at h) in
          (ds, split, (digits-ne-nil s ds rest digit split stop, all, val, le), stop)
      | inr other ↦ cc (rw other at h)
    ]

    starts : (ds : Bytes) → ds ≢ [] → Digits ds → is_digit (peek (ds ++ rest)) ≡ true
    starts [] h all = absurd (h refl)
    starts (c ∷ ds) h all = all.0

    complete : ByteText s b rest → read_byte s ≡ some (b, rest)
    complete (ds, split, (some_digit, all, val, le), stop) =
        rw (split, starts ds some_digit all)
          (rw (read_digits_complete 0 ds rest all (omega arith) stop) (rw val))
