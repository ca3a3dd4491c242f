-- ===== src/Query/Insertion.antt =====
-- The query that `query_insert_ap` builds of fields, each followed by its value.
use mbb_devel.Prelude.{ℕ, zero, suc, ◌<◌, ◌≡◌, refl, arith, Option, none, some, List, [], ◌∷◌, ◌++◌}
use mathlib.Core.List.{append_assoc, append-nil}
use mbb_devel.Prelude.Lists.{length}
use mbb_devel.Prelude.Int.{ℤ, pos, negsuc}
use mbb_devel.Variant.{signed}
use mbb_devel.Prelude.Text.{Bytes, codes, decimal_long}
use mbb_devel.Query.{
  Arg, text, number, natural, null_format, buf_append_arg, append_text, text_literal, quoted,
  query_escape_text, char_text,
}
use mbb_devel.Query.Builders.{comma, after, insert_pairs, query_insert_ap}

abbrev pub Pairs : Type 0
Pairs = List (Bytes × Bytes)

-- The arguments: each field with its value, maybe one field without a value, and NULL.
abbrev pub pair_args : Pairs → Option Bytes → List Arg
pair_args [] none = text none ∷ []
pair_args [] (some name) = text (some name) ∷ text none ∷ []
pair_args (p ∷ ps) extra = text (some p.0) ∷ text (some p.1) ∷ pair_args ps extra

-- Texts behind each other, `sep` before the first and a comma before each other one.
abbrev pub listed : Bytes → List Bytes → Bytes
listed sep [] = []
listed sep (t ∷ ts) = sep ++ t ++ listed comma ts

-- The fields, with the one that has no value.
abbrev pub fields_of : Pairs → Option Bytes → List Bytes
fields_of [] none = []
fields_of [] (some name) = name ∷ []
fields_of (p ∷ ps) extra = p.0 ∷ fields_of ps extra

module _ (escape_func : Option (Bytes → Option Bytes)) where
  -- The values, escaped and between quotes.
  abbrev pub literals_of : Pairs → List Bytes
  literals_of [] = []
  literals_of (p ∷ ps) = quoted (query_escape_text escape_func p.1) ∷ literals_of ps

  pairs-listed :
      (ps : Pairs) (extra : Option Bytes) (sep : Bytes) (fuel : ℕ)
      → length ps < fuel
      → insert_pairs escape_func fuel sep null_format (pair_args ps extra)
        ≡ some (listed sep (fields_of ps extra), listed sep (literals_of ps))
  unfolding insert_pairs buf_append_arg append_text text_literal
  pairs-listed ps extra sep zero h = absurd (omega arith)
  pairs-listed [] none sep (suc fuel) h = refl
  pairs-listed [] (some name) sep (suc fuel) h = rw append-nil refl
  pairs-listed (p ∷ ps) extra sep (suc fuel) h =
      rw (insert_pairs, pairs-listed ps extra comma fuel (omega arith)) (simp (append_assoc) refl)

  pairs_length : (ps : Pairs) (extra : Option Bytes) → length ps < suc (length (pair_args ps extra))
  pairs_length [] none = omega arith
  pairs_length [] (some name) = omega arith
  pairs_length (p ∷ ps) extra = omega (arith, pairs_length ps extra)

  -- Without a format, and with a list of texts that gives each field a value, the query lists all
  -- fields, and as many values, each escaped and between quotes. A last field without a value is
  -- listed with no value.
  query_insert_ap-texts :
      (table : Bytes) (field : Option Bytes) (ps : Pairs) (extra : Option Bytes)
      → query_insert_ap escape_func table field none (pair_args ps extra)
        ≡ some (
            codes "insert into "
            ++ table
            ++ codes " ("
            ++ listed [] (fields_of ps extra)
            ++ codes ") values ("
            ++ listed [] (literals_of ps)
            ++ codes ")"
            ++ after (codes " returning ") field
            ++ codes ";")
  unfolding query_insert_ap
  query_insert_ap-texts table field ps extra =
      rw (pairs-listed ps extra [] (suc (length (pair_args ps extra))) (pairs_length ps extra)) refl

-- A value with the letter of the format that it is for.
pub data Value : Type 0 where
  string_value : Option Bytes → Value
  raw_value : Option Bytes → Value
  time_value : ℤ → Value
  long_value : ℤ → Value
  int_value : ℤ → Value
  quad_value : ℕ → Value
  char_value : ℤ → Value
  bool_value : ℤ → Value

abbrev pub letter_of : Value → ℕ
letter_of (string_value t) = b's'
letter_of (raw_value t) = b'S'
letter_of (time_value n) = b't'
letter_of (long_value n) = b'l'
letter_of (int_value n) = b'd'
letter_of (quad_value n) = b'q'
letter_of (char_value n) = b'c'
letter_of (bool_value n) = b'b'

abbrev pub arg_of : Value → Arg
arg_of (string_value t) = text t
arg_of (raw_value t) = text t
arg_of (time_value n) = number n
arg_of (long_value n) = number n
arg_of (int_value n) = number n
arg_of (quad_value n) = natural n
arg_of (char_value n) = number n
arg_of (bool_value n) = number n

abbrev pub Fields : Type 0
Fields = List (Bytes × Value)

abbrev pub letters_of : Fields → Bytes
letters_of [] = []
letters_of (p ∷ ps) = letter_of p.1 ∷ letters_of ps

abbrev pub names_of : Fields → List Bytes
names_of [] = []
names_of (p ∷ ps) = p.0 ∷ names_of ps

-- Each field with its value, and what is behind the last.
abbrev pub args_of : Fields → List Arg → List Arg
args_of [] rest = rest
args_of (p ∷ ps) rest = text (some p.0) ∷ arg_of p.1 ∷ args_of ps rest

module _ (escape_func : Option (Bytes → Option Bytes)) where
  -- A value in the query language: only `s` and `c` are escaped and stand between quotes.
  abbrev pub literal_of : Value → Bytes
  literal_of (string_value none) = codes "NULL"
  literal_of (string_value (some t)) = quoted (query_escape_text escape_func t)
  literal_of (raw_value none) = codes "NULL"
  literal_of (raw_value (some t)) = t
  literal_of (time_value (negsuc n)) = codes "NULL"
  literal_of (time_value (pos n)) = signed (pos n)
  literal_of (long_value n) = signed n
  literal_of (int_value n) = signed n
  literal_of (quad_value n) = decimal_long n
  literal_of (char_value n) = quoted (query_escape_text escape_func (char_text n))
  literal_of (bool_value (pos zero)) = codes "false"
  literal_of (bool_value (pos (suc n))) = codes "true"
  literal_of (bool_value (negsuc n)) = codes "true"

  abbrev pub values_of : Fields → List Bytes
  values_of [] = []
  values_of (p ∷ ps) = literal_of p.1 ∷ values_of ps
