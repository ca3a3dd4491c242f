-- ===== src/Query.antt =====
-- mbbd/query.c: the builders of SQL queries. The buffer of a thread is the text returned; an
-- argument list is a list of values; reading a value of another type, or behind the end, is
-- undefined and has no result. The function that escapes texts (`query_escape_func`, or NULL) is a
-- parameter, and so is printf's formatting of a condition's arguments.
pub mod Builders
pub mod Directives
pub mod Insertion
mod Tests
use mbb_devel.Prelude.{
  ℕ, zero, suc, ◌+◌, Bool, true, false, Option, none, some, List, [], ◌∷◌, ◌++◌,
}
use mbb_devel.Prelude.Tests.{◌==◌, if◌then◌else◌}
use mbb_devel.Prelude.Options.{◌>>=◌}
use mbb_devel.Prelude.Int.{ℤ, pos, negsuc, is_neg, is_zero}
use mbb_devel.Prelude.Text.{Bytes, codes, decimal_long}
use mbb_devel.Variant.{signed}

-- One argument. NULL is `none`; a `time_t`, a `glong` and a `gint` are `number`.
pub data Arg : Type 0 where
  text : Option Bytes → Arg
  number : ℤ → Arg
  natural : ℕ → Arg

-- What `qfmt` and `buf_append_arg` leave: the text appended, and the arguments not read.
abbrev pub Appended : Type 0
Appended = Bytes × List Arg

-- `va_arg` of the three kinds.
abbrev pub next_text : List Arg → Option (Option Bytes × List Arg)
next_text (text t ∷ args) = some (t, args)
next_text _ = none

abbrev pub next_number : List Arg → Option (ℤ × List Arg)
next_number (number n ∷ args) = some (n, args)
next_number _ = none

abbrev pub next_natural : List Arg → Option (ℕ × List Arg)
next_natural (natural n ∷ args) = some (n, args)
next_natural _ = none

-- The literal NULL of the query language.
abbrev pub null_word : Bytes
null_word = codes "NULL"

-- `'%s'`.
abbrev pub quoted : Bytes → Bytes
quoted s = b'\'' ∷ s ++ b'\'' ∷ []

-- The text of one character, empty for NUL.
abbrev pub char_text : ℤ → Bytes
char_text (pos zero) = []
char_text (pos (suc c)) = suc c ∷ []
char_text (negsuc c) = []

-- What is left of the format: no pointer to one, a pointer to NULL, or a text.
pub data Format : Type 0 where
  no_format : Format
  null_format : Format
  format : Bytes → Format

-- FALSE, or TRUE with the text appended.
pub data Outcome : Type 0 where
  stopped : List Arg → Outcome
  appended : Bytes → Format → List Arg → Outcome

module _ (escape_func : Option (Bytes → Option Bytes)) where
  unfoldable pub query_escape_text : Bytes → Bytes
  query_escape_text t = elim escape_func [
    | none ↦ t
    | some f ↦ elim (f t) [ none ↦ t | some s ↦ s ]
  ]

  unfoldable pub query_escape : Bytes → Bytes
  query_escape str = query_escape_text str

  -- A text argument as a literal.
  unfoldable pub text_literal : Option Bytes → Bytes
  text_literal none = null_word
  text_literal (some t) = quoted (query_escape_text t)

  -- `none` is FALSE: no such letter. Otherwise the text appended and the arguments left, where
  -- an argument of another type has no result.
  unfoldable pub qfmt : ℕ → List Arg → Option (Option Appended)
  qfmt fmt args =
      if fmt == b'S'
      then some
          (do (t, rest) ← next_text args; some (elim t [ none ↦ null_word | some s ↦ s ], rest))
      else if fmt == b's'
      then some (do (t, rest) ← next_text args; some (text_literal t, rest))
      else if fmt == b't'
      then some
          (do (n, rest) ← next_number args; some (if is_neg n then null_word else signed n, rest))
      else if fmt == b'l'
      then some (do (n, rest) ← next_number args; some (signed n, rest))
      else if fmt == b'q'
      then some (do (n, rest) ← next_natural args; some (decimal_long n, rest))
      else if fmt == b'd'
      then some (do (n, rest) ← next_number args; some (signed n, rest))
      else if fmt == b'c'
      then some
          (do (n, rest) ← next_number args; some (quoted (query_escape_text (char_text n)), rest))
      else if fmt == b'b'
      then some (do
        (n, rest) ← next_number args
        some (if is_zero n then codes "false" else codes "true", rest))
      else none

  -- The branch of `buf_append_arg` without a format: the argument is a text.
  unfoldable pub append_text : Bytes → Format → Option Bytes × List Arg → Outcome
  append_text str no_format (t, rest) = appended (str ++ text_literal t) no_format rest
  append_text str pp (none, rest) = stopped rest
  append_text str pp (some t, rest) = appended (str ++ text_literal (some t)) pp rest

  -- The result of `qfmt` is not looked at.
  unfoldable pub append_formatted :
      Bytes → Bytes → List Arg → Option (Option Appended) → Option Outcome
  append_formatted str fmt args none = some (appended str (format fmt) args)
  append_formatted str fmt args (some none) = none
  append_formatted str fmt args (some (some (t, rest))) =
      some (appended (str ++ t) (format fmt) rest)

  unfoldable pub buf_append_arg : Format → Bytes → List Arg → Option Outcome
  buf_append_arg (format []) str args = some (stopped args)
  buf_append_arg (format (c ∷ fmt)) str args = append_formatted str fmt args (qfmt c args)
  buf_append_arg pp str args = do next ← next_text args; some (append_text str pp next)
