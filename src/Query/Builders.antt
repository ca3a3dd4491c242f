-- ===== src/Query/Builders.antt =====
-- mbbd/query.c: the queries put together from a table, fields and values.
use mbb_devel.Prelude.{ℕ, zero, suc, Bool, Option, none, some, List, [], ◌∷◌, ◌++◌}
use mbb_devel.Prelude.Options.{◌>>=◌}
use mbb_devel.Prelude.Lists.{length}
use mbb_devel.Prelude.Text.{Bytes, codes}
use mbb_devel.Query.{
  Arg, text, next_text, Format, no_format, null_format, format, Outcome, stopped, appended,
  buf_append_arg,
}

abbrev pub comma : Bytes
comma = codes ", "

-- A text after a word, if it is there.
abbrev pub after : Bytes → Option Bytes → Bytes
after word none = []
after word (some t) = word ++ t

-- The loop `while ((arg = va_arg(...)) != NULL)`: each argument behind a comma.
unfoldable pub more_texts : List Arg → Option (Bytes × List Arg)
more_texts (text none ∷ args) = some ([], args)
more_texts (text (some t) ∷ args) = do
  (rest, args') ← more_texts args
  some (comma ++ t ++ rest, args')
more_texts _ = none

-- The list of the fields: `*` for none.
unfoldable pub field_list : Bytes → List Arg → Option (Bytes × List Arg)
field_list star (text none ∷ args) = some (star, args)
field_list star (text (some t) ∷ args) = do (rest, args') ← more_texts args; some (t ++ rest, args')
field_list star _ = none

unfoldable pub select_common : Option Bytes → List Arg → Option (Bytes × List Arg)
select_common table args = do
  (fields, rest) ← field_list (codes "*") args
  some (codes "select " ++ fields ++ after (codes " from ") table, rest)

unfoldable pub query_select_full : Option Bytes → Option Bytes → List Arg → Option Bytes
query_select_full table opt args = do
  (buf, rest) ← select_common table args
  some (buf ++ after (codes " where ") opt ++ codes ";")

-- The condition that `vprintf` formats, where it is not NULL.
abbrev pub where_clause : (Bytes → List Arg → Bytes) → Option Bytes × List Arg → Bytes
where_clause vprintf (none, args) = []
where_clause vprintf (some fmt, args) = codes " where " ++ vprintf fmt args

unfoldable pub query_select_ap : (Bytes → List Arg → Bytes) → Option Bytes → List Arg → Option Bytes
query_select_ap vprintf table args = do
  (buf, rest) ← select_common table args
  condition ← next_text rest
  some (buf ++ where_clause vprintf condition ++ codes ";")

unfoldable pub query_delete : Bytes → Option Bytes → Bytes
query_delete table opt = codes "delete from " ++ table ++ after (codes " where ") opt ++ codes ";"

unfoldable pub query_delete_ap :
    (Bytes → List Arg → Bytes) → Bytes → Option Bytes → List Arg → Bytes
query_delete_ap vprintf table fmt args =
    codes "delete from " ++ table ++ where_clause vprintf (fmt, args) ++ codes ";"

-- A `fmt` parameter as a pointer to it.
abbrev pub pointer_to : Option Bytes → Format
pointer_to none = null_format
pointer_to (some fmt) = format fmt

module _ (escape_func : Option (Bytes → Option Bytes)) where
  -- The loop `while (buf_append_arg(buf, &fmt, &va, ", "))`, on fuel.
  unfoldable pub append_more : ℕ → Format → List Arg → Option Bytes
  append_more zero fmt args = none
  append_more (suc fuel) fmt args = elim (buf_append_arg escape_func fmt comma args) [
    | none ↦ none
    | some (stopped rest) ↦ some []
    | some (appended t fmt' rest) ↦ do more ← append_more fuel fmt' rest; some (t ++ more)
  ]

  -- Each turn reads an argument or a letter.
  abbrev pub fuel_for : Option Bytes → List Arg → ℕ
  fuel_for none args = suc (length args)
  fuel_for (some fmt) args = suc (length fmt)

  -- `if (buf_append_arg(buf, &fmt, &va, NULL)) while (...)`.
  unfoldable pub append_values : Option Bytes → List Arg → Option Bytes
  append_values fmt args = elim (buf_append_arg escape_func (pointer_to fmt) [] args) [
    | none ↦ none
    | some (stopped rest) ↦ some []
    | some (appended t fmt' rest) ↦ do
      more ← append_more (fuel_for fmt args) fmt' rest
      some (t ++ more)
  ]

  -- `(a, b) `, or nothing for no fields.
  unfoldable pub insert_fields : List Arg → Option (Bytes × List Arg)
  insert_fields (text none ∷ args) = some ([], args)
  insert_fields args = do
    (fields, rest) ← field_list [] args
    some (codes "(" ++ fields ++ codes ") ", rest)

  unfoldable pub query_insert_full : Bytes → Option Bytes → List Arg → Option Bytes
  query_insert_full table fmt args = do
    (fields, rest) ← insert_fields args
    vals ← append_values fmt rest
    some (
        codes "insert into "
        ++ table
        ++ codes " "
        ++ fields
        ++ codes "values ("
        ++ vals
        ++ codes ");")

  unfoldable pub query_function_ap : Bytes → Option Bytes → List Arg → Option Bytes
  query_function_ap func_name fmt args = do
    vals ← append_values fmt args
    some (codes "select " ++ func_name ++ codes "(" ++ vals ++ codes ");")

  unfoldable pub query_function : Bytes → Option Bytes → List Arg → Option Bytes
  query_function func_name fmt args = query_function_ap func_name fmt args

  -- The test `fmt == NULL || *fmt != '\0'`.
  abbrev pub has_letters : Format → Bool
  has_letters (format []) = Bool.false
  has_letters _ = Bool.true

  -- The loop of `query_insert_ap`, on fuel: the text of the fields and that of the values, after
  -- `sep`, which is NULL in the first turn.
  unfoldable pub insert_pairs : ℕ → Bytes → Format → List Arg → Option (Bytes × Bytes)
  insert_pairs zero sep fmt args = none
  insert_pairs (suc fuel) sep (format []) args = some ([], [])
  insert_pairs (suc fuel) sep fmt args = elim (next_text args) [
    | none ↦ none
    | some (none, rest) ↦ some ([], [])
    | some (some name, rest) ↦ elim (buf_append_arg escape_func fmt sep rest) [
      | none ↦ none
      | some (stopped rest') ↦ some (sep ++ name, [])
      | some (appended t fmt' rest') ↦ do
        (fields, vals) ← insert_pairs fuel comma fmt' rest'
        some (sep ++ name ++ fields, t ++ vals)
    ]
  ]

  unfoldable pub query_insert_ap : Bytes → Option Bytes → Option Bytes → List Arg → Option Bytes
  query_insert_ap table field fmt args = do
    (fields, vals) ← insert_pairs (suc (length args)) [] (pointer_to fmt) args
    some (
        codes "insert into "
        ++ table
        ++ codes " ("
        ++ fields
        ++ codes ") values ("
        ++ vals
        ++ codes ")"
        ++ after (codes " returning ") field
        ++ codes ";")

  -- What an ignored FALSE appends: nothing.
  abbrev pub outcome_text : Outcome → Bytes
  outcome_text (stopped rest) = []
  outcome_text (appended t fmt rest) = t

  abbrev pub outcome_format : Format → Outcome → Format
  outcome_format fmt (stopped rest) = fmt
  outcome_format fmt (appended t fmt' rest) = fmt'

  abbrev pub outcome_args : Outcome → List Arg
  outcome_args (stopped rest) = rest
  outcome_args (appended t fmt rest) = rest

  -- `NULL` for no `fmt`.
  abbrev pub format_pointer : Option Bytes → Format
  format_pointer none = no_format
  format_pointer (some fmt) = format fmt

  -- The loop of `update_common` from a value on, on fuel.
  unfoldable pub update_pairs : ℕ → Format → List Arg → Option (Bytes × List Arg)
  update_pairs zero fmt args = none
  update_pairs (suc fuel) fmt args = do
    o ← buf_append_arg escape_func fmt [] args
    elim (outcome_format fmt o) [
      | format [] ↦ some (outcome_text o, outcome_args o)
      | fmt' ↦ elim (next_text (outcome_args o)) [
        | none ↦ none
        | some (none, rest) ↦ some (outcome_text o, rest)
        | some (some name, rest) ↦ do
          (more, rest') ← update_pairs fuel fmt' rest
          some (outcome_text o ++ comma ++ name ++ codes " = " ++ more, rest')
      ]
    ]

  unfoldable pub update_common : Bytes → Option Bytes → Bytes → List Arg → Option (Bytes × List Arg)
  update_common table fmt name args = do
    (pairs, rest) ← update_pairs (suc (length args)) (format_pointer fmt) args
    some (codes "update " ++ table ++ codes " set " ++ name ++ codes " = " ++ pairs, rest)

  unfoldable pub query_update_full :
      Bytes → Option Bytes → Option Bytes → Bytes → List Arg → Option Bytes
  query_update_full table fmt opt name args = do
    (buf, rest) ← update_common table fmt name args
    some (buf ++ after (codes " where ") opt ++ codes ";")

  unfoldable pub query_update_ap :
      (Bytes → List Arg → Bytes) → Bytes → Option Bytes → Bytes → List Arg → Option Bytes
  query_update_ap vprintf table fmt name args = do
    (buf, rest) ← update_common table fmt name args
    condition ← next_text rest
    some (buf ++ where_clause vprintf condition ++ codes ";")
