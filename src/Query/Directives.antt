-- ===== src/Query/Directives.antt =====
-- mbbd/query.c: `query_format_full`, a text with directives for the letters of `qfmt`.
use mbb_devel.Prelude.{Bool, not, Option, none, some, List, [], ◌∷◌, ◌++◌}
use mbb_devel.Prelude.Tests.{◌==◌, if◌then◌else◌}
use mbb_devel.Prelude.Options.{◌>>=◌}
use mbb_devel.Prelude.Text.{Bytes}
use mbb_devel.Query.{Arg, Appended, qfmt}

module _ (escape_func : Option (Bytes → Option Bytes)) where
  -- The text of a directive in front of what follows; an unknown letter is passed over.
  abbrev with_directive :
      List Arg → Option (Option Appended) → (List Arg → Option Bytes) → Option Bytes
  with_directive args none next = next args
  with_directive args (some none) next = none
  with_directive args (some (some (t, rest))) next = do more ← next rest; some (t ++ more)

  -- The loop over the format.
  unfoldable pub format_text : Bytes → List Arg → Option Bytes
  format_text [] args = some []
  format_text (c ∷ []) args = if c == b'%' then some [] else some (c ∷ [])
  format_text (c ∷ d ∷ fmt) args =
      let plain : Option Bytes = (do more ← format_text (d ∷ fmt) args; some (c ∷ more)) in
      let next = format_text fmt in
      if not (c == b'%')
      then plain
      else if d == b'%'
      then (do more ← next args; some (b'%' ∷ more))
      else with_directive args (qfmt escape_func d args) next

  -- The buffer after the call, from the one before it.
  unfoldable pub query_format_full : Bool → Option Bytes → List Arg → Bytes → Option Bytes
  query_format_full append fmt args buf =
      let start = if append then buf else [] in
      elim fmt [ none ↦ some start | some f ↦ do t ← format_text f args; some (start ++ t) ]
