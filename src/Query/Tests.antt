-- ===== src/Query/Tests.antt =====
-- An insertion of a name, a time without end, and a truth value.
use mbb_devel.Prelude.{zero, some, [], ◌∷◌}
use mbb_devel.Prelude.Int.{pos, minus_one}
use mbb_devel.Prelude.Text.{codes}
use mbb_devel.Query.Insertion.{Fields, string_value, time_value, bool_value}

abbrev three_fields : Fields
three_fields =
    (codes "name", string_value (some (codes "home")))
    ∷ (codes "end", time_value minus_one)
    ∷ (codes "local", bool_value (pos zero))
    ∷ []
