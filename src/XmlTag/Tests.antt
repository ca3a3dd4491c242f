-- ===== src/XmlTag/Tests.antt =====
-- A message with three units.
use mbb_devel.Prelude.{ℕ, ◌≡◌, refl, arith, false, Option, none, some, List, [], ◌∷◌, ◌++◌, reverse}
use mbb_devel.Prelude.Int.{ℤ, sub_ℕ}
use mbb_devel.Prelude.Text.{Bytes, peek, codes}
use mbb_devel.Variant.{variant_string}
use mbb_devel.XmlTag.{
  XmlTag, xml_tag, no_tags, no_rows, to_list, of_list, xml_tag_get_child, lookup_child,
  xml_tag_reorder,
}
use mbb_devel.XmlTag.Chain.{add_childs, xml_tag_reorder-add_childs}
use mbb_devel.XmlTag.Sort.{xml_tag_attr_cmp, xml_tag_sort_by_attr}
use mbb_devel.XmlTag.Order.{IsOrder, IsSort, xml_tag_sort_by_attr-IsSort}
use mbb_devel.XmlTag.Path.{reached, results, xml_tag_path_walk, xml_tag_path_walk-reached}
use mbb_devel.XmlTag.Values.{
  XmlTagVar, IsOutcome, xml_tag_get_valuesv, xml_tag_get_valuesv-IsOutcome,
}

abbrev unit_tag : Bytes → XmlTag
unit_tag name =
    xml_tag (codes "unit") ((codes "name", variant_string (some name)) ∷ []) none no_rows

abbrev three_units : List XmlTag
three_units = unit_tag (codes "c") ∷ unit_tag (codes "a") ∷ unit_tag (codes "b") ∷ []

abbrev response : XmlTag
response = xml_tag (codes "response") [] none no_rows

abbrev full : XmlTag
full = add_childs response three_units

no_units : xml_tag_get_child response (codes "unit") ≡ no_tags
unfolding xml_tag_get_child lookup_child
no_units = refl

xml_tag_reorder-add_childs_example :
    xml_tag_reorder (xml_tag_get_child (add_childs response three_units) (codes "unit"))
    ≡ of_list three_units
xml_tag_reorder-add_childs_example =
    xml_tag_reorder-add_childs (codes "unit") response three_units no_units
      (refl, (refl, (refl, tt)))

-- A comparison of the first bytes.
abbrev first_byte : Option Bytes → ℕ
first_byte none = 0
first_byte (some s) = peek s

abbrev by_first : Option Bytes → Option Bytes → ℤ
by_first a b = sub_ℕ (first_byte a) (first_byte b)

by_first-IsOrder : IsOrder by_first
by_first-IsOrder = record { total = λ a b h. ground arith; trans = λ a b c h k. ground arith }

xml_tag_sort_by_attr-IsSort_example :
    (tag' : XmlTag) × (xml_tag_sort_by_attr by_first full (codes "unit") (codes "name") ≡ some tag')
    × IsSort
        (xml_tag_attr_cmp by_first (codes "name"))
        (to_list (xml_tag_get_child full (codes "unit")))
        (to_list (xml_tag_get_child tag' (codes "unit")))
xml_tag_sort_by_attr-IsSort_example =
    xml_tag_sort_by_attr-IsSort by_first full (codes "unit") (codes "name") by_first-IsOrder

xml_tag_path_walk-reached_example :
    xml_tag_path_walk (λ t. some t) (codes "unit" ∷ []) full []
    ≡ reverse (results (λ t. some t) (reached (codes "unit" ∷ []) full)) ++ []
xml_tag_path_walk-reached_example =
    xml_tag_path_walk-reached (λ t. some t) (codes "unit" ∷ []) full []

abbrev needed : XmlTagVar ℕ
needed = record {
  path = some (codes "unit");
  name = some (codes "id");
  conv = none;
  optional = false;
}

xml_tag_get_valuesv-IsOutcome_example :
    IsOutcome
      (λ s. s ∷ [])
      full
      0
      (needed ∷ [])
      (xml_tag_get_valuesv (λ s. s ∷ []) full (needed ∷ []))
xml_tag_get_valuesv-IsOutcome_example =
    xml_tag_get_valuesv-IsOutcome (λ s. s ∷ []) full (needed ∷ [])
