-- ===== src/XmlTag/Sort.antt =====
-- The sorting of the children of one name in lib/xmltag.c, on the chain as a list.
use mbb_devel.Prelude.{ℕ, zero, suc, Option, none, some, List, [], ◌∷◌}
use mbb_devel.Prelude.Tests.{if◌then◌else◌}
use mbb_devel.Prelude.Int.{ℤ, pos, minus_one, is_pos}
use mbb_devel.Prelude.Lists.{length}
use mbb_devel.Prelude.Options.{◌>>=◌}
use mbb_devel.Prelude.Text.{Bytes}
use mbb_devel.Variant.{Variant, variant_get_string}
use mbb_devel.XmlTag.{
  XmlTag, Tags, no_tags, then_tag, xml_tag, to_list, of_list, insert_child, xml_tag_get_attr,
  xml_tag_get_child,
}

module _ {A : Type 0} where
  -- The loop that looks for the end of the first half, with `xt1` at the head of the second list,
  -- and the first list what follows `xt2`.
  unfoldable pub cut : List A → List A → List A × List A
  cut fast [] = ([], [])
  cut [] (x ∷ slow) = (x ∷ [], slow)
  cut (a ∷ []) (x ∷ slow) = (x ∷ [], slow)
  cut (a ∷ b ∷ fast) (x ∷ slow) = let rest = cut fast slow in (x ∷ rest.0, rest.1)

module _ {A : Type 0} (func : A → A → ℤ) where
  unfoldable pub xml_tag_sort_merge : List A → List A → List A
  xml_tag_sort_merge [] r = r
  xml_tag_sort_merge (x ∷ l) [] = x ∷ l
  xml_tag_sort_merge (x ∷ l) (y ∷ r) =
      let left = xml_tag_sort_merge l (y ∷ r) in
      let right = xml_tag_sort_merge (x ∷ l) r in if is_pos (func x y) then y ∷ right else x ∷ left

  -- The first number is fuel for the depth of the recursion, and `none` that it ran out.
  unfoldable pub xml_tag_sort_real : ℕ → List A → Option (List A)
  xml_tag_sort_real zero l = none
  xml_tag_sort_real (suc f) [] = some []
  xml_tag_sort_real (suc f) (x ∷ []) = some (x ∷ [])
  xml_tag_sort_real (suc f) (x ∷ y ∷ l) = do
    let halves = cut l (x ∷ y ∷ l)
    first ← xml_tag_sort_real f halves.0
    second ← xml_tag_sort_real f halves.1
    some (xml_tag_sort_merge first second)

-- A chain is as deep as it is long, at most.
unfoldable pub xml_tag_sort_with_data : XmlTag → Bytes → (XmlTag → XmlTag → ℤ) → Option XmlTag
xml_tag_sort_with_data (xml_tag tag_name attrs body childs) name func =
    sort_chain (xml_tag tag_name attrs body childs)
      (xml_tag_get_child (xml_tag tag_name attrs body childs) name)
  where
    sort_chain : XmlTag → Tags → Option XmlTag
    sort_chain tag no_tags = some tag
    sort_chain tag (then_tag t ts) =
        elim (xml_tag_sort_real func (suc (length (to_list ts))) (to_list (then_tag t ts))) [
          | none ↦ none
          | some l ↦ some (xml_tag tag_name attrs body (insert_child name (of_list l) childs))
        ]

-- `xml_tag_sort` passes NULL as the data, which a comparison of two tags does not read.
unfoldable pub xml_tag_sort : XmlTag → Bytes → (XmlTag → XmlTag → ℤ) → Option XmlTag
xml_tag_sort tag name func = xml_tag_sort_with_data tag name func

-- `g_strcmp0` is a parameter.
module _ (strcmp0 : Option Bytes → Option Bytes → ℤ) where
  -- The tests and the comparison of the two values.
  unfoldable pub values_cmp : Option Variant → Option Variant → ℤ
  values_cmp none none = pos 0
  values_cmp none (some v2) = minus_one
  values_cmp (some v1) none = pos 1
  values_cmp (some v1) (some v2) = strcmp0 (variant_get_string v1) (variant_get_string v2)

  unfoldable pub xml_tag_attr_cmp : Bytes → XmlTag → XmlTag → ℤ
  xml_tag_attr_cmp attr xt1 xt2 = values_cmp (xml_tag_get_attr xt1 attr) (xml_tag_get_attr xt2 attr)

  unfoldable pub xml_tag_sort_by_attr : XmlTag → Bytes → Bytes → Option XmlTag
  xml_tag_sort_by_attr tag name attr = xml_tag_sort_with_data tag name (xml_tag_attr_cmp attr)
