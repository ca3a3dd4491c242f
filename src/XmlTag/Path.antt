-- ===== src/XmlTag/Path.antt =====
-- Paths of names through the tree, in lib/xmltag.c.
use mbb_devel.Prelude.{◌≡◌, refl, sym, ap, ◌∙◌, Option, none, some, List, [], ◌∷◌, ◌++◌, reverse}
use mathlib.Core.List.{append_assoc, reverse-append}
use mbb_devel.Prelude.Text.{Bytes}
use mbb_devel.Variant.{Variant}
use mbb_devel.XmlTag.{
  XmlTag, Tags, no_tags, then_tag, xml_tag_get_attr, xml_tag_get_body, xml_tag_get_child,
}

-- The first tag of a chain.
abbrev pub first_tag : Tags → Option XmlTag
first_tag no_tags = none
first_tag (then_tag t ts) = some t

-- The loop of `xml_tag_path`.
unfoldable pub path_names : XmlTag → List Bytes → Option XmlTag
path_names tag [] = some tag
path_names tag (name ∷ names) = elim (first_tag (xml_tag_get_child tag name)) [
  | none ↦ none
  | some child ↦ path_names child names
]

-- `g_slist_prepend` of a result that is not NULL.
abbrev pub prepend : {R : Type 0} → Option R → List R → List R
prepend none found = found
prepend (some ptr) found = ptr ∷ found

-- `wd->func`, or the tag itself without one, for a result that is not NULL.
module _ {R : Type 0} (func : XmlTag → Option R) where
  -- The loop over a chain of children.
  unfoldable pub walk_chain : (XmlTag → List R → List R) → Tags → List R → List R
  walk_chain walk no_tags found = found
  walk_chain walk (then_tag child ts) found = walk_chain walk ts (walk child found)

  unfoldable pub xml_tag_path_walk : List Bytes → XmlTag → List R → List R
  xml_tag_path_walk [] tag found = prepend (func tag) found
  xml_tag_path_walk (name ∷ names) tag found =
      walk_chain (xml_tag_path_walk names) (xml_tag_get_child tag name) found

-- `strsplit` is GLib's splitting of a text at each slash.
module _ (strsplit : Bytes → List Bytes) where
  -- The path may be NULL.
  unfoldable pub xml_tag_path : XmlTag → Option Bytes → Option XmlTag
  xml_tag_path tag none = some tag
  xml_tag_path tag (some path) = path_names tag (strsplit path)

  unfoldable pub xml_tag_path_go : {R : Type 0} → (XmlTag → Option R) → XmlTag → Bytes → List R
  xml_tag_path_go func tag path = xml_tag_path_walk func (strsplit path) tag []

  unfoldable pub xml_tag_path_list : XmlTag → Bytes → List XmlTag
  xml_tag_path_list tag path = xml_tag_path_go (λ t. some t) tag path

  unfoldable pub xml_tag_path_attr : XmlTag → Option Bytes → Bytes → Option Variant
  xml_tag_path_attr tag path attr = elim (xml_tag_path tag path) [
    | none ↦ none
    | some child ↦ xml_tag_get_attr child attr
  ]

  unfoldable pub xml_tag_path_attr_list : XmlTag → Bytes → Bytes → List Variant
  xml_tag_path_attr_list tag path attr = xml_tag_path_go (λ t. xml_tag_get_attr t attr) tag path

  unfoldable pub xml_tag_path_body : XmlTag → Option Bytes → Option Variant
  xml_tag_path_body tag path = elim (xml_tag_path tag path) [
    | none ↦ none
    | some child ↦ xml_tag_get_body child
  ]

  unfoldable pub xml_tag_path_body_list : XmlTag → Bytes → List Variant
  xml_tag_path_body_list tag path = xml_tag_path_go xml_tag_get_body tag path

-- The tags that a path of names leads to, in the order of the chains.
abbrev pub reached_from : (XmlTag → List XmlTag) → Tags → List XmlTag
reached_from next no_tags = []
reached_from next (then_tag t ts) = next t ++ reached_from next ts

abbrev pub reached : List Bytes → XmlTag → List XmlTag
reached [] tag = tag ∷ []
reached (name ∷ names) tag = reached_from (reached names) (xml_tag_get_child tag name)

-- The results that are not NULL.
abbrev pub results : {R : Type 0} → (XmlTag → Option R) → List XmlTag → List R
results func [] = []
results func (t ∷ l) = prepend (func t) (results func l)

module _ {R : Type 0} (func : XmlTag → Option R) where
  prepend-append : (o : Option R) (k l : List R) → prepend o (k ++ l) ≡ prepend o k ++ l
  prepend-append none k l = refl
  prepend-append (some r) k l = refl

  results-append : (k l : List XmlTag) → results func (k ++ l) ≡ results func k ++ results func l
  results-append [] l = refl
  results-append (t ∷ k) l =
      ap (prepend (func t)) (results-append k l)
      ∙ prepend-append (func t) (results func k) (results func l)

  walk_chain-results :
      (walk : XmlTag → List R → List R) (next : XmlTag → List XmlTag)
      → ((t : XmlTag) (found : List R) → walk t found ≡ reverse (results func (next t)) ++ found)
      → (ts : Tags) (found : List R)
      → walk_chain func walk ts found ≡ reverse (results func (reached_from next ts)) ++ found
  unfolding walk_chain
  walk_chain-results walk next h no_tags found = refl
  walk_chain-results walk next h (then_tag t ts) found =
      rw
        (
          walk_chain-results walk next h ts (walk t found),
          h t found,
          results-append (next t) (reached_from next ts),
          reverse-append,
        )
        (sym (
          append_assoc (reverse (results func (reached_from next ts)))
            (reverse (results func (next t))) found))

  -- The walk along a path finds the results of exactly the tags that the path leads to, last first.
  pub xml_tag_path_walk-reached :
      (names : List Bytes) (tag : XmlTag) (found : List R)
      → xml_tag_path_walk func names tag found ≡ reverse (results func (reached names tag)) ++ found
  unfolding xml_tag_path_walk
  xml_tag_path_walk-reached [] tag found = one (func tag)
    where
      one : (o : Option R) → prepend o found ≡ reverse (prepend o []) ++ found
      one none = refl
      one (some r) = refl
  xml_tag_path_walk-reached (name ∷ names) tag found =
      walk_chain-results (xml_tag_path_walk func names) (reached names)
        (xml_tag_path_walk-reached names) (xml_tag_get_child tag name) found
