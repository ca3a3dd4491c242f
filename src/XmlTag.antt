-- ===== src/XmlTag.antt =====
-- lib/xmltag.c and xmltag.h: the tree of an XML message. A tag's children of one name hang
-- together by `next`; such a chain is a list here, without the head's own place in its parent. A
-- hash table is an association list with one row for a name. A tag that is added or sorted has no
-- `next` of its own.
pub mod Chain
pub mod Path
pub mod Values
pub mod Print
pub mod Sort
pub mod Order
mod Tests
use mbb_devel.Prelude.{ℕ, Bool, true, false, ◌&&◌, not, Option, none, some, List, [], ◌∷◌, ◌++◌}
use mbb_devel.Prelude.Tests.{if◌then◌else◌}
use mbb_devel.Prelude.Int.{ℤ, pos, negsuc, minus_one}
use mbb_devel.Prelude.Text.{Bytes}
use mbb_devel.Registry.{str_equal}
use mbb_devel.Variant.{Variant, variant_get_string}

abbrev pub Attrs : Type 0
Attrs = List (Bytes × Variant)

mutual
  -- `struct xml_tag`, without `next`.
  pub data XmlTag : Type 0 where
    xml_tag : Bytes → Attrs → Option Variant → Childs → XmlTag

  -- The tags from one on by `next`.
  pub data Tags : Type 0 where
    no_tags : Tags
    then_tag : XmlTag → Tags → Tags

  -- The table of children, one chain for a name.
  pub data Childs : Type 0 where
    no_rows : Childs
    row : Bytes → Tags → Childs → Childs

abbrev pub tag_name : XmlTag → Bytes
tag_name (xml_tag name attrs body childs) = name

abbrev pub tag_attrs : XmlTag → Attrs
tag_attrs (xml_tag name attrs body childs) = attrs

abbrev pub tag_childs : XmlTag → Childs
tag_childs (xml_tag name attrs body childs) = childs

-- A chain as a list, and back.
abbrev pub to_list : Tags → List XmlTag
to_list no_tags = []
to_list (then_tag t ts) = t ∷ to_list ts

abbrev pub of_list : List XmlTag → Tags
of_list [] = no_tags
of_list (t ∷ ts) = then_tag t (of_list ts)

-- `g_hash_table_replace` and `g_hash_table_lookup` of an attribute.
unfoldable pub replace_attr : Bytes → Variant → Attrs → Attrs
replace_attr key var [] = (key, var) ∷ []
replace_attr key var (a ∷ attrs) =
    let rest = replace_attr key var attrs in
    if str_equal a.0 key then (key, var) ∷ attrs else a ∷ rest

unfoldable pub lookup_attr : Bytes → Attrs → Option Variant
lookup_attr key [] = none
lookup_attr key (a ∷ attrs) =
    let rest = lookup_attr key attrs in if str_equal a.0 key then some a.1 else rest

-- `g_hash_table_lookup` and `g_hash_table_insert` of a chain.
unfoldable pub lookup_child : Bytes → Childs → Tags
lookup_child name no_rows = no_tags
lookup_child name (row n ts childs) =
    let rest = lookup_child name childs in if str_equal n name then ts else rest

unfoldable pub insert_child : Bytes → Tags → Childs → Childs
insert_child name ts no_rows = row name ts no_rows
insert_child name ts (row n us childs) =
    let rest = insert_child name ts childs in
    if str_equal n name then row n ts childs else row n us rest

-- The assertion is on pointers, which are never NULL here.
unfoldable pub xml_tag_set_attr : XmlTag → Bytes → Variant → XmlTag
xml_tag_set_attr (xml_tag name attrs body childs) opt_name var =
    xml_tag name (replace_attr opt_name var attrs) body childs

unfoldable pub xml_tag_get_attr : XmlTag → Bytes → Option Variant
xml_tag_get_attr tag opt_name = lookup_attr opt_name (tag_attrs tag)

-- The loop of `xml_tag_new` over its arguments.
unfoldable pub set_attrs : XmlTag → Attrs → XmlTag
set_attrs tag [] = tag
set_attrs tag (a ∷ args) = set_attrs (xml_tag_set_attr tag a.0 a.1) args

unfoldable pub xml_tag_set_body : XmlTag → Option Variant → XmlTag
xml_tag_set_body (xml_tag name attrs body childs) var = xml_tag name attrs var childs

unfoldable pub xml_tag_get_body : XmlTag → Option Variant
xml_tag_get_body (xml_tag name attrs body childs) = body

unfoldable pub xml_tag_new : Bytes → Attrs → Option Variant → XmlTag
xml_tag_new name args body = xml_tag_set_body (set_attrs (xml_tag name [] none no_rows) args) body

unfoldable pub xml_tag_get_child : XmlTag → Bytes → Tags
xml_tag_get_child tag name = lookup_child name (tag_childs tag)

-- `child->next = prev->next; prev->next = child`: behind the first of its name.
unfoldable pub add_to_chain : XmlTag → Tags → Tags
add_to_chain child no_tags = then_tag child no_tags
add_to_chain child (then_tag prev ts) = then_tag prev (then_tag child ts)

unfoldable pub xml_tag_add_child : XmlTag → XmlTag → XmlTag
xml_tag_add_child (xml_tag name attrs body childs) child = xml_tag name attrs body (
    insert_child (tag_name child) (add_to_chain child (lookup_child (tag_name child) childs))
      childs)

-- The loop of `xml_tag_reorder`: each tag of the first chain is put behind the head, before those
-- put there already.
unfoldable pub reorder_into : Tags → Tags → Tags
reorder_into no_tags done = done
reorder_into (then_tag xt next) done = reorder_into next (then_tag xt done)

unfoldable pub xml_tag_reorder : Tags → Tags
xml_tag_reorder no_tags = no_tags
xml_tag_reorder (then_tag tag no_tags) = then_tag tag no_tags
xml_tag_reorder (then_tag tag (then_tag xt no_tags)) = then_tag tag (then_tag xt no_tags)
xml_tag_reorder (then_tag tag (then_tag xt (then_tag next ts))) =
    then_tag tag (reorder_into (then_tag next ts) (then_tag xt no_tags))

-- `xml_tag_reorder_all` of the first tag of a chain, which visits its children; the tags behind
-- the first one are moved, and theirs are not visited.
unfoldable mutual
  pub xml_tag_reorder_all : Tags → Tags
  xml_tag_reorder_all no_tags = no_tags
  xml_tag_reorder_all (then_tag (xml_tag name attrs body childs) ts) =
      xml_tag_reorder (then_tag (xml_tag name attrs body (reorder_childs childs)) ts)

  reorder_childs : Childs → Childs
  reorder_childs no_rows = no_rows
  reorder_childs (row name ts childs) = row name (xml_tag_reorder_all ts) (reorder_childs childs)
