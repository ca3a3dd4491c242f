-- ===== src/XmlTag/Chain.antt =====
-- The order of the children of one name.
use mbb_devel.Prelude.{◌≡◌, refl, ap, ◌∙◌, List, [], ◌∷◌, ◌++◌, inl, inr}
use mathlib.Core.List.{append-nil}
use mbb_devel.Prelude.Tests.{Bool-cases}
use mbb_devel.Prelude.Text.{Bytes}
use mbb_devel.Prelude.Lists.{All}
use mbb_devel.Registry.{str_equal}
use mbb_devel.Registry.Tables.{str_equal_refl}
use mbb_devel.XmlTag.{
  XmlTag, Tags, Childs, no_tags, then_tag, no_rows, row, xml_tag, tag_name, to_list, of_list,
  lookup_child, insert_child, add_to_chain, xml_tag_add_child, xml_tag_get_child, xml_tag_reorder,
  reorder_into,
}

-- The children of a name after a row was set.
pub lookup_child-insert :
    (name : Bytes) (ts : Tags) (childs : Childs)
    → lookup_child name (insert_child name ts childs) ≡ ts
unfolding lookup_child insert_child
lookup_child-insert name ts no_rows = rw (str_equal_refl name)
lookup_child-insert name ts (row n us childs) = elim (Bool-cases (str_equal n name)) [
  | inl same ↦ rw (same, same)
  | inr other ↦ rw (other, other) (lookup_child-insert name ts childs)
]

-- The chain after each tag of the list was added in turn.
abbrev add_each : List XmlTag → Tags → Tags
add_each [] ts = ts
add_each (t ∷ l) ts = add_each l (add_to_chain t ts)

add_each_behind :
    (l : List XmlTag) (h : XmlTag) (ts : Tags)
    → add_each l (then_tag h ts) ≡ then_tag h (reorder_into (of_list l) ts)
unfolding add_to_chain reorder_into
add_each_behind [] h ts = refl
add_each_behind (t ∷ l) h ts = add_each_behind l h (then_tag t ts)

-- All tags but the first one are turned round.
reorder_lem :
    (h : XmlTag) (ts : Tags)
    → xml_tag_reorder (then_tag h ts) ≡ then_tag h (reorder_into ts no_tags)
unfolding xml_tag_reorder reorder_into
reorder_lem h no_tags = refl
reorder_lem h (then_tag a no_tags) = refl
reorder_lem h (then_tag a (then_tag b ts)) = refl

-- Turned round twice.
reorder_twice :
    (l : List XmlTag) (ts done : Tags)
    → reorder_into (reorder_into (of_list l) ts) done
      ≡ reorder_into ts (of_list (l ++ to_list done))
unfolding reorder_into
reorder_twice [] ts done = rw (of_to done)
  where
    of_to : (ts : Tags) → of_list (to_list ts) ≡ ts
    of_to no_tags = refl
    of_to (then_tag t ts) = rw (of_to ts)
reorder_twice (t ∷ l) ts done = reorder_twice l (then_tag t ts) done

-- A tag after each of the list was added to it in turn.
abbrev pub add_childs : XmlTag → List XmlTag → XmlTag
add_childs tag [] = tag
add_childs tag (t ∷ l) = add_childs (xml_tag_add_child tag t) l

get_child-add :
    (name : Bytes) (tag child : XmlTag)
    → tag_name child ≡ name
    → xml_tag_get_child (xml_tag_add_child tag child) name
      ≡ add_to_chain child (xml_tag_get_child tag name)
unfolding xml_tag_get_child xml_tag_add_child
get_child-add name (xml_tag n attrs body childs) child same =
    rw (same) (lookup_child-insert name (add_to_chain child (lookup_child name childs)) childs)

get_child-add_childs :
    (name : Bytes) (l : List XmlTag) (tag : XmlTag)
    → All (λ t. tag_name t ≡ name) l
    → xml_tag_get_child (add_childs tag l) name ≡ add_each l (xml_tag_get_child tag name)
get_child-add_childs name [] tag h = refl
get_child-add_childs name (t ∷ l) tag (h, hs) =
    get_child-add_childs name l (xml_tag_add_child tag t) hs
    ∙ ap (add_each l) (get_child-add name tag t h)

-- Children of one name that are added to a tag without such children, and then reordered, stand in
-- the order in which they were added.
pub xml_tag_reorder-add_childs :
    (name : Bytes) (tag : XmlTag) (l : List XmlTag)
    → xml_tag_get_child tag name ≡ no_tags
    → All (λ t. tag_name t ≡ name) l
    → xml_tag_reorder (xml_tag_get_child (add_childs tag l) name) ≡ of_list l
unfolding add_to_chain xml_tag_reorder reorder_into
xml_tag_reorder-add_childs name tag l new same =
    rw (get_child-add_childs name l tag same, new) (turned l)
  where
    turned : (l : List XmlTag) → xml_tag_reorder (add_each l no_tags) ≡ of_list l
    turned [] = refl
    turned (t ∷ l) =
        rw
          (
            add_each_behind l t no_tags,
            reorder_lem t (reorder_into (of_list l) no_tags),
            reorder_twice l no_tags no_tags,
          )
          (rw (append-nil l) refl)
