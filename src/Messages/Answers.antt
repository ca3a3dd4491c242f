-- ===== src/Messages/Answers.antt =====
-- What the test of an answer of mbbd/mbbxmlmsg.c finds in the answers made there.
use mbb_devel.Prelude.{◌≡◌, refl, inl, inr, true, false, Option, none, some, List}
use mbb_devel.Prelude.Tests.{if◌then◌else◌, Bool-cases, Option-cases}
use mbb_devel.Prelude.Text.{Bytes, codes}
use mbb_devel.Registry.{str_equal}
use mbb_devel.Variant.{
  Variant, variant_new_static_string, variant_new_alloc_string, variant_get_string,
}
use mbb_devel.XmlTag.{
  xml_tag_new, set_attrs, xml_tag_set_attr, xml_tag_set_body, xml_tag_get_attr, replace_attr,
  lookup_attr,
}
use mbb_devel.Messages.{
  MbbMsg, msg_table, is_ok_number, responsev, mbb_xml_msg_response, mbb_xml_msg_ok,
  mbb_xml_msg_error, mbb_xml_msg_is_ok, mbb_xml_msg,
}

ok-is_ok : mbb_xml_msg_is_ok mbb_xml_msg_ok ≡ (true, none)
unfolding mbb_xml_msg_ok mbb_xml_msg_response mbb_xml_msg_is_ok xml_tag_new set_attrs
    xml_tag_set_attr xml_tag_set_body xml_tag_get_attr replace_attr lookup_attr str_equal
    variant_new_static_string variant_get_string
ok-is_ok = refl

error-is_ok : mbb_xml_msg_is_ok (mbb_xml_msg_error none) ≡ (false, none)
unfolding mbb_xml_msg_error mbb_xml_msg_response mbb_xml_msg_is_ok xml_tag_new set_attrs
    xml_tag_set_attr xml_tag_set_body xml_tag_get_attr replace_attr lookup_attr str_equal
    variant_new_static_string variant_get_string
error-is_ok = refl

responsev-is_ok :
    (t : Bytes) → mbb_xml_msg_is_ok (responsev (codes "error") t) ≡ (false, some (some t))
unfolding responsev mbb_xml_msg_is_ok xml_tag_new set_attrs xml_tag_set_attr xml_tag_set_body
    xml_tag_get_attr replace_attr lookup_attr str_equal variant_new_static_string variant_get_string
    variant_new_alloc_string
responsev-is_ok t = refl

-- The text stored for the message of a number: none for a success, and none for a number that the
-- table has no text for.
abbrev pub stored_text :
    (Bytes → List Variant → Bytes) → MbbMsg → List Variant → Option (Option Bytes)
stored_text vprintf msg_no args =
    if is_ok_number msg_no
    then none
    else elim (msg_table msg_no) [ none ↦ none | some fmt ↦ some (some (vprintf fmt args)) ]

-- The answer to a message number is a success exactly for MBB_MSG_OK. For the others the message
-- is read back as it was formatted, except that nothing is stored for a number without a text.
pub mbb_xml_msg_is_ok-mbb_xml_msg :
    (vprintf : Bytes → List Variant → Bytes) (msg_no : MbbMsg) (args : List Variant)
    → mbb_xml_msg_is_ok (mbb_xml_msg vprintf msg_no args)
      ≡ (is_ok_number msg_no, stored_text vprintf msg_no args)
unfolding mbb_xml_msg
mbb_xml_msg_is_ok-mbb_xml_msg vprintf msg_no args = elim (Bool-cases (is_ok_number msg_no)) [
  | inl ok ↦ rw ok ok-is_ok
  | inr other ↦ elim (Option-cases (msg_table msg_no)) [
    | inl empty ↦ rw (other, empty) error-is_ok
    | inr (fmt, e) ↦ rw (other, e) (responsev-is_ok (vprintf fmt args))
  ]
]
