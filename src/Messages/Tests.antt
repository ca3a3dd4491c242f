-- ===== src/Messages/Tests.antt =====
-- The answer to an unknown unit.
use mbb_devel.Prelude.{◌≡◌, List, []}
use mbb_devel.Prelude.Text.{Bytes}
use mbb_devel.Variant.{Variant}
use mbb_devel.Messages.{msg_unknown_unit, is_ok_number, mbb_xml_msg_is_ok, mbb_xml_msg}
use mbb_devel.Messages.Answers.{stored_text, mbb_xml_msg_is_ok-mbb_xml_msg}

-- A format without directives.
abbrev verbatim : Bytes → List Variant → Bytes
verbatim fmt args = fmt

mbb_xml_msg_is_ok-mbb_xml_msg_example :
    mbb_xml_msg_is_ok (mbb_xml_msg verbatim msg_unknown_unit [])
    ≡ (is_ok_number msg_unknown_unit, stored_text verbatim msg_unknown_unit [])
mbb_xml_msg_is_ok-mbb_xml_msg_example = mbb_xml_msg_is_ok-mbb_xml_msg verbatim msg_unknown_unit []
