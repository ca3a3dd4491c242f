-- ===== src/Messages.antt =====
-- mbbd/mbbxmlmsg.c and mbbxmlmsg.h: the answers to requests. printf's formatting of the arguments
-- of a message is a parameter.
pub mod Answers
mod Tests
use mbb_devel.Prelude.{ℕ, Bool, true, false, Option, none, some, List, [], ◌∷◌}
use mbb_devel.Prelude.Tests.{if◌then◌else◌}
use mbb_devel.Prelude.Text.{Bytes, codes}
use mbb_devel.Registry.{str_equal}
use mbb_devel.Variant.{
  Variant, variant_new_static_string, variant_new_alloc_string, variant_get_string,
}
use mbb_devel.XmlTag.{XmlTag, xml_tag_new, xml_tag_get_attr}

-- `mbb_msg_t`.
pub data MbbMsg : Type 0 where
  msg_ok : MbbMsg
  msg_empty : MbbMsg
  msg_unknown_method : MbbMsg
  msg_xtv_missed : MbbMsg
  msg_xtv_invalid : MbbMsg
  msg_time_missed : MbbMsg
  msg_unknown_inet : MbbMsg
  msg_unknown_unit : MbbMsg
  msg_pstart_more_end : MbbMsg
  msg_pend_less_start : MbbMsg
  msg_invalid_time_order : MbbMsg
  msg_unit_freezed : MbbMsg
  msg_name_exists : MbbMsg
  msg_unknown_consumer : MbbMsg
  msg_has_childs : MbbMsg
  msg_unpossible : MbbMsg
  msg_orphan : MbbMsg
  msg_time_order : MbbMsg
  msg_time_collision : MbbMsg
  msg_unknown_group : MbbMsg
  msg_unknown_user : MbbMsg
  msg_group_has_user : MbbMsg
  msg_group_hasnot_user : MbbMsg
  msg_unit_has_consumer : MbbMsg
  msg_consumer_freezed : MbbMsg
  msg_self_not_exists : MbbMsg
  msg_invalid_pass : MbbMsg
  msg_need_pass : MbbMsg
  msg_inet_collision : MbbMsg
  msg_inet_cross : MbbMsg
  msg_ambiguous_request : MbbMsg
  msg_unknown_var : MbbMsg
  msg_not_capable : MbbMsg
  msg_invalid_value : MbbMsg
  msg_var_readonly : MbbMsg
  msg_addr_exists : MbbMsg
  msg_unknown_gateway : MbbMsg
  msg_unknown_operator : MbbMsg
  msg_gw_has_link : MbbMsg
  msg_unknown_gwlink : MbbMsg
  msg_unauthorized : MbbMsg
  msg_header_missed : MbbMsg
  msg_invalid_header : MbbMsg
  msg_var_not_init : MbbMsg
  msg_unknown_module : MbbMsg
  msg_unknown_task : MbbMsg
  msg_task_create_failed : MbbMsg
  msg_time_noparent : MbbMsg
  msg_root_only : MbbMsg
  msg_unknown_session : MbbMsg

-- `msg_table`; NULL is `none`.
unfoldable pub msg_table : MbbMsg → Option Bytes
msg_table msg_ok = none
msg_table msg_empty = none
msg_table msg_unknown_method = some (codes "method %s not found")
msg_table msg_xtv_missed = some (codes "xml entry %s:%s missed")
msg_table msg_xtv_invalid = some (codes "xml entry %s:%s has invalid value %s")
msg_table msg_time_missed = some (codes "missed time values")
msg_table msg_unknown_inet = some (codes "unknown inet")
msg_table msg_unknown_unit = some (codes "unknown unit")
msg_table msg_pstart_more_end = some (codes "parent start time is larger then new end time")
msg_table msg_pend_less_start = some (codes "parent end time is smaller then new start time")
msg_table msg_invalid_time_order = some (codes "invalid time order")
msg_table msg_unit_freezed = some (codes "unit %s is freezed")
msg_table msg_name_exists = some (codes "name %s exists")
msg_table msg_unknown_consumer = some (codes "unknown consumer")
msg_table msg_has_childs = some (codes "has childs")
msg_table msg_unpossible = some (codes "unpossible")
msg_table msg_orphan = some (codes "sorry, i am orphan")
msg_table msg_time_order = some (codes "invalid time order")
msg_table msg_time_collision = some (codes "time collision")
msg_table msg_unknown_group = some (codes "unknown group")
msg_table msg_unknown_user = some (codes "unknown user")
msg_table msg_group_has_user = some (codes "group already has this user")
msg_table msg_group_hasnot_user = some (codes "group hasnot this user")
msg_table msg_unit_has_consumer = some (codes "unit already has consumer")
msg_table msg_consumer_freezed = some (codes "consumer %s is freezed")
msg_table msg_self_not_exists = some (codes "self user not exists")
msg_table msg_invalid_pass = some (codes "invalid password")
msg_table msg_need_pass = some (codes "password expected")
msg_table msg_inet_collision = some (codes "inet collision")
msg_table msg_inet_cross = some (codes "cross with inet %d (%s)")
msg_table msg_ambiguous_request = some (codes "ambiguous request: too many data")
msg_table msg_unknown_var = some (codes "unknown var")
msg_table msg_not_capable = some (codes "capability not permit")
msg_table msg_invalid_value = some (codes "invalid value")
msg_table msg_var_readonly = some (codes "var is only for read")
msg_table msg_addr_exists = some (codes "address %s exists")
msg_table msg_unknown_gateway = some (codes "unknown gateway")
msg_table msg_unknown_operator = some (codes "unknown operator")
msg_table msg_gw_has_link = some (codes "gateway already has this link")
msg_table msg_unknown_gwlink = some (codes "unknown gateway link")
msg_table msg_unauthorized = some (codes "unauthorized")
msg_table msg_header_missed = some (codes "header %s missed")
msg_table msg_invalid_header = some (codes "invalid header '%s'")
msg_table msg_var_not_init = some (codes "var '%s' not initialized")
msg_table msg_unknown_module = some (codes "unknown module")
msg_table msg_unknown_task = some (codes "unknown task")
msg_table msg_task_create_failed = some (codes "failed to create task")
msg_table msg_time_noparent = some (codes "parent time not allowed")
msg_table msg_root_only = some (codes "only root can do this")
msg_table msg_unknown_session = some (codes "unknown session")

-- `msg_no == MBB_MSG_OK`.
unfoldable pub is_ok_number : MbbMsg → Bool
is_ok_number msg_ok = true
is_ok_number _ = false

-- An answer with a result and a description, formatted already.
unfoldable pub responsev : Bytes → Bytes → XmlTag
responsev result msg =
    xml_tag_new (codes "response")
      ((codes "result", variant_new_static_string (some result))
        ∷ (codes "desc", variant_new_alloc_string (some msg))
        ∷ [])
      none

unfoldable pub mbb_xml_msg_response : Bytes → Option Bytes → XmlTag
mbb_xml_msg_response result none =
    xml_tag_new (codes "response") ((codes "result", variant_new_static_string (some result)) ∷ [])
      none
mbb_xml_msg_response result (some msg) = responsev result msg

unfoldable pub mbb_xml_msg_ok : XmlTag
mbb_xml_msg_ok = mbb_xml_msg_response (codes "ok") none

-- `g_strcmp0("ok", ...)` is 0.
abbrev pub is_ok_text : Option Bytes → Bool
is_ok_text none = false
is_ok_text (some t) = str_equal (codes "ok") t

-- TRUE, or FALSE with what is stored through `msg`, if anything is.
unfoldable pub mbb_xml_msg_is_ok : XmlTag → Bool × Option (Option Bytes)
mbb_xml_msg_is_ok tag = elim (xml_tag_get_attr tag (codes "result")) [
  | none ↦ (true, none)
  | some result ↦ if is_ok_text (variant_get_string result) then (true, none) else (
    false,
    elim (xml_tag_get_attr tag (codes "desc")) [
      | none ↦ none
      | some desc ↦ some (variant_get_string desc)
    ],
  )
]

-- The text, formatted already, or NULL.
unfoldable pub mbb_xml_msg_error : Option Bytes → XmlTag
mbb_xml_msg_error none = mbb_xml_msg_response (codes "error") none
mbb_xml_msg_error (some msg) = responsev (codes "error") msg

module _ (vprintf : Bytes → List Variant → Bytes) where
  -- A GError's domain, code and message are the arguments of the format.
  unfoldable pub mbb_xml_msg_from_error : Option (List Variant) → XmlTag
  mbb_xml_msg_from_error none = mbb_xml_msg_error (some (codes "unknown error"))
  mbb_xml_msg_from_error (some error) =
      mbb_xml_msg_error (some (vprintf (codes "%s [%d]: %s") error))

  -- The numbers are those of the enumeration, so none is behind the table.
  unfoldable pub mbb_xml_msg : MbbMsg → List Variant → XmlTag
  mbb_xml_msg msg_no args =
      if is_ok_number msg_no then mbb_xml_msg_ok else elim (msg_table msg_no) [
        | none ↦ mbb_xml_msg_error none
        | some fmt ↦ responsev (codes "error") (vprintf fmt args)
      ]
