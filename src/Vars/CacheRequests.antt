-- ===== src/Vars/CacheRequests.antt =====
-- The requests about the cached values of variables, mbbd/mbbvar.c. The rows of a hash table are
-- visited in their order.
use mbb_devel.Prelude.{ℕ, Bool, true, false, Option, none, some, List, [], ◌∷◌}
use mbb_devel.Prelude.Tests.{if◌then◌else◌}
use mbb_devel.Prelude.Text.{Bytes, codes}
use mbb_devel.Variant.{Variant, variant_new_string}
use mbb_devel.XmlTag.{XmlTag, xml_tag_new, xml_tag_add_child}
use mbb_devel.Messages.{mbb_xml_msg_ok, mbb_xml_msg, mbb_xml_msg_error, msg_unknown_var}
use mbb_devel.Sessions.{SessionVar, mbb_session_get_cached}
use mbb_devel.Vars.{
  Texts, texts_remove, or_no_texts, VarState, mbb_var_is_readonly, mbb_var_get_by_name,
  mbb_var_read, mbb_var_write, mbb_var_get_cache_table, set_cache_table, mbb_var_cache_add,
  mbb_var_cache_get,
}
use mbb_devel.Vars.Arguments.{
  VarResult, xtv_var_name, xtv_var_value, mbb_xtv_call_z, with_name, with_value, write_answer,
}

-- A row of a table of cached values, with or without its value.
abbrev pub cached_tag : Bool → Bytes × Bytes → XmlTag
cached_tag true r =
    xml_tag_new (codes "var")
      ((codes "name", variant_new_string (some r.0))
        ∷ (codes "value", variant_new_string (some r.1))
        ∷ [])
      none
cached_tag false r =
    xml_tag_new (codes "var") ((codes "name", variant_new_string (some r.0)) ∷ []) none

-- `var_cache_list_gather` and `show_cached_gather`, over a table that may be NULL.
unfoldable pub gather_cached : Bool → Texts Bytes → XmlTag → XmlTag
gather_cached with_values [] ans = ans
gather_cached with_values (r ∷ t) ans =
    gather_cached with_values t (xml_tag_add_child ans (cached_tag with_values r))

module _ (vprintf : Bytes → List Variant → Bytes) (strsplit : Bytes → List Bytes) {M : Type 0}
    (privs : ℕ → SessionVar M) (current : Option ℕ) where
  -- The value that is put into the cache, from what was read.
  abbrev pub added : Bytes → Option (VarState M × Option Bytes) → VarResult M
  added name none = none
  added name (some (w, none)) = some (w, none)
  added name (some (w, some value)) = some (mbb_var_cache_add privs current name value w, none)

  unfoldable pub cache_add_named : Bytes → Option Bytes → VarState M → VarResult M
  cache_add_named name (some value) w = added name (some (w, some value))
  cache_add_named name none w = elim (mbb_var_get_by_name name w) [
    | none ↦ some (w, some (mbb_xml_msg vprintf msg_unknown_var []))
    | some x ↦ added name (mbb_var_read privs current x w)
  ]

  unfoldable pub var_cache_add : XmlTag → VarState M → VarResult M
  var_cache_add tag w =
      with_value cache_add_named w
        (mbb_xtv_call_z vprintf strsplit tag (xtv_var_name ∷ xtv_var_value true ∷ []))

  -- With the value of the cache.
  unfoldable pub load_value : Bytes → Bytes → VarState M → VarResult M
  load_value name value w = elim (mbb_var_get_by_name name w) [
    | none ↦ some (w, some (mbb_xml_msg_error (some (codes "similar var missed"))))
    | some x ↦
        if mbb_var_is_readonly (w.heap x)
        then some (w, some (mbb_xml_msg_error (some (codes "similar var is readonly"))))
        else write_answer vprintf (mbb_var_write privs current x value w)
  ]

  unfoldable pub load_named : Bytes → VarState M → VarResult M
  load_named name w = elim (mbb_var_cache_get privs current name w) [
    | none ↦ some (w, some (mbb_xml_msg vprintf msg_unknown_var []))
    | some value ↦ load_value name value w
  ]

  unfoldable pub var_cache_load : XmlTag → VarState M → VarResult M
  var_cache_load tag w =
      with_name load_named w (mbb_xtv_call_z vprintf strsplit tag (xtv_var_name ∷ []))

  unfoldable pub del_named : Bytes → VarState M → VarResult M
  del_named name w = elim (mbb_var_get_cache_table privs current name false w).1 [
    | none ↦ some (w, none)
    | some t ↦ some (set_cache_table privs current name (texts_remove name t) w, none)
  ]

  unfoldable pub var_cache_del : XmlTag → VarState M → VarResult M
  var_cache_del tag w =
      with_name del_named w (mbb_xtv_call_z vprintf strsplit tag (xtv_var_name ∷ []))

  unfoldable pub cache_show_named : Bytes → VarState M → VarResult M
  cache_show_named name w = elim (mbb_var_cache_get privs current name w) [
    | none ↦ some (w, some (mbb_xml_msg vprintf msg_unknown_var []))
    | some value ↦ some (
      w,
      some (
          xml_tag_add_child mbb_xml_msg_ok (
            xml_tag_new (codes "var") ((codes "value", variant_new_string (some value)) ∷ [])
              none)),
    )
  ]

  unfoldable pub var_cache_show : XmlTag → VarState M → VarResult M
  var_cache_show tag w =
      with_name cache_show_named w (mbb_xtv_call_z vprintf strsplit tag (xtv_var_name ∷ []))

  -- `var_cache_list` for `false` and `show_cached` for `true`.
  unfoldable pub show_cached : Bool → VarState M → VarResult M
  show_cached with_values w = some (
    w,
    some (
        gather_cached with_values (or_no_texts (mbb_session_get_cached current false w.sessions).1)
          (gather_cached with_values (or_no_texts w.cache_global) mbb_xml_msg_ok)),
  )
