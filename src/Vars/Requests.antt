-- ===== src/Vars/Requests.antt =====
-- The requests that list, show and set variables, mbbd/mbbvar.c. The rows of a hash table are
-- visited in their order.
use mbb_devel.Prelude.{ℕ, Bool, true, false, Option, none, some, List, [], ◌∷◌, ◌&&◌, not}
use mbb_devel.Prelude.Tests.{◌==◌, if◌then◌else◌}
use mbb_devel.Prelude.Text.{Bytes, codes}
use mbb_devel.Variant.{Variant, variant_new_string, variant_new_alloc_string}
use mbb_devel.XmlTag.{XmlTag, xml_tag_new, xml_tag_set_attr, xml_tag_add_child}
use mbb_devel.Messages.{mbb_xml_msg_ok, mbb_xml_msg, msg_unknown_var, msg_not_capable}
use mbb_devel.Sessions.{SessionVar}
use mbb_devel.Vars.{
  Texts, Var, VarState, mbb_var_is_alive, mbb_var_can_read, mbb_var_can_write, mbb_var_get_by_name,
  mbb_var_read, mbb_var_write,
}
use mbb_devel.Vars.Arguments.{
  XtvCall, refused, taken, VarResult, xtv_var_name, xtv_var_value, xtv_regex_value, stored_regex,
  mbb_xtv_call_z, with_name, with_value, write_answer,
}

-- `re_ismatch`, unless there is no expression.
abbrev pub matches : Option (Bytes → Bool) → Bytes → Bool
matches none name = true
matches (some re) name = re name

abbrev pub value_tag : Bytes → Option Bytes → XmlTag
value_tag name value =
    xml_tag_new (codes "var")
      ((codes "name", variant_new_string (some name))
        ∷ (codes "value", variant_new_alloc_string value)
        ∷ [])
      none

abbrev pub name_of_var : {M : Type 0} → Var M → XmlTag
name_of_var var =
    xml_tag_new (codes "var") ((codes "name", variant_new_string (some var.name)) ∷ []) none

module _ (vprintf : Bytes → List Variant → Bytes) (strsplit : Bytes → List Bytes) {M : Type 0}
    (privs : ℕ → SessionVar M) (current : Option ℕ) where
  -- `module_name` is `mbb_module_get_name`.
  unfoldable pub gather_var_name : (ℕ → Bytes) → VarState M → ℕ → XmlTag → XmlTag
  gather_var_name module_name w x tag =
      let var = w.heap x in
      let xt = name_of_var var in
      if not (mbb_var_is_alive w var)
      then tag
      else if var.mod_ptr == 0
      then xml_tag_add_child tag xt
      else xml_tag_add_child tag (
          xml_tag_set_attr xt (codes "module")
            (variant_new_string (some (module_name var.mod_ptr))))

  unfoldable pub gather_names : (ℕ → Bytes) → VarState M → Texts ℕ → XmlTag → XmlTag
  gather_names module_name w [] ans = ans
  gather_names module_name w (r ∷ t) ans =
      gather_names module_name w t (gather_var_name module_name w r.1 ans)

  unfoldable pub var_list : (ℕ → Bytes) → VarState M → VarResult M
  var_list module_name w = elim w.ht [
    | none ↦ some (w, some mbb_xml_msg_ok)
    | some t ↦ some (w, some (gather_names module_name w t mbb_xml_msg_ok))
  ]

  -- The answer with a value, from what was read.
  abbrev pub value_answer : Option (VarState M × Option Bytes) → VarResult M
  value_answer none = none
  value_answer (some (w, value)) = some (
    w,
    some (
        xml_tag_add_child mbb_xml_msg_ok
          (xml_tag_new (codes "var") ((codes "value", variant_new_alloc_string value) ∷ []) none)),
  )

  unfoldable pub show_named : ℕ → Bytes → VarState M → VarResult M
  show_named cap name w = elim (mbb_var_get_by_name name w) [
    | none ↦ some (w, some (mbb_xml_msg vprintf msg_unknown_var []))
    | some x ↦
        if not (mbb_var_can_read (w.heap x) cap)
        then some (w, some (mbb_xml_msg vprintf msg_not_capable []))
        else value_answer (mbb_var_read privs current x w)
  ]

  -- `cap` is `mbb_thread_get_cap`.
  unfoldable pub var_show : ℕ → XmlTag → VarState M → VarResult M
  var_show cap tag w =
      with_name (show_named cap) w (mbb_xtv_call_z vprintf strsplit tag (xtv_var_name ∷ []))

  unfoldable pub set_named : ℕ → Bytes → Bytes → VarState M → VarResult M
  set_named cap name value w = elim (mbb_var_get_by_name name w) [
    | none ↦ some (w, some (mbb_xml_msg vprintf msg_unknown_var []))
    | some x ↦
        if not (mbb_var_can_write (w.heap x) cap)
        then some (w, some (mbb_xml_msg vprintf msg_not_capable []))
        else write_answer vprintf (mbb_var_write privs current x value w)
  ]

  -- A value that is no text, so NULL, is outside of the model and has no result.
  abbrev pub set_value : ℕ → Bytes → Option Bytes → VarState M → VarResult M
  set_value cap name none w = none
  set_value cap name (some value) w = set_named cap name value w

  unfoldable pub var_set : ℕ → XmlTag → VarState M → VarResult M
  var_set cap tag w =
      with_value (set_value cap) w
        (mbb_xtv_call_z vprintf strsplit tag (xtv_var_name ∷ xtv_var_value false ∷ []))

  -- The loop of `show_vars`.
  unfoldable pub show_rows : ℕ → Option (Bytes → Bool) → Texts ℕ → VarState M → XmlTag → VarResult M
  show_rows cap re [] w ans = some (w, some ans)
  show_rows cap re (r ∷ t) w ans =
      if mbb_var_is_alive w (w.heap r.1)
        && matches re (w.heap r.1).name
        && mbb_var_can_read (w.heap r.1) cap
      then elim (mbb_var_read privs current r.1 w) [
        | none ↦ none
        | some s ↦ show_rows cap re t s.0 (xml_tag_add_child ans (value_tag (w.heap r.1).name s.1))
      ]
      else show_rows cap re t w ans

  unfoldable pub show_table :
      ℕ → Option (Bytes → Bool) → Option (Texts ℕ) → VarState M → VarResult M
  show_table cap re none w = some (w, some mbb_xml_msg_ok)
  show_table cap re (some t) w = show_rows cap re t w mbb_xml_msg_ok

  abbrev pub with_regex : ℕ → VarState M → XtvCall (Bytes → Bool) → VarResult M
  with_regex cap w (refused ans) = some (w, some ans)
  with_regex cap w (taken values) = show_table cap (stored_regex values) w.ht w

  unfoldable pub show_vars :
      (Option Bytes → Option (Bytes → Bool)) → ℕ → XmlTag → VarState M → VarResult M
  show_vars re_new cap tag w =
      with_regex cap w (mbb_xtv_call_z vprintf strsplit tag (xtv_regex_value re_new ∷ []))
