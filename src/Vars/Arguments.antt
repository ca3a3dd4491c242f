-- ===== src/Vars/Arguments.antt =====
-- The arguments of the requests about variables: `mbb_xtv_call_z` and the entries of mbbd/mbbxtv.c
-- and mbbxtv.h that mbbd/mbbvar.c uses. A name that is no text stops the program, so it has no
-- result. The answer NULL is `none`.
use mbb_devel.Prelude.{Bool, true, false, Option, none, some, List, [], ◌∷◌, ◌++◌}
use mbb_devel.Prelude.Int.{pos, negsuc}
use mbb_devel.Prelude.Lists.{get_elem?}
use mbb_devel.Prelude.Text.{Bytes, codes}
use mbb_devel.Variant.{Variant, variant_new_string}
use mbb_devel.XmlTag.{XmlTag}
use mbb_devel.XmlTag.Values.{
  XmlTagVar, Stored, untouched, text, converted, Values, xml_tag_get_valuesv,
}
use mbb_devel.Messages.{mbb_xml_msg, msg_xtv_missed, msg_xtv_invalid, msg_invalid_value}
use mbb_devel.Vars.{VarState}

-- What MBB_XTV_CALL comes to: an answer at once, or the arguments.
pub data XtvCall (V : Type 0) : Type 0 where
  refused : XmlTag → XtvCall V
  taken : List (Stored V) → XtvCall V

abbrev pub VarResult : Type 0 → Type 0
VarResult M = Option (VarState M × Option XmlTag)

-- The two texts of an entry, for the message.
abbrev pub entry_texts : {V : Type 0} → Option (XmlTagVar V) → List Variant
entry_texts none = []
entry_texts (some xtv) = variant_new_string xtv.path ∷ variant_new_string xtv.name ∷ []

-- XTV_VAR_NAME, XTV_VAR_VALUE and XTV_REGEX_VALUE_, with `re_new`, NULL or not.
abbrev pub xtv_var_name : XmlTagVar (Option Bytes)
xtv_var_name = record {
  path = some (codes "var");
  name = some (codes "name");
  conv = some (λ s. some s);
  optional = false;
}

abbrev pub xtv_var_value : Bool → XmlTagVar (Option Bytes)
xtv_var_value optional = record {
  path = some (codes "var");
  name = some (codes "value");
  conv = some (λ s. some s);
  optional = optional;
}

abbrev pub xtv_regex_value : (Option Bytes → Option (Bytes → Bool)) → XmlTagVar (Bytes → Bool)
xtv_regex_value re_new = record {
  path = some (codes "regex");
  name = some (codes "value");
  conv = some re_new;
  optional = true;
}

-- The text that was stored for an argument, or NULL.
abbrev pub stored_text : Stored (Option Bytes) → Option Bytes
stored_text untouched = none
stored_text (text t) = t
stored_text (converted t) = t

abbrev pub stored_regex : List (Stored (Bytes → Bool)) → Option (Bytes → Bool)
stored_regex (converted re ∷ rest) = some re
stored_regex _ = none

module _ (vprintf : Bytes → List Variant → Bytes) (strsplit : Bytes → List Bytes) where
  module _ {V : Type 0} where
    -- From the result of `xml_tag_get_valuesv`.
    abbrev pub xtv_answer : List (XmlTagVar V) → Values V → XtvCall V
    xtv_answer xtv (values, negsuc n, arg) = taken values
    xtv_answer xtv (values, pos index, some (some arg)) = refused (
        mbb_xml_msg vprintf msg_xtv_invalid
          (entry_texts (get_elem? xtv index) ++ variant_new_string (some arg) ∷ []))
    xtv_answer xtv (values, pos index, _) =
        refused (mbb_xml_msg vprintf msg_xtv_missed (entry_texts (get_elem? xtv index)))

    unfoldable pub mbb_xtv_call_z : XmlTag → List (XmlTagVar V) → XtvCall V
    mbb_xtv_call_z tag xtv = xtv_answer xtv (xml_tag_get_valuesv strsplit tag xtv)

module _ {M : Type 0} where
  -- A handler that takes one name.
  abbrev pub with_name :
      (Bytes → VarState M → VarResult M) → VarState M → XtvCall (Option Bytes) → VarResult M
  with_name run w (refused ans) = some (w, some ans)
  with_name run w (taken (v ∷ vs)) = elim (stored_text v) [ none ↦ none | some name ↦ run name w ]
  with_name run w (taken []) = none

  -- A handler that takes a name and a value.
  abbrev pub with_value :
      (Bytes → Option Bytes → VarState M → VarResult M)
      → VarState M
      → XtvCall (Option Bytes)
      → VarResult M
  with_value run w (taken (n ∷ v ∷ vs)) = elim (stored_text n) [
    | none ↦ none
    | some name ↦ run name (stored_text v) w
  ]
  with_value run w (refused ans) = some (w, some ans)
  with_value run w _ = none

  -- The answer after a write.
  abbrev pub write_answer :
      (Bytes → List Variant → Bytes) → Option (VarState M × Bool) → VarResult M
  write_answer vprintf none = none
  write_answer vprintf (some (w, true)) = some (w, none)
  write_answer vprintf (some (w, false)) = some (w, some (mbb_xml_msg vprintf msg_invalid_value []))
