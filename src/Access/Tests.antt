-- ===== src/Access/Tests.antt =====
-- A daemon with the user `ann` and one function, which she may call.
use mbb_devel.Prelude.{arith, ℕ, ◌+◌, ◌≡◌, refl, true, Option, none, some, List, [], ◌∷◌}
use mbb_devel.Prelude.Text.{Bytes, codes}
use mbb_devel.Registry.{
  Registry, str_equal, get_by, data_link_lookup, table_lookup, key_equal, self_key, id_key,
  name_key,
}
use mbb_devel.Variant.{variant_new_string, variant_get_string}
use mbb_devel.XmlTag.{
  XmlTag, xml_tag_new, xml_tag_set_body, set_attrs, xml_tag_set_attr, xml_tag_get_attr, lookup_attr,
  replace_attr,
}
use mbb_devel.XmlTag.Path.{xml_tag_path_attr, xml_tag_path}
use mbb_devel.XmlTag.Values.{xml_tag_get_valuesv, values_from, take_value, get_var, convert}
use mbb_devel.Objects.User.{User, mbb_user_get_by_name}
use mbb_devel.Access.Registration.{mbb_func_unregister_all-mbb_func_mregister}
use mbb_devel.Access.{
  FuncStruct, Funcs, mbb_func_mregister, mbb_func_unregister_all, mbb_func_register_all,
  mbb_module_use, mbb_module_unuse,
}
use mbb_devel.Access.Auth.{
  mbb_auth, mbb_auth_plain, methods_lookup, methods_insert, mbb_auth_method_new,
  mbb_auth_method_register,
}
use mbb_devel.Access.XmlClient.{
  Daemon, Client, process_xml, msg_auth_ok, process_auth, authenticate, auth_values,
  mbb_session_auth, push,
}
use mbb_devel.Access.Reach.{
  OptionEffect, process_xml-Effect, Reaches, Entered, started, processed, Reaches-Authenticated,
}

abbrev users : Registry User
users = record {
  heap = λ x. record {
    id = 7;
    name = codes "ann";
    secret = some (codes "pw");
    cap_mask = 2;
    childs = [];
  };
  dlink =
      some
        (((self_key 9, 9) ∷ []) ∷ ((id_key 7, 9) ∷ []) ∷ ((name_key (codes "ann"), 9) ∷ []) ∷ []);
}

abbrev daemon : Daemon ℕ
daemon = record {
  funcs =
      mbb_func_register_all
        (record { name = codes "count"; func = 5; cap_mask = 2; module_ptr = 0 } ∷ []) none;
  methods = (mbb_auth_method_register 0 (codes "plain") mbb_auth_plain none).0;
  modules = λ x. record { run = true; use_count = 0 };
  users = users;
  other = 0;
}

-- The function adds its number to the rest of the state.
abbrev call : ℕ → XmlTag → Client → Daemon ℕ → Daemon ℕ × Option XmlTag
call func tag te d = (record d { other = d.other + func }, none)

abbrev split : Bytes → List Bytes
split s = s ∷ []

abbrev markup : Bytes → Bytes
markup s = s

abbrev stranger : Client
stranger = record { user = none; messages = [] }

abbrev ann : Client
ann = record { user = some 9; messages = [] }

abbrev request : XmlTag
request =
    xml_tag_new (codes "request") ((codes "name", variant_new_string (some (codes "count"))) ∷ [])
      none

abbrev auth : XmlTag
auth =
    xml_tag_new (codes "auth")
      ((codes "login", variant_new_string (some (codes "ann")))
        ∷ (codes "secret", variant_new_string (some (codes "pw")))
        ∷ [])
      none

process_xml-Effect_example :
    OptionEffect markup call split request daemon ann
      (process_xml markup call split request daemon ann)
process_xml-Effect_example = process_xml-Effect markup call split request daemon ann

abbrev welcome : Client
welcome = record { user = some 9; messages = msg_auth_ok ∷ [] }

auth-welcome : process_xml markup call split auth daemon stranger ≡ some (welcome, daemon)
unfolding process_xml str_equal xml_tag_new xml_tag_set_body set_attrs xml_tag_set_attr process_auth
    authenticate auth_values xml_tag_get_valuesv values_from take_value get_var xml_tag_path_attr
    xml_tag_path xml_tag_get_attr lookup_attr replace_attr convert variant_get_string
    variant_new_string mbb_session_auth mbb_auth methods_lookup methods_insert
    mbb_auth_method_register mbb_auth_method_new mbb_auth_plain mbb_module_use mbb_module_unuse
    mbb_user_get_by_name get_by data_link_lookup table_lookup key_equal push
auth-welcome = refl

abbrev run : Reaches markup call split welcome daemon
run = processed auth (started refl) auth-welcome

Reaches-Authenticated_example : Entered markup call split run 9
Reaches-Authenticated_example = Reaches-Authenticated markup call split 9 run refl

abbrev hello : FuncStruct
hello = record { name = codes "hello"; func = 1; cap_mask = 2; module_ptr = 0 }

abbrev bye : FuncStruct
bye = record { name = codes "bye"; func = 2; cap_mask = 2; module_ptr = 0 }

-- The name `hello` is taken by a function of the daemon.
abbrev taken : Option Funcs
taken = some (record hello { func = 5 } ∷ [])

mbb_func_unregister_all-mbb_func_mregister_example :
    mbb_func_unregister_all
      (mbb_func_mregister 3 (hello ∷ bye ∷ []) taken).1
      (mbb_func_mregister 3 (hello ∷ bye ∷ []) taken).0
    ≡ (taken, hello ∷ bye ∷ [])
mbb_func_unregister_all-mbb_func_mregister_example =
    mbb_func_unregister_all-mbb_func_mregister 3 (hello ∷ bye ∷ []) taken (ground arith)
      (refl, (refl, tt))
