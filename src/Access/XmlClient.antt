-- ===== src/Access/XmlClient.antt =====
-- mbbd/mbbthreadxml.c, with `mbb_func_call` of mbbd/mbbfunc.c and `mbb_session_auth` of
-- mbbd/mbbsession.c: what a client's thread does with a tag that was parsed. The messages pushed
-- are the list of their texts. A request whose name is no text stops the program, so it has no
-- result.
use mbb_devel.Prelude.{ℕ, Bool, true, false, Option, none, some, List, [], ◌∷◌, ◌++◌}
use mbb_devel.Prelude.Tests.{if◌then◌else◌}
use mbb_devel.Prelude.Text.{Bytes, codes}
use mbb_devel.Registry.{Registry, str_equal}
use mbb_devel.Variant.{Variant, variant_get_string}
use mbb_devel.XmlTag.{XmlTag, no_tags, then_tag, tag_name, xml_tag_get_attr}
use mbb_devel.XmlTag.Values.{XmlTagVar, Stored, untouched, text, converted, xml_tag_get_valuesv}
use mbb_devel.XmlTag.Print.{xml_tag_to_string_escape}
use mbb_devel.Objects.User.{User}
use mbb_devel.Access.{Funcs, Modules, FuncStruct, mbb_func_search, mbb_module_unuse}
use mbb_devel.Access.Auth.{Methods, mbb_auth}

-- What the threads share; `other` is all that the functions may change beside it.
pub record Daemon (R : Type 0) : Type 0 where
  pub funcs : Option Funcs
  pub methods : Option Methods
  pub modules : Modules
  pub users : Registry User
  pub other : R

-- `struct thread_env` and its session, as far as they are used here. The user NULL is `none`.
pub record Client : Type 0 where
  pub user : Option ℕ
  pub messages : List Bytes

-- `mbb_msg_queue_push_alloc` and `mbb_msg_queue_push_const`.
unfoldable pub push : Bytes → Client → Client
push output te = record te { messages = te.messages ++ output ∷ [] }

abbrev pub response_text : Bytes → Option Bytes → Bytes
response_text result none = codes "<response result='" ++ result ++ codes "'/>"
response_text result (some desc) =
    codes "<response result='" ++ result ++ codes "' desc='" ++ desc ++ codes "'/>"

unfoldable pub push_response : Client → Bytes → Option Bytes → Client
push_response te result desc = push (response_text result desc) te

-- MSG_AUTH_FAILED and MSG_AUTH_OK.
abbrev pub msg_auth_failed : Bytes
msg_auth_failed = codes "<auth result='failed'/>"

abbrev pub msg_auth_ok : Bytes
msg_auth_ok = codes "<auth result='ok'/>"

-- An optional attribute of the tag itself, converted by `var_conv_str`.
abbrev pub own_attr : Bytes → XmlTagVar (Option Bytes)
own_attr name = record { path = none; name = some name; conv = some (λ s. some s); optional = true }

abbrev pub value_of : Stored (Option Bytes) → Option Bytes
value_of untouched = none
value_of (text t) = t
value_of (converted t) = t

-- `login`, `secret` and `type` after the scan of the tag.
unfoldable pub auth_values :
    (Bytes → List Bytes) → XmlTag → Option Bytes × Option Bytes × Option Bytes
auth_values strsplit tag =
    elim (xml_tag_get_valuesv strsplit tag
      (own_attr (codes "login") ∷ own_attr (codes "secret") ∷ own_attr (codes "type") ∷ [])).0 [
        | l ∷ s ∷ t ∷ rest ↦ (value_of l, value_of s, value_of t)
        | _ ↦ (none, none, none)
      ]

-- From the result of `mbb_auth`: the session, the result, and the modules.
abbrev pub with_user : Client → Option ℕ × Modules → Client × Bool × Modules
with_user te (none, modules) = (te, false, modules)
with_user te (some user, modules) = (record te { user = some user }, true, modules)

module _ {R : Type 0} where
  unfoldable pub mbb_session_auth :
      Daemon R → Client → Bytes → Option Bytes → Option Bytes → Client × Bool × Modules
  mbb_session_auth d te login secret type =
      with_user te (mbb_auth d.methods d.users d.modules login secret type)

  -- What is pushed, from that result.
  abbrev pub auth_answer : Daemon R → Client × Bool × Modules → Client × Daemon R
  auth_answer d (te, ok, modules) =
      (push (if ok then msg_auth_ok else msg_auth_failed) te, record d { modules = modules })

  -- From the values of the tag.
  unfoldable pub authenticate :
      Option Bytes × Option Bytes × Option Bytes → Daemon R → Client → Client × Daemon R
  authenticate (none, secret, type) d te = (push msg_auth_failed te, d)
  authenticate (some login, secret, type) d te =
      auth_answer d (mbb_session_auth d te login secret type)

  unfoldable pub process_auth :
      (Bytes → List Bytes) → XmlTag → Daemon R → Client → Client × Daemon R
  process_auth strsplit tag d te = authenticate (auth_values strsplit tag) d te

  -- The capabilities of a user, if there is one.
  abbrev pub cap_of : Daemon R → Option ℕ → ℕ
  cap_of d none = 0
  cap_of d (some user) = (d.users.heap user).cap_mask

  unfoldable pub mbb_thread_get_cap : Daemon R → Client → ℕ
  mbb_thread_get_cap d te = cap_of d te.user

  -- `call` is what the function with a number does for a thread.
  -- `markup` is GLib's escaping of a text.
  module _ (markup : Bytes → Bytes)
      (call : ℕ → XmlTag → Client → Daemon R → Daemon R × Option XmlTag) where
    -- From the function found.
    abbrev pub call_found :
        XmlTag
        → Daemon R
        → Client
        → Option (FuncStruct × Modules)
        → Daemon R × Option (Option XmlTag)
    call_found tag d te none = (d, none)
    call_found tag d te (some (fs, modules)) =
        let r = call fs.func tag te (record d { modules = modules }) in
        (record r.0 { modules = mbb_module_unuse fs.module_ptr r.0.modules }, some r.1)

    -- The answer, NULL or not, or `none` for FALSE.
    unfoldable pub mbb_func_call :
        Bytes → XmlTag → Daemon R → Client → Daemon R × Option (Option XmlTag)
    mbb_func_call name tag d te =
        call_found tag d te (mbb_func_search name (mbb_thread_get_cap d te) d.funcs d.modules)

    abbrev pub answer : Option (Option XmlTag) → Client → Client
    answer none te = push_response te (codes "error") (some (codes "no such function"))
    answer (some none) te = push_response te (codes "ok") none
    answer (some (some ans)) te = push (xml_tag_to_string_escape markup (then_tag ans no_tags)) te

    -- From the result of the call.
    abbrev pub after_call : Client → Daemon R × Option (Option XmlTag) → Client × Daemon R
    after_call te (d, o) = (answer o te, d)

    unfoldable pub request_named :
        Option Bytes → XmlTag → Daemon R → Client → Option (Client × Daemon R)
    request_named none tag d te = none
    request_named (some name) tag d te = some (after_call te (mbb_func_call name tag d te))

    -- From the attribute `name`.
    abbrev pub request_attr :
        Option Variant → XmlTag → Daemon R → Client → Option (Client × Daemon R)
    request_attr none tag d te =
        some (push_response te (codes "error") (some (codes "bad format")), d)
    request_attr (some var) tag d te = request_named (variant_get_string var) tag d te

    unfoldable pub process_request : XmlTag → Daemon R → Client → Option (Client × Daemon R)
    process_request tag d te = request_attr (xml_tag_get_attr tag (codes "name")) tag d te

    -- `if (te->ss.user == NULL) ... else process_request`.
    unfoldable pub request_of : Option ℕ → XmlTag → Daemon R → Client → Option (Client × Daemon R)
    request_of none tag d te =
        some (push_response te (codes "error") (some (codes "unauthorized")), d)
    request_of (some user) tag d te = process_request tag d te

    unfoldable pub process_xml :
        (Bytes → List Bytes) → XmlTag → Daemon R → Client → Option (Client × Daemon R)
    process_xml strsplit tag d te =
        if str_equal (tag_name tag) (codes "auth")
        then some (process_auth strsplit tag d te)
        else if str_equal (tag_name tag) (codes "request")
        then request_of te.user tag d te
        else some (push_response te (codes "error") (some (codes "unknown query")), d)
