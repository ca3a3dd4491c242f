-- ===== src/Access/Reach.antt =====
-- The effects that a tag from an XML client can have, and the states that a client's thread can
-- reach while other threads change the shared state.
use mbb_devel.Prelude.{
  ℕ, ◌≡◌, ◌⊎◌, refl, sym, ap, ◌∙◌, inl, inr, arith, true, Option, none, some, List,
}
use mathlib.Core.Path.{subst}
use mbb_devel.Prelude.Tests.{Bool-cases, Option-cases}
use mbb_devel.Prelude.Text.{Bytes, codes}
use mbb_devel.Registry.{str_equal}
use mbb_devel.Variant.{Variant, variant_get_string}
use mbb_devel.XmlTag.{XmlTag, tag_name, xml_tag_get_attr}
use mbb_devel.Access.{
  FuncStruct, Funcs, Modules, funcs_lookup, mbb_cap_check, mbb_func_search, mbb_module_use,
}
use mbb_devel.Access.Auth.{mbb_auth}
use mbb_devel.Access.XmlClient.{
  Daemon, Client, push, push_response, mbb_session_auth, authenticate, auth_values, process_auth,
  mbb_thread_get_cap, mbb_func_call, answer, auth_answer, with_user, cap_of, call_found, after_call,
  request_attr, request_named, process_request, request_of, process_xml,
}

-- What the table of functions has under a name.
abbrev pub registered : Bytes → Option Funcs → Option FuncStruct
registered name none = none
registered name (some ht) = funcs_lookup name ht

-- The struct that a search gives is the one under the name, the capabilities permit it, and its
-- module has been taken into use.
abbrev IsFound : Bytes → ℕ → Option Funcs → Modules → Option (FuncStruct × Modules) → Type 0
IsFound name mask funcs modules none = Unit
IsFound name mask funcs modules (some (fs, modules')) =
    (registered name funcs ≡ some fs)
    × (mbb_cap_check mask fs.cap_mask ≡ true)
    × (mbb_module_use fs.module_ptr modules ≡ some modules')

search-IsFound :
    (name : Bytes) (mask : ℕ) (ht : Option Funcs) (modules : Modules)
    → IsFound name mask ht modules (mbb_func_search name mask ht modules)
unfolding mbb_func_search
search-IsFound name mask none modules = tt
search-IsFound name mask (some ht) modules = elim (Option-cases (funcs_lookup name ht)) [
  | inl e ↦ rw (mbb_func_search, e) tt
  | inr (g, e) ↦ elim (Bool-cases (mbb_cap_check mask g.cap_mask)) [
    | inr k ↦ rw (mbb_func_search, e, k) tt
    | inl k ↦ elim (Option-cases (mbb_module_use g.module_ptr modules)) [
      | inl u ↦ rw (mbb_func_search, e, k, u) tt
      | inr (m, u) ↦ rw (mbb_func_search, e, k, u) (e, k, u)
    ]
  ]
]

module _ {R : Type 0} (markup : Bytes → Bytes)
    (call : ℕ → XmlTag → Client → Daemon R → Daemon R × Option XmlTag)
    (strsplit : Bytes → List Bytes) where
  -- The functions, the methods, the users and the rest are as before.
  abbrev pub Untouched : Daemon R → Daemon R → Type 0
  Untouched d d' =
      (d'.funcs ≡ d.funcs) × (d'.methods ≡ d.methods) × (d'.users ≡ d.users) × (d'.other ≡ d.other)

  -- The tag is named `auth`, and the method of authentication accepts what it has, as this user.
  abbrev pub Authenticated : XmlTag → Daemon R → ℕ → Type 0
  Authenticated tag d user =
      (str_equal (tag_name tag) (codes "auth") ≡ true)
      × (login : Bytes) × (secret : Option Bytes) × (type : Option Bytes) × (auth_values strsplit
            tag
          ≡ (some login, secret, type))
      × ((mbb_auth d.methods d.users d.modules login secret type).0 ≡ some user)

  -- The function that the tag names was called, which is registered under that name, which the
  -- capabilities of the user permit and whose module runs; and it has changed what it did.
  abbrev pub Called : XmlTag → Daemon R → Client → ℕ → Daemon R → Type 0
  Called tag d te user d' =
      (var : Variant) × (name : Bytes) × (fs : FuncStruct) × (modules : Modules) × (xml_tag_get_attr
          tag (codes "name")
        ≡ some var)
      × (variant_get_string var ≡ some name)
      × (registered name d.funcs ≡ some fs)
      × (mbb_cap_check (d.users.heap user).cap_mask fs.cap_mask ≡ true)
      × (mbb_module_use fs.module_ptr d.modules ≡ some modules)
      × Untouched (call fs.func tag te (record d { modules = modules })).0 d'

  -- What one tag does to the thread's user and to the shared state.
  abbrev pub Effect : XmlTag → Daemon R → Client → Client × Daemon R → Type 0
  Effect tag d te (te', d') =
      ((te'.user ≡ te.user) × Untouched d d')
      ⊎ (((user : ℕ) × (te'.user ≡ some user) × Authenticated tag d user × Untouched d d')
          ⊎ ((user : ℕ) × (te.user ≡ some user) × (te'.user ≡ te.user) × Called tag d te user d'))

  abbrev pub OptionEffect : XmlTag → Daemon R → Client → Option (Client × Daemon R) → Type 0
  OptionEffect tag d te none = Unit
  OptionEffect tag d te (some r) = Effect tag d te r

  same_world : (d : Daemon R) → Untouched d d
  same_world d = (refl, refl, refl, refl)

  authenticate-Effect :
      (tag : XmlTag) (d : Daemon R) (te : Client) (v : Option Bytes × Option Bytes × Option Bytes)
      → str_equal (tag_name tag) (codes "auth") ≡ true
      → auth_values strsplit tag ≡ v
      → Effect tag d te (authenticate v d te)
  unfolding authenticate mbb_session_auth push
  authenticate-Effect tag d te (none, secret, type) named q = inl (refl, same_world d)
  authenticate-Effect tag d te (some login, secret, type) named q =
      go (mbb_auth d.methods d.users d.modules login secret type) refl
    where
      go :
          (r : Option ℕ × Modules)
          → mbb_auth d.methods d.users d.modules login secret type ≡ r
          → Effect tag d te (auth_answer d (with_user te r))
      go (none, m) e = inl (refl, same_world d)
      go (some user, m) e =
          inr (inl (user, refl, (named, login, secret, type, q, ap (λ r. r.0) e), same_world d))

  answer_user :
      (o : Option (Option XmlTag)) (te : Client) → (answer markup call o te).user ≡ te.user
  unfolding push_response push
  answer_user none te = refl
  answer_user (some none) te = refl
  answer_user (some (some ans)) te = refl

  request-Effect :
      (user : ℕ) (tag : XmlTag) (d : Daemon R) (te : Client) (var : Variant) (name : Option Bytes)
      → te.user ≡ some user
      → xml_tag_get_attr tag (codes "name") ≡ some var
      → variant_get_string var ≡ name
      → OptionEffect tag d te (request_named markup call name tag d te)
  unfolding request_named mbb_func_call mbb_thread_get_cap
  request-Effect user tag d te var none u a v = tt
  request-Effect user tag d te var (some name) u a v =
      go (mbb_func_search name (cap_of d te.user) d.funcs d.modules)
        (search-IsFound name (cap_of d te.user) d.funcs d.modules)
    where
      go :
          (o : Option (FuncStruct × Modules))
          → IsFound name (cap_of d te.user) d.funcs d.modules o
          → Effect tag d te (after_call markup call te (call_found markup call tag d te o))
      go none p = inl (answer_user none te, same_world d)
      go (some (fs, modules)) (found, k, used) = inr (
          inr (
            user,
            u,
            answer_user (some (call fs.func tag te (record d { modules = modules })).1) te,
            (var, name, fs, modules, a, v, found, rw u at k, used, (refl, refl, refl, refl)),
          ))

  attr-Effect :
      (user : ℕ) (tag : XmlTag) (d : Daemon R) (te : Client) (o : Option Variant)
      → te.user ≡ some user
      → xml_tag_get_attr tag (codes "name") ≡ o
      → OptionEffect tag d te (request_attr markup call o tag d te)
  unfolding push_response push
  attr-Effect user tag d te none u a = inl (refl, same_world d)
  attr-Effect user tag d te (some var) u a =
      request-Effect user tag d te var (variant_get_string var) u a refl

  guarded-Effect :
      (tag : XmlTag) (d : Daemon R) (te : Client) (o : Option ℕ)
      → te.user ≡ o
      → OptionEffect tag d te (request_of markup call o tag d te)
  unfolding request_of process_request push_response push
  guarded-Effect tag d te none u = inl (refl, same_world d)
  guarded-Effect tag d te (some user) u =
      attr-Effect user tag d te (xml_tag_get_attr tag (codes "name")) u refl

  -- A tag changes the functions, methods, users or the rest of the shared state only by a call of
  -- the function that is registered under the name in the tag, which the capabilities of the
  -- thread's user permit and whose module runs. It changes the thread's user only if it is named
  -- `auth`, and then to the user as whom its login, secret and type are accepted.
  pub process_xml-Effect :
      (tag : XmlTag) (d : Daemon R) (te : Client)
      → OptionEffect tag d te (process_xml markup call strsplit tag d te)
  unfolding process_xml process_auth push_response push
  process_xml-Effect tag d te = elim (Bool-cases (str_equal (tag_name tag) (codes "auth"))) [
    | inl a ↦ rw (process_xml, a) (authenticate-Effect tag d te (auth_values strsplit tag) a refl)
    | inr a ↦ elim (Bool-cases (str_equal (tag_name tag) (codes "request"))) [
      | inl r ↦ rw (process_xml, a, r) (guarded-Effect tag d te te.user refl)
      | inr r ↦ rw (process_xml, a, r) (inl (refl, same_world d))
    ]
  ]

  -- The states of one client's thread with the shared state: it starts without a user, it
  -- processes tags, and the other threads change the shared state.
  pub data Reaches : Client → Daemon R → Type 0 where
    started : {te : Client} → {d : Daemon R} → te.user ≡ none → Reaches te d
    processed :
        {te te' : Client}
        → {d d' : Daemon R} → (tag : XmlTag) → Reaches te d
        → process_xml markup call strsplit tag d te ≡ some (te', d')
        → Reaches te' d'
    others : {te : Client} → {d : Daemon R} → (d' : Daemon R) → Reaches te d → Reaches te d'

  Effect-of :
      (tag : XmlTag) (d d' : Daemon R) (te te' : Client)
      → process_xml markup call strsplit tag d te ≡ some (te', d')
      → Effect tag d te (te', d')
  Effect-of tag d d' te te' e = subst (OptionEffect tag d te) e (process_xml-Effect tag d te)

  -- The last tag of this run that set the thread's user was accepted as this user.
  abbrev pub Entered : {te : Client} → {d : Daemon R} → Reaches te d → ℕ → Type 0
  Entered (started u) user = ⊥
  Entered (others d' r) user = Entered r user
  Entered (processed {te} {te'} {d} {d'} tag r p) user =
      Authenticated tag d user ⊎ ((te'.user ≡ te.user) × Entered r user)

  -- When a client's thread has a user after a run, then a tag `auth` of that same run was accepted
  -- as this user in the state that it was processed in, and the tags after it have kept the user.
  pub Reaches-Authenticated :
      {te : Client}
      → {d : Daemon R} → (user : ℕ) (r : Reaches te d) → te.user ≡ some user
      → Entered r user
  Reaches-Authenticated user (started u) e = ground (arith, u, e)
  Reaches-Authenticated user (others d' r) e = Reaches-Authenticated user r e
  Reaches-Authenticated user (processed {te} {te'} {d} {d'} tag r p) e =
      elim (Effect-of tag d d' te te' p) [
        | inl (same, w) ↦ inr (same, Reaches-Authenticated user r (sym same ∙ e))
        | inr (inl (u, now, (named, login, secret, type, v, q), w)) ↦
            inl (named, login, secret, type, v, q ∙ sym now ∙ e)
        | inr (inr (u, was, same, c)) ↦ inr (same, Reaches-Authenticated user r (sym same ∙ e))
      ]
