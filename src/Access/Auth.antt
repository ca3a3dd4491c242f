-- ===== src/Access/Auth.antt =====
-- mbbd/mbbauth.c: the methods of authentication, kept in a hash table by name. A method's function
-- gets the registry of users, a login and a secret, and returns the user's address.
use mathlib.Core.Path.{subst}
use mbb_devel.Prelude.{
  arith, ℕ, ◌≡◌, ◌↔◌, refl, inl, inr, Bool, true, false, Option, none, some, List, [], ◌∷◌,
}
use mbb_devel.Prelude.Tests.{◌==◌, if◌then◌else◌, Bool-cases, Option-cases}
use mbb_devel.Prelude.Text.{Bytes, codes}
use mbb_devel.Registry.{Registry, str_equal}
use mbb_devel.Objects.User.{User, mbb_user_get_by_name}
use mbb_devel.Access.{Modules, mbb_module_use, mbb_module_unuse, mbb_module_isrun}

-- `mbb_auth_func_t`; NULL is `none`.
abbrev pub AuthFunc : Type 0
AuthFunc = Registry User → Bytes → Option Bytes → Option ℕ

-- `struct mbb_auth_method`.
pub record AuthMethod : Type 0 where
  pub name : Bytes
  pub module_ptr : ℕ
  pub func : AuthFunc

abbrev pub Methods : Type 0
Methods = List AuthMethod

-- The method made while `current` is the module that is being loaded.
unfoldable pub mbb_auth_method_new : ℕ → Bytes → AuthFunc → AuthMethod
mbb_auth_method_new current name func = record { name = name; module_ptr = current; func = func }

unfoldable pub mbb_auth_method_is_alive : Modules → AuthMethod → Bool
mbb_auth_method_is_alive modules am =
    if am.module_ptr == 0 then true else mbb_module_isrun am.module_ptr modules

unfoldable pub methods_lookup : Bytes → Methods → Option AuthMethod
methods_lookup name [] = none
methods_lookup name (am ∷ ht) =
    let rest = methods_lookup name ht in if str_equal am.name name then some am else rest

unfoldable pub methods_insert : AuthMethod → Methods → Methods
methods_insert am [] = am ∷ []
methods_insert am (bm ∷ ht) =
    let rest = methods_insert am ht in if str_equal bm.name am.name then am ∷ ht else bm ∷ rest

unfoldable pub methods_remove : Bytes → Methods → Methods
methods_remove name [] = []
methods_remove name (am ∷ ht) =
    let rest = methods_remove name ht in if str_equal am.name name then ht else am ∷ rest

-- The secret of a user, and the one that is given, are equal texts.
abbrev pub same_secret : Option Bytes → Bytes → Bool
same_secret none secret = false
same_secret (some s) secret = str_equal s secret

unfoldable pub mbb_auth_plain : AuthFunc
mbb_auth_plain users login none = none
mbb_auth_plain users login (some secret) = elim (mbb_user_get_by_name login users) [
  | none ↦ none
  | some user ↦ if same_secret (users.heap user).secret secret then some user else none
]

abbrev pub or_plain : Option Bytes → Bytes
or_plain none = codes "plain"
or_plain (some t) = t

-- The user, and the modules after the use of the method's one.
unfoldable pub mbb_auth :
    Option Methods
    → Registry User
    → Modules
    → Bytes
    → Option Bytes
    → Option Bytes
    → Option ℕ × Modules
mbb_auth none users modules login secret type = (none, modules)
mbb_auth (some ht) users modules login secret type = elim (methods_lookup (or_plain type) ht) [
  | none ↦ (none, modules)
  | some am ↦ elim (mbb_module_use am.module_ptr modules) [
    | none ↦ (none, modules)
    | some modules' ↦ (am.func users login secret, mbb_module_unuse am.module_ptr modules')
  ]
]

-- The table after the call, and the method, or NULL when there is one of the name.
unfoldable pub mbb_auth_method_register :
    ℕ → Bytes → AuthFunc → Option Methods → Option Methods × Option AuthMethod
mbb_auth_method_register current name func none =
    let am = mbb_auth_method_new current name func in (some (methods_insert am []), some am)
mbb_auth_method_register current name func (some ht) = elim (methods_lookup name ht) [
  | some bm ↦ (some ht, none)
  | none ↦
      (let am = mbb_auth_method_new current name func in (some (methods_insert am ht), some am))
]

unfoldable pub mbb_auth_method_unregister : Option AuthMethod → Option Methods → Option Methods
mbb_auth_method_unregister none ht = ht
mbb_auth_method_unregister (some am) none = none
mbb_auth_method_unregister (some am) (some ht) = some (methods_remove am.name ht)

-- The user is registered under the login, and has the secret that is given.
abbrev pub Accepts : Registry User → Bytes → Option Bytes → ℕ → Type 0
Accepts users login none user = ⊥
Accepts users login (some secret) user =
    (mbb_user_get_by_name login users ≡ some user)
    × (same_secret (users.heap user).secret secret ≡ true)

-- The plain method returns a user exactly when a secret is given, the user is registered under
-- the login, and the user has a secret, which is equal to the one given.
mbb_auth_plain_iff :
    (users : Registry User) (login : Bytes) (secret : Option Bytes) (user : ℕ)
    → (mbb_auth_plain users login secret ≡ some user) ↔ Accepts users login secret user
unfolding mbb_auth_plain
mbb_auth_plain_iff users login none user = ((λ h. cc), (λ b. absurd b))
mbb_auth_plain_iff users login (some s) user =
    (accepted, (λ (e, k). rw (mbb_auth_plain, e, k) refl))
  where
    accepted : mbb_auth_plain users login (some s) ≡ some user → Accepts users login (some s) user
    accepted h = elim (Option-cases (mbb_user_get_by_name login users)) [
      | inl e ↦ absurd (ground arith)
      | inr (u, e) ↦ elim (Bool-cases (same_secret (users.heap u).secret s)) [
        | inl k ↦ subst (Accepts users login (some s)) (ground (arith, e, k)) (e, k)
        | inr k ↦ absurd (ground arith)
      ]
    ]
