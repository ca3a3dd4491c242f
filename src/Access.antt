-- ===== src/Access.antt =====
-- Who may call what: the masks of capabilities (mbbd/mbbcap.h), the table of functions
-- (mbbd/mbbfunc.c), the methods of authentication (mbbd/mbbauth.c), the use of modules
-- (mbbd/mbbmodule.c) and the sessions of XML clients (mbbd/mbbsession.c, mbbd/mbbthreadxml.c).
-- Locks, logging and reference counts are left out. The body of a registered function is a
-- parameter, which finds its function by a number.
pub mod Auth
pub mod XmlClient
pub mod Reach
mod Registration
mod Tests
use mbb_devel.Prelude.{
  ℕ, ◌+◌, ◌-◌, ◌/◌, ◌%◌, ◌^◌, Bool, true, false, Option, none, some, List, [], ◌∷◌, ◌||◌, ◌&&◌, not,
}
use mbb_devel.Prelude.Tests.{ltb, ◌==◌, if◌then◌else◌}
use mbb_devel.Prelude.Bits.{bit_and}
use mbb_devel.Prelude.Text.{Bytes}
use mbb_devel.Registry.{str_equal}
use mbb_devel.XmlTag.{XmlTag}
use mbb_devel.Messages.{mbb_xml_msg_is_ok}

-- MBB_CAP_*.
abbrev pub mbb_cap_root : ℕ
mbb_cap_root = 1

abbrev pub mbb_cap_wheel : ℕ
mbb_cap_wheel = 2

abbrev pub mbb_cap_admin : ℕ
mbb_cap_admin = 2 ^ 4

abbrev pub mbb_cap_dummy : ℕ
mbb_cap_dummy = 2 ^ 31

abbrev pub mbb_cap_all_dummy : ℕ
mbb_cap_all_dummy = 2 ^ 32 - 1

-- MBB_CAP_IS_ROOT, MBB_CAP_IS_WHEEL and MBB_CAP_IS_DUMMY.
unfoldable pub mbb_cap_is_root : ℕ → Bool
mbb_cap_is_root mask = not (bit_and mask mbb_cap_root == 0)

unfoldable pub mbb_cap_is_wheel : ℕ → Bool
mbb_cap_is_wheel mask = not (bit_and mask mbb_cap_wheel == 0) || mbb_cap_is_root mask

unfoldable pub mbb_cap_is_dummy : ℕ → Bool
mbb_cap_is_dummy mask = not (bit_and mask mbb_cap_dummy == 0)

unfoldable pub mbb_cap_check : ℕ → ℕ → Bool
mbb_cap_check m mask =
    if m == 0 then mbb_cap_is_dummy mask else mbb_cap_is_root m || not (bit_and m mask == 0)

-- `struct mbb_func_struct`. The module NULL is 0.
pub record FuncStruct : Type 0 where
  pub name : Bytes
  pub func : ℕ
  pub cap_mask : ℕ
  pub module_ptr : ℕ

-- The part of `struct mbb_module` that a call uses: whether it runs, and the count of its uses.
pub record ModuleState : Type 0 where
  pub run : Bool
  pub use_count : ℕ

abbrev pub Modules : Type 0
Modules = ℕ → ModuleState

abbrev set_module : ℕ → ModuleState → Modules → Modules
set_module x m modules y = if y == x then m else modules y

-- `none` is FALSE.
unfoldable pub mbb_module_use : ℕ → Modules → Option Modules
mbb_module_use mod_ptr modules =
    if mod_ptr == 0
    then some modules
    else if not (modules mod_ptr).run
    then none
    else some (
        set_module mod_ptr
          (record (modules mod_ptr) { use_count = (modules mod_ptr).use_count + 1 }) modules)

-- The count is that of a gint, and a use came before.
unfoldable pub mbb_module_unuse : ℕ → Modules → Modules
mbb_module_unuse mod_ptr modules =
    if mod_ptr == 0
    then modules
    else set_module mod_ptr
        (record (modules mod_ptr) { use_count = (modules mod_ptr).use_count - 1 }) modules

unfoldable pub mbb_module_isrun : ℕ → Modules → Bool
mbb_module_isrun mod_ptr modules = (modules mod_ptr).run

-- The hash table of functions by name: insertion, lookup and removal.
abbrev pub Funcs : Type 0
Funcs = List FuncStruct

unfoldable pub funcs_insert : FuncStruct → Funcs → Funcs
funcs_insert fs [] = fs ∷ []
funcs_insert fs (g ∷ ht) =
    let rest = funcs_insert fs ht in if str_equal g.name fs.name then fs ∷ ht else g ∷ rest

unfoldable pub funcs_lookup : Bytes → Funcs → Option FuncStruct
funcs_lookup name [] = none
funcs_lookup name (g ∷ ht) =
    let rest = funcs_lookup name ht in if str_equal g.name name then some g else rest

unfoldable pub funcs_remove : Bytes → Funcs → Funcs
funcs_remove name [] = []
funcs_remove name (g ∷ ht) =
    let rest = funcs_remove name ht in if str_equal g.name name then ht else g ∷ rest

-- `ht`, which is NULL until the first registration.
abbrev pub or_new : Option Funcs → Funcs
or_new none = []
or_new (some ht) = ht

-- The loop of `mbb_func_register_all`, over a table up to its end.
unfoldable pub register_all : List FuncStruct → Funcs → Funcs
register_all [] ht = ht
register_all (fs ∷ more) ht = register_all more (funcs_insert fs ht)

unfoldable pub mbb_func_register_all : List FuncStruct → Option Funcs → Option Funcs
mbb_func_register_all table ht = some (register_all table (or_new ht))

-- The loop of `mbb_func_mregister`: the table, the structs as it leaves them, and the count.
unfoldable pub mregister : ℕ → List FuncStruct → Funcs → ℕ → Funcs × List FuncStruct × ℕ
mregister mod_ptr [] ht count = (ht, [], count)
mregister mod_ptr (fs ∷ more) ht count = elim (funcs_lookup fs.name ht) [
  | some g ↦ (let r = mregister mod_ptr more ht count in (r.0, fs ∷ r.1, r.2))
  | none ↦
      (let fs' = record fs { module_ptr = mod_ptr } in
        let r = mregister mod_ptr more (funcs_insert fs' ht) (count + 1) in (r.0, fs' ∷ r.1, r.2))
]

unfoldable pub mbb_func_mregister :
    ℕ → List FuncStruct → Option Funcs → Option Funcs × List FuncStruct × ℕ
mbb_func_mregister mod_ptr table ht =
    let r = mregister mod_ptr table (or_new ht) 0 in (some r.0, r.1, r.2)

unfoldable pub mbb_func_unregister : FuncStruct → Option Funcs → Option Funcs
mbb_func_unregister fs none = none
mbb_func_unregister fs (some ht) = some (funcs_remove fs.name ht)

-- The loop of `mbb_func_unregister_all`: the table and the structs after it.
unfoldable pub unregister_all : List FuncStruct → Funcs → Funcs × List FuncStruct
unregister_all [] ht = (ht, [])
unregister_all (fs ∷ more) ht =
    let kept = unregister_all more ht in
    let removed = unregister_all more (funcs_remove fs.name ht) in
    if fs.module_ptr == 0
    then (kept.0, fs ∷ kept.1)
    else (removed.0, record fs { module_ptr = 0 } ∷ removed.1)

unfoldable pub mbb_func_unregister_all :
    List FuncStruct → Option Funcs → Option Funcs × List FuncStruct
mbb_func_unregister_all table none = (none, table)
mbb_func_unregister_all table (some ht) = let r = unregister_all table ht in (some r.0, r.1)

-- The function found, and the modules after `mbb_module_use`; NULL is `none`.
unfoldable pub mbb_func_search : Bytes → ℕ → Option Funcs → Modules → Option (FuncStruct × Modules)
mbb_func_search name mask none modules = none
mbb_func_search name mask (some ht) modules = elim (funcs_lookup name ht) [
  | none ↦ none
  | some fs ↦
      if not (mbb_cap_check mask fs.cap_mask)
      then none
      else elim (mbb_module_use fs.module_ptr modules) [
        | none ↦ none
        | some modules' ↦ some (fs, modules')
      ]
]

-- The loop of `mbb_func_get_methods`, over the table in its order.
unfoldable pub get_methods : ℕ → Modules → Funcs → List Bytes → List Bytes
get_methods mask modules [] found = found
get_methods mask modules (fs ∷ ht) found = get_methods mask modules ht (
    if not (fs.module_ptr == 0) && not (mbb_module_isrun fs.module_ptr modules)
    then found
    else if mbb_cap_check mask fs.cap_mask
    then fs.name ∷ found
    else found)

unfoldable pub mbb_func_get_methods : ℕ → Modules → Funcs → List Bytes
mbb_func_get_methods mask modules ht = get_methods mask modules ht []

-- What the logger makes of the answer of a call: nothing, or a failure with what `msg` points to.
-- The outer `none` is a success; a `msg` that nothing was stored in is the inner `none`.
unfoldable pub failure : Option XmlTag → Option (Option (Option Bytes))
failure none = none
failure (some ans) = let r = mbb_xml_msg_is_ok ans in if r.0 then none else some r.1
