-- ===== src/Vars.antt =====
-- mbbd/mbbvar.c and mbbvar.h: the variables of the daemon, by their names, and the tables of cached
-- values. A variable is found in a heap by its address. What variables point to is a memory, which
-- the functions of a definition, `op_read` and `op_write`, read and write through a pointer; both
-- are parameters, as is the session of the thread. A call of a function that is NULL has no result.
-- Locks, logging and freeing are left out.
pub mod Arguments
pub mod Requests
mod CacheRequests
pub mod Pointers
pub mod Secrecy
pub mod Cache
mod Tests
use mbb_devel.Prelude.{ℕ, Bool, true, false, Option, none, some, List, [], ◌∷◌, ◌++◌, ◌&&◌, not}
use mbb_devel.Prelude.Tests.{◌==◌, if◌then◌else◌}
use mbb_devel.Prelude.Text.{Bytes, codes}
use mbb_devel.Registry.{str_equal}
use mbb_devel.Access.{Modules, mbb_module_isrun, mbb_cap_check, mbb_cap_root}
use mbb_devel.Sessions.{
  Session, SessionVar, Sessions, set_session, mbb_session_add_var, mbb_session_del_var,
  mbb_session_var_get_data, mbb_session_get_cached,
}

-- GLib's hash tables with texts for keys.
abbrev pub Texts : Type 0 → Type 0
Texts A = List (Bytes × A)

module _ {A : Type 0} where
  unfoldable pub texts_lookup : Bytes → Texts A → Option A
  texts_lookup name [] = none
  texts_lookup name (r ∷ t) =
      let rest = texts_lookup name t in if str_equal r.0 name then some r.1 else rest

  unfoldable pub texts_replace : Bytes → A → Texts A → Texts A
  texts_replace name x [] = (name, x) ∷ []
  texts_replace name x (r ∷ t) =
      let rest = texts_replace name x t in if str_equal r.0 name then (name, x) ∷ t else r ∷ rest

  unfoldable pub texts_remove : Bytes → Texts A → Texts A
  texts_remove name [] = []
  texts_remove name (r ∷ t) =
      let rest = texts_remove name t in if str_equal r.0 name then t else r ∷ rest

  -- A table that may be NULL.
  abbrev pub lookup_texts : Bytes → Option (Texts A) → Option A
  lookup_texts name none = none
  lookup_texts name (some t) = texts_lookup name t

  abbrev pub or_no_texts : Option (Texts A) → Texts A
  or_no_texts none = []
  or_no_texts (some t) = t

-- `struct mbb_var_def`. The text that `op_read` returns may be NULL.
pub record VarDef (M : Type 0) : Type 0 where
  pub op_read : Option (ℕ → M → Option Bytes)
  pub op_write : Option (Bytes → ℕ → M → M × Bool)
  pub cap_read : ℕ
  pub cap_write : ℕ

-- The interface of a variable, with the private pointer of a base variable.
pub data VarKind : Type 0 where
  base_var : ℕ → VarKind
  session_var : VarKind

-- `struct mbb_var`; the module NULL is 0.
pub record Var (M : Type 0) : Type 0 where
  pub kind : VarKind
  pub def : VarDef M
  pub mod_ptr : ℕ
  pub name : Bytes

-- The variables, with what they refer to.
pub record VarState (M : Type 0) : Type 0 where
  pub heap : ℕ → Var M
  pub ht : Option (Texts ℕ)
  pub cache_global : Option (Texts Bytes)
  pub sessions : Sessions
  pub modules : Modules
  pub memory : M

-- MBB_SESSION_VAR_PREFIX.
abbrev pub mbb_session_var_prefix : Bytes
mbb_session_var_prefix = codes "@."

-- g_str_has_prefix.
unfoldable pub has_prefix : Bytes → Bytes → Bool
has_prefix s [] = true
has_prefix [] (c ∷ p) = false
has_prefix (d ∷ s) (c ∷ p) = (d == c) && has_prefix s p

-- The pointer that NULL stands for is 0.
abbrev pub data_pointer : Option ℕ → ℕ
data_pointer none = 0
data_pointer (some p) = p

abbrev pub is_base : VarKind → Bool
is_base (base_var p) = true
is_base session_var = false

-- `MbbVarError`.
pub data MbbVarError : Type 0 where
  var_error_unknown : MbbVarError
  var_error_readonly : MbbVarError
  var_error_invalid : MbbVarError
  var_error_session : MbbVarError

module _ {M : Type 0} where
  unfoldable pub mbb_var_is_alive : VarState M → Var M → Bool
  mbb_var_is_alive w var = if var.mod_ptr == 0 then true else mbb_module_isrun var.mod_ptr w.modules

  unfoldable pub mbb_var_can_read : Var M → ℕ → Bool
  mbb_var_can_read var cap = elim var.def.op_read [
    | none ↦ false
    | some f ↦ mbb_cap_check cap var.def.cap_read
  ]

  unfoldable pub mbb_var_is_readonly : Var M → Bool
  mbb_var_is_readonly var = elim var.def.op_write [ none ↦ true | some f ↦ false ]

  unfoldable pub mbb_var_can_write : Var M → ℕ → Bool
  mbb_var_can_write var cap =
      if mbb_var_is_readonly var then false else mbb_cap_check cap var.def.cap_write

  abbrev pub set_var : ℕ → Var M → VarState M → VarState M
  set_var x var w = record w { heap = λ y. if y == x then var else w.heap y }

  -- `mbb_var_new` with the interface's `var_init`: the variable is put at the address `x`.
  unfoldable pub mbb_base_var_new : ℕ → Bytes → VarDef M → ℕ → VarState M → VarState M
  mbb_base_var_new x name def ptr w =
      set_var x (record { kind = base_var ptr; def = def; mod_ptr = 0; name = name }) w

  unfoldable pub mbb_session_var_new : ℕ → Bytes → VarDef M → VarState M → VarState M
  mbb_session_var_new x name def w =
      let w' = set_var x (record { kind = session_var; def = def; mod_ptr = 0; name = name }) w in
      record w' { sessions = mbb_session_add_var x w'.sessions }

  -- What is left to `var_free` beside the memory: a session variable leaves the sessions.
  unfoldable pub mbb_var_free : ℕ → VarState M → VarState M
  mbb_var_free x w =
      if is_base (w.heap x).kind
      then w
      else record w { sessions = mbb_session_del_var x w.sessions }

  unfoldable pub mbb_var_get_by_name : Bytes → VarState M → Option ℕ
  mbb_var_get_by_name name w = elim (lookup_texts name w.ht) [
    | none ↦ none
    | some x ↦ if mbb_var_is_alive w (w.heap x) then some x else none
  ]

  unfoldable pub mbb_var_register : ℕ → VarState M → VarState M
  mbb_var_register x w = elim (lookup_texts (w.heap x).name w.ht) [
    | none ↦ record w { ht = some (texts_replace (w.heap x).name x (or_no_texts w.ht)) }
    | some y ↦ record w { ht = some (or_no_texts w.ht) }
  ]

  unfoldable pub mbb_var_unregister : ℕ → VarState M → VarState M
  mbb_var_unregister x w = elim w.ht [
    | none ↦ w
    | some t ↦ record w { ht = some (texts_remove (w.heap x).name t) }
  ]

  module _ (privs : ℕ → SessionVar M) (current : Option ℕ) where
    -- The pointer of a variable; a session's data may be made for it, by `op_new`.
    unfoldable pub var_data : ℕ → VarState M → VarState M × ℕ
    var_data x w = elim (w.heap x).kind [
      | base_var p ↦ (w, p)
      | session_var ↦
          (let r = mbb_session_var_get_data privs current x w.sessions w.memory in
            (record w { sessions = r.0; memory = r.1 }, data_pointer r.2))
    ]

    unfoldable pub mbb_var_read : ℕ → VarState M → Option (VarState M × Option Bytes)
    mbb_var_read x w = elim (w.heap x).def.op_read [
      | none ↦ none
      | some f ↦ (let r = var_data x w in some (r.0, f r.1 r.0.memory))
    ]

    unfoldable pub mbb_var_write : ℕ → Bytes → VarState M → Option (VarState M × Bool)
    mbb_var_write x arg w = elim (w.heap x).def.op_write [
      | none ↦ none
      | some f ↦
          (let r = var_data x w in
            let s = f arg r.1 r.0.memory in some (record r.0 { memory = s.0 }, s.1))
    ]

    -- The table for a name, or NULL; it is made if `create` is set.
    unfoldable pub mbb_var_get_cache_table :
        Bytes → Bool → VarState M → VarState M × Option (Texts Bytes)
    mbb_var_get_cache_table name create w =
        if has_prefix name mbb_session_var_prefix
        then (let r = mbb_session_get_cached current create w.sessions in
            (record w { sessions = r.0 }, r.1))
        else if create
        then (
          record w { cache_global = some (or_no_texts w.cache_global) },
          some (or_no_texts w.cache_global),
        )
        else (w, w.cache_global)

    -- The table for a name is changed in its place.
    unfoldable pub set_cache_table : Bytes → Texts Bytes → VarState M → VarState M
    set_cache_table name t w =
        if has_prefix name mbb_session_var_prefix
        then elim current [
          | none ↦ w
          | some s ↦ record w {
            sessions =
                set_session s (record (w.sessions.heap s) { cached_vars = some t }) w.sessions;
          }
        ]
        else record w { cache_global = some t }

    -- From the table.
    abbrev pub cache_replace : Bytes → Bytes → VarState M × Option (Texts Bytes) → VarState M
    cache_replace name value (w, none) = w
    cache_replace name value (w, some t) = set_cache_table name (texts_replace name value t) w

    unfoldable pub mbb_var_cache_add : Bytes → Bytes → VarState M → VarState M
    mbb_var_cache_add name value w = cache_replace name value (mbb_var_get_cache_table name true w)

    unfoldable pub mbb_var_cache_get : Bytes → VarState M → Option Bytes
    mbb_var_cache_get name w = lookup_texts name (mbb_var_get_cache_table name false w).1

    -- From what was read.
    abbrev pub save_value : Bytes → Option (VarState M × Option Bytes) → Option (VarState M)
    save_value name none = none
    save_value name (some (w, none)) = some w
    save_value name (some (w, some value)) = some (mbb_var_cache_add name value w)

    unfoldable pub mbb_var_cache_save : ℕ → VarState M → Option (VarState M)
    mbb_var_cache_save x w = save_value (w.heap x).name (mbb_var_read x w)

    abbrev pub only_vars : Option (VarState M × Bool) → Option (VarState M)
    only_vars none = none
    only_vars (some r) = some r.0

    unfoldable pub mbb_var_cache_load : ℕ → VarState M → Option (VarState M)
    mbb_var_cache_load x w =
        if mbb_var_is_readonly (w.heap x)
        then some w
        else elim (mbb_var_cache_get (w.heap x).name w) [
          | none ↦ some w
          | some value ↦ only_vars (mbb_var_write x value w)
        ]

    -- The value in the cache for a variable of a module, under its session name first.
    unfoldable pub cached_value : Bytes → VarState M → Option Bytes
    cached_value name w =
        let own = mbb_var_cache_get name w in
        if has_prefix name mbb_session_var_prefix
        then own
        else elim (mbb_var_cache_get (mbb_session_var_prefix ++ name) w) [
          | none ↦ own
          | some value ↦ some value
        ]

    -- The write of a cached value, whose failure is only logged.
    unfoldable pub restore_var : ℕ → VarState M → Option (VarState M)
    restore_var x w = elim (cached_value (w.heap x).name w) [
      | none ↦ some w
      | some value ↦ only_vars (mbb_var_write x value w)
    ]

    abbrev pub insert_var : ℕ → Option (VarState M) → Option (VarState M × Bool)
    insert_var x none = none
    insert_var x (some w) =
        some (record w { ht = some (texts_replace (w.heap x).name x (or_no_texts w.ht)) }, true)

    unfoldable pub mbb_var_mregister : ℕ → ℕ → VarState M → Option (VarState M × Bool)
    mbb_var_mregister x mod_ptr w = elim (lookup_texts (w.heap x).name w.ht) [
      | some y ↦ some (w, false)
      | none ↦
          (let w' = set_var x (record (w.heap x) { mod_ptr = mod_ptr }) w in
            if is_base (w'.heap x).kind && mbb_var_can_write (w'.heap x) mbb_cap_root
            then insert_var x (restore_var x w')
            else insert_var x (some w'))
    ]

    -- The error after a write.
    abbrev pub write_error : Option (VarState M × Bool) → Option (VarState M × Option MbbVarError)
    write_error none = none
    write_error (some (w, true)) = some (w, none)
    write_error (some (w, false)) = some (w, some var_error_invalid)

    -- The state, and the error if there is one.
    unfoldable pub mbb_var_assign :
        Bytes → Bytes → VarState M → Option (VarState M × Option MbbVarError)
    mbb_var_assign varname value w = elim (mbb_var_get_by_name varname w) [
      | none ↦ some (w, some var_error_unknown)
      | some x ↦
          if mbb_var_is_readonly (w.heap x)
          then some (w, some var_error_readonly)
          else if not (is_base (w.heap x).kind)
          then some (w, some var_error_session)
          else write_error (mbb_var_write x value w)
    ]
