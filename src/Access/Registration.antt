-- ===== src/Access/Registration.antt =====
-- The functions of a module in the table of mbbd/mbbfunc.c, while the module comes and goes.
use mbb_devel.Prelude.{
  ℕ, ◌+◌, ◌≡◌, ◌≢◌, refl, sym, ap, ◌∙◌, arith, inl, inr, true, false, Option, none, some, List, [],
  ◌∷◌,
}
use mbb_devel.Prelude.Tests.{◌==◌, Bool-cases, Option-cases}
use mbb_devel.Prelude.Lists.{All}
use mbb_devel.Prelude.Text.{Bytes}
use mbb_devel.Registry.{str_equal}
use mbb_devel.Registry.Tables.{str_equal_refl, str_equal→eq}
use mbb_devel.Access.{
  FuncStruct, Funcs, or_new, funcs_insert, funcs_lookup, funcs_remove, mregister, unregister_all,
  mbb_func_mregister, mbb_func_unregister_all,
}

-- No struct belongs to a module, as in the table of a module that is not loaded.
abbrev pub IsStatic : List FuncStruct → Type 0
IsStatic table = All (λ fs. fs.module_ptr ≡ 0) table

remove_comm :
    (a b : Bytes) (ht : Funcs)
    → funcs_remove a (funcs_remove b ht) ≡ funcs_remove b (funcs_remove a ht)
unfolding funcs_remove
remove_comm a b [] = refl
remove_comm a b (g ∷ ht) = elim (Bool-cases (str_equal g.name a)) [
  | inl ga ↦ elim (Bool-cases (str_equal g.name b)) [
    | inl gb ↦
        rw (ga, gb)
          (ap (λ n. funcs_remove n ht) (sym (str_equal→eq g.name a ga) ∙ str_equal→eq g.name b gb))
    | inr gb ↦ rw (gb, ga) refl
  ]
  | inr ga ↦ elim (Bool-cases (str_equal g.name b)) [
    | inl gb ↦ rw (gb, ga) rw gb refl
    | inr gb ↦ rw (gb, ga) rw gb (ap (λ t. g ∷ t) (remove_comm a b ht))
  ]
]

remove-insert :
    (fs : FuncStruct) (ht : Funcs)
    → funcs_lookup fs.name ht ≡ none
    → funcs_remove fs.name (funcs_insert fs ht) ≡ ht
unfolding funcs_remove funcs_insert funcs_lookup
remove-insert fs [] h = rw (str_equal_refl fs.name) refl
remove-insert fs (g ∷ ht) h = elim (Bool-cases (str_equal g.name fs.name)) [
  | inl e ↦ absurd (ground (arith, e, h))
  | inr e ↦ rw (e) rw (e) (ap (λ t. g ∷ t) (remove-insert fs ht (rw e at h)))
]

-- Removing one name goes past the removal of a table.
unregister-remove :
    (table : List FuncStruct) (a : Bytes) (ht : Funcs)
    → unregister_all table (funcs_remove a ht)
      ≡ (funcs_remove a (unregister_all table ht).0, (unregister_all table ht).1)
unfolding unregister_all
unregister-remove [] a ht = refl
unregister-remove (fs ∷ more) a ht = elim (Bool-cases (fs.module_ptr == 0)) [
  | inl e ↦ rw (e, unregister-remove more a ht) refl
  | inr e ↦
      rw (e, remove_comm fs.name a ht, unregister-remove more a (funcs_remove fs.name ht)) refl
]

unregister-mregister :
    (mod_ptr : ℕ) (table : List FuncStruct) (ht : Funcs) (count : ℕ)
    → mod_ptr ≢ 0
    → IsStatic table
    → (let r = mregister mod_ptr table ht count in unregister_all r.1 r.0 ≡ (ht, table))
unfolding mregister unregister_all
unregister-mregister mod_ptr [] ht count ne s = refl
unregister-mregister mod_ptr (fs ∷ more) ht count ne (z, s) =
    elim (Option-cases (funcs_lookup fs.name ht)) [
      | inr (g, e) ↦
          let keep : (fs.module_ptr == 0) ≡ true = ground arith in
          rw (e, mregister, keep, unregister-mregister mod_ptr more ht count ne s) refl
      | inl e ↦
          let gone : (mod_ptr == 0) ≡ false = ground arith in
          let fs' : FuncStruct = record fs { module_ptr = mod_ptr } in
          let r = mregister mod_ptr more (funcs_insert fs' ht) (count + 1) in
          rw
            (
              e,
              mregister,
              gone,
              unregister-remove r.1 fs.name r.0,
              unregister-mregister mod_ptr more (funcs_insert fs' ht) (count + 1) ne s,
              remove-insert fs' ht e,
            )
            (ap (λ p. (ht, record fs { module_ptr = p } ∷ more)) (sym z))
    ]

-- When the functions of a module, which belong to no module yet, are registered and then
-- unregistered, the table of functions and the structs of the module are as before. This holds
-- also when some of their names were taken already.
pub mbb_func_unregister_all-mbb_func_mregister :
    (mod_ptr : ℕ) (table : List FuncStruct) (ht : Option Funcs)
    → mod_ptr ≢ 0
    → IsStatic table
    → mbb_func_unregister_all
        (mbb_func_mregister mod_ptr table ht).1
        (mbb_func_mregister mod_ptr table ht).0
      ≡ (some (or_new ht), table)
unfolding mbb_func_unregister_all mbb_func_mregister
mbb_func_unregister_all-mbb_func_mregister mod_ptr table ht ne s =
    ap (λ r. (some r.0, r.1)) (unregister-mregister mod_ptr table (or_new ht) 0 ne s)
