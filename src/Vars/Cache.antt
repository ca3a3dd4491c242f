-- ===== src/Vars/Cache.antt =====
-- Saving variables to the cache and loading them from it, mbbd/mbbvar.c.
use mbb_devel.Prelude.{
  ℕ, ◌≡◌, ◌≢◌, refl, ap, ◌∙◌, inl, inr, Bool, false, Option, none, some, [], ◌∷◌,
}
use mbb_devel.Prelude.Tests.{Bool-cases}
use mbb_devel.Prelude.Text.{Bytes}
use mbb_devel.Registry.{str_equal}
use mbb_devel.Registry.Tables.{str_equal_refl, str_equal→eq}
use mbb_devel.Sessions.{SessionVar}
use mbb_devel.Vars.{
  VarState, base_var, Texts, texts_lookup, texts_replace, lookup_texts, or_no_texts, has_prefix,
  mbb_session_var_prefix, mbb_var_is_readonly, var_data, mbb_var_read, mbb_var_write,
  mbb_var_get_cache_table, set_cache_table, mbb_var_cache_add, mbb_var_cache_get,
  mbb_var_cache_save, mbb_var_cache_load,
}
use mbb_devel.Vars.Pointers.{with_memory}

apart : (a b : Bytes) → a ≢ b → str_equal a b ≡ false
apart a b ne = elim (Bool-cases (str_equal a b)) [
  | inl e ↦ absurd (ne (str_equal→eq a b e))
  | inr e ↦ e
]

module _ {A : Type 0} where
  lookup-replace :
      (name : Bytes) (x : A) (t : Texts A) → texts_lookup name (texts_replace name x t) ≡ some x
  unfolding texts_lookup texts_replace
  lookup-replace name x [] = rw (str_equal_refl name) refl
  lookup-replace name x (r ∷ t) = elim (Bool-cases (str_equal r.0 name)) [
    | inl e ↦ rw (e) rw (str_equal_refl name) refl
    | inr e ↦ rw (e) rw (e) (lookup-replace name x t)
  ]

  lookup-replace_other :
      (other name : Bytes) (x : A) (t : Texts A)
      → name ≢ other
      → texts_lookup other (texts_replace name x t) ≡ texts_lookup other t
  unfolding texts_lookup texts_replace
  lookup-replace_other other name x [] ne = rw (apart name other ne) refl
  lookup-replace_other other name x (r ∷ t) ne = elim (Bool-cases (str_equal r.0 name)) [
    | inl e ↦
        let far : str_equal r.0 other ≡ false =
          rw (str_equal→eq r.0 name e) (apart name other ne) in
        rw (e, far) rw (apart name other ne) refl
    | inr e ↦ rw (e, lookup-replace_other other name x t ne) refl
  ]

module _ {M : Type 0} (privs : ℕ → SessionVar M) (current : Option ℕ) where
  -- A base variable at `x` with the pointer `p`, which can be read and written, and whose name is
  -- not that of a session variable.
  abbrev pub IsPlain :
      ℕ → ℕ → (ℕ → M → Option Bytes) → (Bytes → ℕ → M → M × Bool) → VarState M → Type 0
  IsPlain x p f g w =
      ((w.heap x).kind ≡ base_var p)
      × ((w.heap x).def.op_read ≡ some f)
      × ((w.heap x).def.op_write ≡ some g)
      × (has_prefix (w.heap x).name mbb_session_var_prefix ≡ false)

  -- The state with the value in the cache of the daemon.
  abbrev pub cached_as : Bytes → Bytes → VarState M → VarState M
  cached_as name value w = record w {
    cache_global = some (texts_replace name value (or_no_texts w.cache_global));
  }

  plain-read :
      (x p : ℕ) (f : ℕ → M → Option Bytes) (g : Bytes → ℕ → M → M × Bool) (w : VarState M)
      → IsPlain x p f g w
      → mbb_var_read privs current x w ≡ some (w, f p w.memory)
  unfolding mbb_var_read var_data
  plain-read x p f g w (k, e, u, n) = rw (mbb_var_read, var_data, e, k) refl

  plain-save :
      (x p : ℕ) (f : ℕ → M → Option Bytes) (g : Bytes → ℕ → M → M × Bool) (w : VarState M)
      (value : Bytes)
      → IsPlain x p f g w
      → f p w.memory ≡ some value
      → mbb_var_cache_save privs current x w ≡ some (cached_as (w.heap x).name value w)
  unfolding mbb_var_cache_save mbb_var_cache_add mbb_var_get_cache_table set_cache_table
      texts_replace
  plain-save x p f g w value (k, e, u, n) v =
      rw
        (
          mbb_var_cache_save,
          plain-read x p f g w (k, e, u, n),
          v,
          mbb_var_cache_add,
          mbb_var_get_cache_table,
          n,
          set_cache_table,
        )
        rw n refl

  plain-load :
      (x p : ℕ) (f : ℕ → M → Option Bytes) (g : Bytes → ℕ → M → M × Bool) (w : VarState M)
      (value : Bytes)
      → IsPlain x p f g w
      → lookup_texts (w.heap x).name w.cache_global ≡ some value
      → mbb_var_cache_load privs current x w ≡ some (with_memory (g value p w.memory).0 w)
  unfolding mbb_var_cache_load mbb_var_is_readonly mbb_var_cache_get mbb_var_get_cache_table
      mbb_var_write var_data
  plain-load x p f g w value (k, e, u, n) c =
      rw
        (
          mbb_var_cache_load, mbb_var_is_readonly, u, mbb_var_cache_get, mbb_var_get_cache_table, n,
          c, mbb_var_write, var_data, u, k,
        )
        refl

  others-kept :
      (name value other : Bytes) (w : VarState M) (m : M)
      → name ≢ other
      → mbb_var_cache_get privs current other (with_memory m (cached_as name value w))
        ≡ mbb_var_cache_get privs current other w
  unfolding mbb_var_cache_get mbb_var_get_cache_table texts_lookup
  others-kept name value other w m ne =
      elim (Bool-cases (has_prefix other mbb_session_var_prefix)) [
        | inl e ↦ rw (mbb_var_cache_get, mbb_var_get_cache_table, e) refl
        | inr e ↦ rw (mbb_var_cache_get, mbb_var_get_cache_table, e) (go w.cache_global)
      ]
    where
      go :
          (o : Option (Texts Bytes))
          → texts_lookup other (texts_replace name value (or_no_texts o)) ≡ lookup_texts other o
      go none = lookup-replace_other other name value [] ne
      go (some t) = lookup-replace_other other name value t ne

  -- A base variable that can be read and written is saved to the cache. After any change of the
  -- memory, loading it from the cache gives it the value back that it had, if what is written is
  -- what is read; the other names of the cache keep their values.
  pub mbb_var_cache_load-mbb_var_cache_save :
      (x p : ℕ) (f : ℕ → M → Option Bytes) (g : Bytes → ℕ → M → M × Bool) (w : VarState M)
      (value : Bytes) (m : M)
      → IsPlain x p f g w
      → f p w.memory ≡ some value
      → ((n : M) → f p (g value p n).0 ≡ some value)
      → (saved loaded : VarState M) × (mbb_var_cache_save privs current x w ≡ some saved)
        × (mbb_var_cache_load privs current x (with_memory m saved) ≡ some loaded)
        × (mbb_var_read privs current x loaded ≡ some (loaded, some value))
        × ((other : Bytes)
            → (w.heap x).name ≢ other
            → mbb_var_cache_get privs current other loaded
              ≡ mbb_var_cache_get privs current other w)
  mbb_var_cache_load-mbb_var_cache_save x p f g w value m h v law =
      let saved = cached_as (w.heap x).name value w in
      let loaded = with_memory (g value p m).0 saved in
      (
        saved,
        loaded,
        plain-save x p f g w value h v,
        plain-load x p f g (with_memory m saved) value h
            (lookup-replace (w.heap x).name value (or_no_texts w.cache_global)),
        plain-read x p f g loaded h ∙ ap (λ o. some (loaded, o)) (law m),
        λ other ne. others-kept (w.heap x).name value other w (g value p m).0 ne,
      )
