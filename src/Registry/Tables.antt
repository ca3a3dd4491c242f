-- ===== src/Registry/Tables.antt =====
-- One table that has a row for each member of a list of objects, by one key field.
use mathlib.Core.Path.{subst, ap₂}
use mbb_devel.Prelude.{
  ◌⊎◌, inl, inr, ℕ, ◌≡◌, refl, ap, ◌∙◌, arith, true, false, none, some, List, [], ◌∷◌, ◌++◌,
}
use mbb_devel.Prelude.Tests.{◌==◌, Bool-cases, ==-refl, ==_iff}
use mbb_devel.Prelude.Lists.{All}
use mbb_devel.Prelude.Slists.{slist_remove}
use mbb_devel.Registry.{
  Key, self_key, id_key, name_key, addr_key, str_equal, key_equal, Table, table_insert,
  table_lookup, table_remove,
}

pub str_equal_refl : (xs : List ℕ) → str_equal xs xs ≡ true
unfolding str_equal
str_equal_refl [] = refl
str_equal_refl (x ∷ xs) = rw (==-refl x, str_equal_refl xs) refl

pub str_equal→eq : (s t : List ℕ) → str_equal s t ≡ true → s ≡ t
unfolding str_equal
str_equal→eq [] [] h = refl
str_equal→eq [] (d ∷ t) h = cc
str_equal→eq (c ∷ s) [] h = cc
str_equal→eq (c ∷ s) (d ∷ t) h = elim (Bool-cases (c == d)) [
  | inl e ↦ ap₂ ◌∷◌ ((==_iff c d).0 e) (str_equal→eq s t (ground (arith, e)))
  | inr e ↦ absurd (ground (arith, e))
]

pub key_equal_refl : (k : Key) → key_equal k k ≡ true
unfolding key_equal
key_equal_refl (self_key a) = ==-refl a
key_equal_refl (id_key a) = ==-refl a
key_equal_refl (name_key a) = str_equal_refl a
key_equal_refl (addr_key a) = ==-refl a

abbrev pub In : ℕ → List ℕ → Type 0
In x [] = ⊥
In x (a ∷ ms) = (a ≡ x) ⊎ In x ms

All-In : (P : ℕ → Type 0) (x : ℕ) (ms : List ℕ) → All P ms → In x ms → P x
All-In P x [] h i = absurd i
All-In P x (a ∷ ms) (p, ps) (inl e) = subst P e p
All-In P x (a ∷ ms) (p, ps) (inr i) = All-In P x ms ps i

module _ (key : ℕ → Key) where
  abbrev pub rows : List ℕ → Table
  rows [] = []
  rows (a ∷ ms) = (key a, a) ∷ rows ms

  -- No object of the list has the key.
  abbrev pub NoneHas : Key → List ℕ → Type 0
  NoneHas k = All (λ a. key_equal (key a) k ≡ false)

  -- No two objects of the list have one key.
  abbrev pub Distinct : List ℕ → Type 0
  Distinct [] = Unit
  Distinct (a ∷ ms) = All (λ b. key_equal (key a) (key b) ≡ false) ms × Distinct ms

  pub insert-rows :
      (x : ℕ) (ms : List ℕ)
      → NoneHas (key x) ms
      → table_insert (key x) x (rows ms) ≡ rows (ms ++ x ∷ [])
  unfolding table_insert
  insert-rows x [] h = refl
  insert-rows x (a ∷ ms) (h, hs) = rw h (ap (◌∷◌ (key a, a)) (insert-rows x ms hs))

  pub remove-rows :
      (x : ℕ) (ms : List ℕ)
      → Distinct ms
      → In x ms
      → table_remove (key x) (rows ms) ≡ rows (slist_remove x ms)
  unfolding table_remove slist_remove
  remove-rows x [] h i = absurd i
  remove-rows x (a ∷ ms) (h, hs) i = elim (Bool-cases (a == x)) [
    | inl here ↦
        (let same : a ≡ x = (==_iff a x).0 here in
          rw (here, ap (λ y. key_equal (key y) (key x)) same ∙ key_equal_refl (key x)) refl)
    | inr later ↦
        (let i' : In x ms = in_rest i later in
          rw (later, All-In (λ b. key_equal (key a) (key b) ≡ false) x ms h i')
            (ap (◌∷◌ (key a, a)) (remove-rows x ms hs i')))
  ]
    where
      in_rest : In x (a ∷ ms) → (a == x) ≡ false → In x ms
      in_rest (inl e) l = absurd (ground arith)
      in_rest (inr i) l = i

  pub lookup-rows :
      (x : ℕ) (ms : List ℕ) → Distinct ms → In x ms → table_lookup (key x) (rows ms) ≡ some x
  unfolding table_lookup
  lookup-rows x [] d i = absurd i
  lookup-rows x (a ∷ ms) d (inl e) =
      rw (ap (λ y. key_equal (key y) (key x)) e ∙ key_equal_refl (key x)) (ap some e)
  lookup-rows x (a ∷ ms) (h, hs) (inr i) =
      rw (All-In (λ b. key_equal (key a) (key b) ≡ false) x ms h i) (lookup-rows x ms hs i)

  pub lookup_absent : (k : Key) (ms : List ℕ) → NoneHas k ms → table_lookup k (rows ms) ≡ none
  unfolding table_lookup
  lookup_absent k [] h = refl
  lookup_absent k (a ∷ ms) (h, hs) = rw h (lookup_absent k ms hs)
