-- ===== src/Registry/Index.antt =====
-- The tables of a data link together: each of them has a row for each object of the same list.
use mathlib.Core.Path.{subst}
use mathlib.Core.Option.{some-injective}
use mbb_devel.Prelude.{ℕ, zero, suc, ◌≡◌, refl, arith, some, List, [], ◌∷◌, ◌++◌}
use mbb_devel.Prelude.Lists.{All, get_elem?}
use mbb_devel.Prelude.Slists.{slist_remove}
use mbb_devel.Registry.{
  Key, self_key, Table, Entries, table_lookup, data_link_insert, data_link_unlink, data_link_lookup,
  data_link_steal,
}
use mbb_devel.Registry.Tables.{rows, NoneHas, Distinct, In, insert-rows, remove-rows, lookup-rows}

module _ {O : Type 0} (heap : ℕ → O) where
  -- The key of an object in the table of an entry.
  abbrev pub key_of : (ℕ → O → Key) → ℕ → Key
  key_of f x = f x (heap x)

  abbrev pub index : Entries O → List ℕ → List Table
  index [] ms = []
  index (f ∷ entries) ms = rows (key_of f) ms ∷ index entries ms

  -- No table has a key of the object.
  abbrev pub IsFresh : Entries O → ℕ → List ℕ → Type 0
  IsFresh entries x ms = All (λ f. NoneHas (key_of f) (key_of f x) ms) entries

  abbrev pub AllDistinct : Entries O → List ℕ → Type 0
  AllDistinct entries ms = All (λ f. Distinct (key_of f) ms) entries

  -- An object with new keys is inserted into every table.
  pub data_link_insert-index :
      (entries : Entries O) (x : ℕ) (ms : List ℕ)
      → IsFresh entries x ms
      → data_link_insert entries x (heap x) (index entries ms) ≡ index entries (ms ++ x ∷ [])
  unfolding data_link_insert
  data_link_insert-index [] x ms h = refl
  data_link_insert-index (f ∷ entries) x ms (h, hs) =
      rw (insert-rows (key_of f) x ms h, data_link_insert-index entries x ms hs) refl

  unlink-index :
      (entries : Entries O) (x : ℕ) (ms : List ℕ)
      → AllDistinct entries ms
      → In x ms
      → data_link_unlink entries x (heap x) (index entries ms) ≡ index entries (slist_remove x ms)
  unfolding data_link_unlink
  unlink-index [] x ms h i = refl
  unlink-index (f ∷ entries) x ms (h, hs) i =
      rw (remove-rows (key_of f) x ms h i, unlink-index entries x ms hs i) refl

  -- An object of the list is found in each table by its key there.
  pub data_link_lookup-index :
      (entries : Entries O) (n : ℕ) (f : ℕ → O → Key) (x : ℕ) (ms : List ℕ)
      → get_elem? entries n ≡ some f
      → AllDistinct entries ms
      → In x ms
      → data_link_lookup n (key_of f x) (index entries ms) ≡ some x
  unfolding data_link_lookup
  data_link_lookup-index [] n f x ms e h i = absurd (ground arith)
  data_link_lookup-index (g ∷ entries) zero f x ms e (h, hs) i =
      let same : g ≡ f = some-injective g f e in
      subst (λ f'. table_lookup (key_of f' x) (rows (key_of g) ms) ≡ some x) same
        (lookup-rows (key_of g) x ms h i)
  data_link_lookup-index (g ∷ entries) (suc n) f x ms e (h, hs) i =
      data_link_lookup-index entries n f x ms e hs i

  steal-index :
      (entries : Entries O) (x : ℕ) (ms : List ℕ)
      → get_elem? entries 0 ≡ some (λ y o. self_key y)
      → AllDistinct entries ms
      → In x ms
      → data_link_steal entries heap 0 (self_key x) (index entries ms)
        ≡ index entries (slist_remove x ms)
  unfolding data_link_steal
  steal-index entries x ms e h i =
      rw (data_link_steal, data_link_lookup-index entries 0 (λ y o. self_key y) x ms e h i)
        (unlink-index entries x ms h i)

  -- An object of the list is found in each table by its key there, and stealing it by itself takes
  -- it out of every table, when the keys in each table are distinct and the first table is that by
  -- address.
  pub data_link_steal-index :
      (entries : Entries O) (n : ℕ) (f : ℕ → O → Key) (x : ℕ) (ms : List ℕ)
      → get_elem? entries 0 ≡ some (λ y o. self_key y)
      → get_elem? entries n ≡ some f
      → AllDistinct entries ms
      → In x ms
      → (data_link_lookup n (key_of f x) (index entries ms) ≡ some x)
        × (data_link_steal entries heap 0 (self_key x) (index entries ms)
            ≡ index entries (slist_remove x ms))
  data_link_steal-index entries n f x ms e k h i =
      (data_link_lookup-index entries n f x ms k h i, steal-index entries x ms e h i)
