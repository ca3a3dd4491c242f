-- ===== src/Registry.antt =====
-- mbbd/datalink.c and datalink.h: objects found by several keys, with one hash table for each key.
-- An object is an address, and the heap has its fields. A table is an association list with at
-- most one entry for a key; its key is the value of the field when the object was inserted.
pub mod Tables
pub mod Index
mod Tests
use mbb_devel.Prelude.{
  ℕ, ◌≡◌, Bool, true, false, Option, none, some, List, [], ◌∷◌, ◌++◌, not, ◌&&◌,
}
use mbb_devel.Prelude.Tests.{◌==◌, if◌then◌else◌}
use mbb_devel.Prelude.Lists.{get_elem?}
use mbb_devel.Slicer.{is_some}

-- The keys that the tables compare by: the address itself (g_direct_equal), the id (g_int_equal),
-- the name (g_pstr_equal) and the address of a gateway (ipv4_equal).
pub data Key : Type 0 where
  self_key : ℕ → Key
  id_key : ℕ → Key
  name_key : List ℕ → Key
  addr_key : ℕ → Key

-- g_str_equal of two names.
unfoldable pub str_equal : List ℕ → List ℕ → Bool
str_equal [] [] = true
str_equal [] (y ∷ ys) = false
str_equal (x ∷ xs) [] = false
str_equal (x ∷ xs) (y ∷ ys) = (x == y) && str_equal xs ys

unfoldable pub key_equal : Key → Key → Bool
key_equal (self_key a) (self_key b) = a == b
key_equal (id_key a) (id_key b) = a == b
key_equal (name_key a) (name_key b) = str_equal a b
key_equal (addr_key a) (addr_key b) = a == b
key_equal _ _ = false

abbrev pub Table : Type 0
Table = List (Key × ℕ)

-- g_hash_table_insert, g_hash_table_lookup and g_hash_table_remove.
unfoldable pub table_insert : Key → ℕ → Table → Table
table_insert k x [] = (k, x) ∷ []
table_insert k x (r ∷ t) =
    let rest = table_insert k x t in if key_equal r.0 k then (k, x) ∷ t else r ∷ rest

unfoldable pub table_lookup : Key → Table → Option ℕ
table_lookup k [] = none
table_lookup k (r ∷ t) = let rest = table_lookup k t in if key_equal r.0 k then some r.1 else rest

unfoldable pub table_remove : Key → Table → Table
table_remove k [] = []
table_remove k (r ∷ t) = let rest = table_remove k t in if key_equal r.0 k then t else r ∷ rest

-- The objects of a kind: `entries` has the key field of each table, for an object and its address.
abbrev pub Entries : Type 0 → Type 0
Entries O = List (ℕ → O → Key)

-- The heap of the objects, and the module's `dlink`, which is NULL until the first `join`.
pub record Registry (O : Type 0) : Type 0 where
  pub heap : ℕ → O
  pub dlink : Option (List Table)

unfoldable pub data_link_lookup : ℕ → Key → List Table → Option ℕ
data_link_lookup n k dl = elim (get_elem? dl n) [ none ↦ none | some t ↦ table_lookup k t ]

-- The objects that `func` is called on.
unfoldable pub values : Table → List ℕ
values [] = []
values (r ∷ t) = r.1 ∷ values t

unfoldable pub data_link_foreach : Option (List Table) → List ℕ
data_link_foreach none = []
data_link_foreach (some []) = []
data_link_foreach (some (t ∷ dl)) = values t

module _ {O : Type 0} where
  unfoldable pub data_link_new : Entries O → List Table
  data_link_new [] = []
  data_link_new (f ∷ entries) = [] ∷ data_link_new entries

  unfoldable pub data_link_insert : Entries O → ℕ → O → List Table → List Table
  data_link_insert [] x o dl = dl
  data_link_insert (f ∷ entries) x o [] = []
  data_link_insert (f ∷ entries) x o (t ∷ dl) =
      table_insert (f x o) x t ∷ data_link_insert entries x o dl

  unfoldable pub data_link_unlink : Entries O → ℕ → O → List Table → List Table
  data_link_unlink [] x o dl = dl
  data_link_unlink (f ∷ entries) x o [] = []
  data_link_unlink (f ∷ entries) x o (t ∷ dl) =
      table_remove (f x o) t ∷ data_link_unlink entries x o dl

  unfoldable pub data_link_steal : Entries O → (ℕ → O) → ℕ → Key → List Table → List Table
  data_link_steal entries heap n k dl = elim (data_link_lookup n k dl) [
    | none ↦ dl
    | some x ↦ data_link_unlink entries x (heap x) dl
  ]

  -- The second component is what `destroy_func` is called on.
  unfoldable pub data_link_remove :
      Entries O → (ℕ → O) → ℕ → Key → List Table → List Table × Option ℕ
  data_link_remove entries heap n k dl = elim (data_link_lookup n k dl) [
    | none ↦ (dl, none)
    | some x ↦ (data_link_unlink entries x (heap x) dl, some x)
  ]

  -- What the modules of the kinds of objects share: `join`, `detach`, `get_by_...`, `mod_name`.
  module _ (entries : Entries O) where
    unfoldable pub join : ℕ → Registry O → Registry O
    join x r =
        let dl : List Table = elim r.dlink [ none ↦ data_link_new entries | some dl ↦ dl ] in
        record r { dlink = some (data_link_insert entries x (r.heap x) dl) }

    unfoldable pub detach : ℕ → Registry O → Registry O
    detach x r = elim r.dlink [
      | none ↦ r
      | some dl ↦ record r { dlink = some (data_link_steal entries r.heap 0 (self_key x) dl) }
    ]

    unfoldable pub get_by : ℕ → Key → Registry O → Option ℕ
    get_by n k r = elim r.dlink [ none ↦ none | some dl ↦ data_link_lookup n k dl ]

    -- The heap after `obj->name = g_strdup(newname)`.
    unfoldable pub set_at : ℕ → O → (ℕ → O) → ℕ → O
    set_at x o heap y = if y == x then o else heap y

    unfoldable pub mod_name : (List ℕ → O → O) → ℕ → List ℕ → Registry O → Registry O × Bool
    mod_name rename x newname r = elim r.dlink [
      | none ↦ (r, false)
      | some dl ↦ if is_some (data_link_lookup 2 (name_key newname) dl) then (r, false) else (
        record {
          heap = set_at x (rename newname (r.heap x)) r.heap;
          dlink = some (
              data_link_insert entries x (rename newname (r.heap x))
                (data_link_steal entries r.heap 0 (self_key x) dl));
        },
        true,
      )
    ]
