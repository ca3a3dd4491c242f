-- ===== src/Registry/Tests.antt =====
-- A data link with two tables and the objects 1 and 2.
use mbb_devel.Prelude.{ℕ, ◌+◌, ◌≡◌, refl, inl, inr, some, [], ◌∷◌}
use mbb_devel.Prelude.Slists.{slist_remove}
use mbb_devel.Registry.{Entries, self_key, id_key, key_equal, data_link_lookup, data_link_steal}
use mbb_devel.Registry.Index.{index, data_link_steal-index}

-- The id of an object is ten more than its address.
abbrev ids : ℕ → ℕ
ids x = x + 10

abbrev two_entries : Entries ℕ
two_entries = (λ x o. self_key x) ∷ (λ x o. id_key o) ∷ []

data_link_steal-index_example :
    (data_link_lookup 1 (id_key 12) (index ids two_entries (1 ∷ 2 ∷ [])) ≡ some 2)
    × (data_link_steal two_entries ids 0 (self_key 2) (index ids two_entries (1 ∷ 2 ∷ []))
        ≡ index ids two_entries (1 ∷ []))
unfolding key_equal slist_remove
data_link_steal-index_example =
    data_link_steal-index ids two_entries 1 (λ x o. id_key o) 2 (1 ∷ 2 ∷ []) refl refl
      (((refl, tt), (tt, tt)), (((refl, tt), (tt, tt)), tt)) (inr (inl refl))
