-- ===== src/AddressMap/Chain.antt =====
-- The chain of a table's entry: what a search in it finds.
use mbb_devel.Prelude.{
  ℕ, ◌+◌, ◌≤◌, ◌<◌, ◌≡◌, refl, arith, inl, inr, Option, none, some, List, [], ◌∷◌, ◌≢◌, ◌∙◌,
}
use mbb_devel.Prelude.Tests.{◌==◌, ltb, leb, Bool-cases, if◌then◌else◌}
use mbb_devel.Prelude.Int.{ℤ, pos}
use mbb_devel.Prelude.Lists.{All}
use mbb_devel.Slice.Laws.{upper}
use mbb_devel.Slice.Keys.Instances.{time_max}
use mbb_devel.Slicer.Tree.{IsEntry}
use mbb_devel.Map.{MapEntry}
use mbb_devel.Map.Queue.{InOrder, value_at}
use mbb_devel.Units.{InetPoolEntry}
use mbb_devel.AddressMap.{
  UmapDataEntry, pointer_to_time, umap_get_data, search_chain, umap_data_search,
}

-- The owner of an entry of the pool; NULL is `none`.
abbrev pub owner_of : (ℕ → InetPoolEntry) → ℕ → Option ℕ
owner_of heap value = if value == 0 then none else some (heap value).owner

-- No pointer of the queue is NULL.
abbrev pub NotNull : List MapEntry → Type 0
NotNull = All (λ e. e.value ≢ 0)

module _ (heap : ℕ → InetPoolEntry) where
  abbrev data_of : MapEntry → UmapDataEntry
  data_of e = record {
    unit = (heap e.value).owner;
    min = pointer_to_time e.slice.begin;
    max = pointer_to_time e.slice.end;
  }

  -- The newest entry of the chain is not open, and ends before `lo`.
  abbrev pub Older : ℕ → List UmapDataEntry → Type 0
  Older lo [] = Unit
  Older lo (d ∷ chain) = (m : ℕ) × (d.max ≡ pos m) × (0 < m) × (m < lo)

  Older-none :
      (lo t : ℕ) (chain : List UmapDataEntry)
      → Older lo chain
      → lo ≤ t
      → search_chain chain (pos t) ≡ none
  unfolding search_chain
  Older-none lo t [] h k = refl
  Older-none lo t (d ∷ chain) (m, e, z, l) k = rw e (ground arith)

  Older-closed :
      (lo : ℕ) (t : ℤ) (chain : List UmapDataEntry)
      → Older lo chain
      → umap_data_search chain t ≡ search_chain chain t
  unfolding umap_data_search search_chain
  Older-closed lo t [] h = refl
  Older-closed lo t (d ∷ chain) (m, e, z, l) = rw e (ground arith)

  time_small : (p : ℕ) → p ≤ time_max → pointer_to_time p ≡ pos p
  unfolding pointer_to_time
  time_small p h = ground arith

  -- Behind an open entry the queue ends.
  nothing_after : (lo : ℕ) (q : List MapEntry) → InOrder time_max 0 lo q → time_max < lo → q ≡ []
  nothing_after lo [] h k = refl
  nothing_after lo (e ∷ q) (le, ok, h) k = absurd (ground arith)

  -- The value at the newest entry.
  at_open :
      (e : MapEntry) (t : ℕ) (chain : List UmapDataEntry)
      → IsEntry time_max 0 e.slice
      → e.slice.end ≡ 0
      → umap_data_search (data_of e ∷ chain) (pos t)
        ≡ (if ltb t e.slice.begin then search_chain chain (pos t) else some (heap e.value).owner)
  unfolding umap_data_search
  at_open e t chain ok z =
      rw (time_small e.slice.begin (ground arith), time_small e.slice.end (ground arith), z)
        (ground arith)

  at_closed :
      (e : MapEntry) (t : ℕ) (chain : List UmapDataEntry)
      → IsEntry time_max 0 e.slice
      → search_chain (data_of e ∷ chain) (pos t) ≡ (
          if ltb e.slice.end t
          then none
          else if ltb t e.slice.begin
          then search_chain chain (pos t)
          else some (heap e.value).owner)
  unfolding search_chain
  at_closed e t chain ok =
      rw (time_small e.slice.begin (ground arith), time_small e.slice.end (ground arith))
        (ground arith)

  Older-next :
      (e : MapEntry) (chain : List UmapDataEntry)
      → IsEntry time_max 0 e.slice
      → e.slice.end ≢ 0
      → Older (upper time_max e.slice.end + 1) (data_of e ∷ chain)
  Older-next e chain ok nz =
      (e.slice.end, time_small e.slice.end (ground arith), omega arith, ground arith)

  -- All entries of the queue begin behind the time: the search goes down to the older ones.
  chain_below :
      (lo hi t : ℕ) (q : List MapEntry) (chain : List UmapDataEntry)
      → InOrder time_max 0 lo q
      → Older hi chain
      → t < lo
      → umap_data_search (umap_get_data heap q chain) (pos t) ≡ search_chain chain (pos t)
  unfolding umap_get_data
  chain_below lo hi t [] chain h o k = Older-closed hi (pos t) chain o
  chain_below lo hi t (e ∷ q) chain (le, ok, h) o k = elim (Bool-cases (e.slice.end == 0)) [
    | inl z ↦
        rw (nothing_after (upper time_max e.slice.end + 1) q h (ground arith))
          (at_open e t chain ok (ground arith) ∙ ground arith)
    | inr nz ↦
        chain_below (upper time_max e.slice.end + 1) (upper time_max e.slice.end + 1) t q
          (data_of e ∷ chain) h (Older-next e chain ok (ground arith)) (ground arith)
        ∙ at_closed e t chain ok
        ∙ ground arith
  ]

  -- The chain made of a queue has at a time what the queue has.
  pub chain-value_at :
      (lo t : ℕ) (q : List MapEntry) (chain : List UmapDataEntry)
      → InOrder time_max 0 lo q
      → NotNull q
      → Older lo chain
      → lo ≤ t
      → t ≤ time_max
      → umap_data_search (umap_get_data heap q chain) (pos t)
        ≡ owner_of heap (value_at time_max t q)
  unfolding umap_get_data
  chain-value_at lo t [] chain h nn o k k' =
      Older-closed lo (pos t) chain o ∙ Older-none lo t chain o k
  chain-value_at lo t (e ∷ q) chain (le, ok, h) (nn, nns) o k k' =
      elim (Bool-cases (ltb t e.slice.begin)) [
        | inl less ↦
            chain_below e.slice.begin lo t (e ∷ q) chain (omega arith, ok, h) o (ground arith)
            ∙ Older-none lo t chain o k
            ∙ ground arith
        | inr geq ↦ elim (Bool-cases (leb t (upper time_max e.slice.end))) [
          | inl leq ↦ elim (Bool-cases (e.slice.end == 0)) [
            | inl z ↦
                rw (nothing_after (upper time_max e.slice.end + 1) q h (ground arith))
                  (at_open e t chain ok (ground arith) ∙ ground arith)
            | inr nz ↦
                chain_below (upper time_max e.slice.end + 1) (upper time_max e.slice.end + 1) t q
                  (data_of e ∷ chain) h (Older-next e chain ok (ground arith)) (ground arith)
                ∙ at_closed e t chain ok
                ∙ ground arith
          ]
          | inr greater ↦
              chain-value_at (upper time_max e.slice.end + 1) t q (data_of e ∷ chain) h nns
                (Older-next e chain ok (ground arith)) (ground arith) k'
              ∙ ground arith
        ]
      ]
