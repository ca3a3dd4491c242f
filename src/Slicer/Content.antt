-- ===== src/Slicer/Content.antt =====
-- What a slicer holds at a key, before and after a change of its entries.
use mbb_devel.Prelude.{
  ℕ, zero, suc, ◌+◌, ◌≤◌, ◌<◌, ◌≡◌, sym, arith, ◌⊎◌, inl, inr, Bool, true, ◌&&◌, Option, none, some,
  List, [], ◌∷◌, ◌++◌, ◌∙◌,
}
use mbb_devel.Prelude.Tests.{ltb, leb, if◌then◌else◌, Bool-cases}
use mbb_devel.Prelude.Int.{is_zero, is_pos, is_neg}
use mbb_devel.Prelude.Lists.{get_elem?}
use mbb_devel.Slice.{Slice, SliceOps}
use mbb_devel.Slice.Laws.{KeyLaws, upper, slice_cmp_point_lem}
use mbb_devel.Slicer.{Entry, Slicer, Search}
use mbb_devel.Slicer.Tree.{IsEntry, SearchLaws, search_hit}
use mbb_devel.Slicer.Partition.{Covers, IsPartition, IsRequest, pieces, change_all}
use mbb_devel.Slicer.Apply.{entry_at}
use mbb_devel.Slicer.Query.{point_cmp_func, slicer_find, entry_data}

-- The key lies in the slice.
abbrev pub inside : ℕ → Slice → ℕ → Bool
inside limit s p = leb s.begin p && leb p (upper limit s.end)

-- The data of the first entry that does not end below the key.
abbrev pub content_at : {D : Type 0} → ℕ → ℕ → List (Entry D) → Option D
content_at limit p [] = none
content_at limit p (e ∷ q) =
    if leb p (upper limit e.slice.end) then e.content else content_at limit p q

module _ {D : Type 0} (limit top : ℕ) (top_open : (top ≡ 0) ⊎ (top ≡ limit))
    (f : Option D → Option D) (new : Slice) (request : IsRequest limit top new) (p : ℕ) where
  at-pieces :
      (e : Entry D) (r : List (Entry D))
      → IsEntry limit top e.slice
      → e.slice.begin ≤ p
      → content_at limit p (pieces limit f new e ++ r) ≡ (
          if leb p (upper limit e.slice.end)
          then (if inside limit new p then f e.content else e.content)
          else content_at limit p r)
  at-pieces e r h k = ground arith

  pub at-change_all :
      (lo hi : ℕ) (q : List (Entry D))
      → Covers limit top lo hi q
      → lo ≤ p
      → p < hi
      → content_at limit p (change_all limit f new q)
        ≡ (if inside limit new p then f (content_at limit p q) else content_at limit p q)
  at-change_all lo hi [] h k k' = absurd (omega arith)
  at-change_all lo hi (e ∷ q) (s, le, ok, h) k k' =
      elim (Bool-cases (leb p (upper limit e.slice.end))) [
        | inl here ↦
            rw (at-pieces e (change_all limit f new q) (rw s le, ok) (omega arith)) (rw here)
        | inr later ↦
            rw (at-pieces e (change_all limit f new q) (rw s le, ok) (omega arith))
              (rw later (at-change_all (upper limit e.slice.end + 1) hi q h (ground arith) k'))
      ]

module _ {D : Type 0} (limit top : ℕ) (p : ℕ) where
  -- In a partition the entry that holds a key is the one that `content_at` finds.
  at_entry :
      (lo hi i : ℕ) (q : List (Entry D)) (e : Entry D)
      → Covers limit top lo hi q
      → get_elem? q i ≡ some e
      → inside limit e.slice p ≡ true
      → (content_at limit p q ≡ e.content) × (lo ≤ e.slice.begin)
  at_entry lo hi i [] e h at k = cc
  at_entry lo hi zero (x ∷ q) e (s, le, ok, h) at k = ground arith
  at_entry lo hi (suc i) (x ∷ q) e (s, le, ok, h) at k =
      ground (arith, at_entry (upper limit x.slice.end + 1) hi i q e h at k)

module _ {ops : SliceOps} {limit : ℕ} (laws : KeyLaws ops limit) (top : ℕ)
    (top_open : (top ≡ 0) ⊎ (top ≡ limit)) {D : Type 0} (search : Search D)
    (search_laws : SearchLaws search) (p : ℕ) (fits : p ≤ limit) where
  point_signs :
      (s : Slice)
      → IsEntry limit top s
      → (is_pos (point_cmp_func ops p s) ≡ ltb (upper limit s.end) p)
        × (is_neg (point_cmp_func ops p s) ≡ ltb p s.begin)
        × (is_zero (point_cmp_func ops p s) ≡ inside limit s p)
  unfolding point_cmp_func
  point_signs s h =
      rw (slice_cmp_point_lem laws s p (ground arith, ground arith) fits)
        (ground arith, ground arith, ground arith)

  -- `slicer_find` returns what the partition holds at the key.
  pub slicer_find-at :
      (s : Slicer D)
      → IsPartition limit top s.queue
      → slicer_find ops search p s ≡ content_at limit p s.queue
  unfolding slicer_find entry_data
  slicer_find-at s h =
      let (i, found, (e, at, zero_cmp)) =
        search_hit limit top p p (point_cmp_func ops p) top_open (λ t k. (point_signs t k).0)
          (λ t k. (point_signs t k).1) search search_laws (limit + 1) s.queue h (omega arith)
          (omega arith) in
      let is_entry : IsEntry limit top e.slice =
        entry_at limit top 0 (limit + 1) i s.queue e h at in
      rw (found, entry_data)
        (rw (at) (
          sym
            (at_entry limit top p 0 (limit + 1) i s.queue e h at
              (sym (point_signs e.slice is_entry).2 ∙ zero_cmp)).0))
