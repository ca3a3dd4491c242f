-- ===== src/Slicer/Tree.antt =====
-- What the slicer relies on in GLib's balanced tree: a search that walks down by a comparison
-- finds a key for which the comparison is 0, if there is one, provided that the comparison falls
-- along the keys (first positive, then 0, then negative). Which one of several is left open.
use mbb_devel.Prelude.{
  ℕ, ◌+◌, ◌≤◌, ◌<◌, ◌≡◌, arith, ◌⊎◌, inl, inr, true, false, ◌&&◌, none, some, List, [], ◌∷◌, not,
}
use mbb_devel.Prelude.Tests.{ltb, leb, Bool-cases, Option-cases}
use mbb_devel.Prelude.Int.{ℤ, is_zero, is_pos, is_neg}
use mbb_devel.Prelude.Lists.{All, get_elem?}
use mbb_devel.Slice.{Slice}
use mbb_devel.Slice.Laws.{upper, IsEnd}
use mbb_devel.Slicer.{Entry, Search}
use mbb_devel.Slicer.Partition.{Covers}

abbrev pub IsEntry : ℕ → ℕ → Slice → Type 0
IsEntry limit top s = (s.begin ≤ upper limit s.end) × IsEnd limit top s.end

module _ {D : Type 0} where
  abbrev pub Falls : (Slice → ℤ) → List (Entry D) → Type 0
  Falls cmp [] = Unit
  Falls cmp (e ∷ q) =
      (is_pos (cmp e.slice) ≡ false → All (λ f. is_pos (cmp f.slice) ≡ false) q)
      × (is_neg (cmp e.slice) ≡ true → All (λ f. is_neg (cmp f.slice) ≡ true) q)
      × Falls cmp q

pub record SearchLaws {D : Type 0} (search : Search D) : Type 0 where
  pub finds :
      (cmp : Slice → ℤ) (q : List (Entry D)) (i : ℕ)
      → Falls cmp q
      → search cmp q ≡ some i
      → (e : Entry D) × (get_elem? q i ≡ some e) × (is_zero (cmp e.slice) ≡ true)
  pub misses :
      (cmp : Slice → ℤ) (q : List (Entry D))
      → Falls cmp q
      → search cmp q ≡ none
      → All (λ e. is_zero (cmp e.slice) ≡ false) q

zero_sign : (z : ℤ) → is_zero z ≡ (not (is_pos z) && not (is_neg z))
zero_sign z = ground arith

-- A comparison with the keys from `a` to `b`.
module _ {D : Type 0} (limit top a b : ℕ) (cmp : Slice → ℤ) (top_open : (top ≡ 0) ⊎ (top ≡ limit))
    (pos_below : (s : Slice) → IsEntry limit top s → is_pos (cmp s) ≡ ltb (upper limit s.end) a)
    (neg_above : (s : Slice) → IsEntry limit top s → is_neg (cmp s) ≡ ltb b s.begin) where
  none_below :
      (lo hi : ℕ) (q : List (Entry D))
      → Covers limit top lo hi q
      → a ≤ lo
      → All (λ f. is_pos (cmp f.slice) ≡ false) q
  none_below lo hi [] h k = tt
  none_below lo hi (e ∷ q) (s, le, ok, h) k = (
    ground (arith, pos_below e.slice (ground arith, ok)),
    none_below (upper limit e.slice.end + 1) hi q h (omega arith),
  )

  All-above :
      (lo hi : ℕ) (q : List (Entry D))
      → Covers limit top lo hi q
      → b < lo
      → All (λ f. is_neg (cmp f.slice) ≡ true) q
  All-above lo hi [] h k = tt
  All-above lo hi (e ∷ q) (s, le, ok, h) k = (
    ground (arith, neg_above e.slice (ground arith, ok)),
    All-above (upper limit e.slice.end + 1) hi q h (omega arith),
  )

  Covers-Falls : (lo hi : ℕ) (q : List (Entry D)) → Covers limit top lo hi q → Falls cmp q
  Covers-Falls lo hi [] h = tt
  Covers-Falls lo hi (e ∷ q) (s, le, ok, h) = (
    λ not_pos.
        none_below (upper limit e.slice.end + 1) hi q h
          (ground (arith, pos_below e.slice (ground arith, ok))),
    λ neg.
        All-above (upper limit e.slice.end + 1) hi q h
          (ground (arith, neg_above e.slice (ground arith, ok))),
    Covers-Falls (upper limit e.slice.end + 1) hi q h,
  )

  some_hit :
      (lo hi : ℕ) (q : List (Entry D))
      → Covers limit top lo hi q
      → a ≤ b
      → lo ≤ a
      → a < hi
      → All (λ e. is_zero (cmp e.slice) ≡ false) q
      → ⊥
  some_hit lo hi [] h ab k k' z = omega arith
  some_hit lo hi (e ∷ q) (s, le, ok, h) ab k k' (z, zs) =
      elim (Bool-cases (leb a (upper limit e.slice.end))) [
        | inl here ↦ ground (
          arith,
          pos_below e.slice (ground arith, ok),
          neg_above e.slice (ground arith, ok),
          zero_sign (cmp e.slice),
        )
        | inr later ↦ some_hit (upper limit e.slice.end + 1) hi q h ab (ground arith) k' zs
      ]

  -- The search finds an entry that meets the keys from `a` to `b`.
  pub search_hit :
      (search : Search D)
      → SearchLaws search
      → (hi : ℕ) (q : List (Entry D)) → Covers limit top 0 hi q
      → a ≤ b
      → a < hi
      → (i : ℕ) × (search cmp q ≡ some i)
        × ((e : Entry D) × (get_elem? q i ≡ some e) × (is_zero (cmp e.slice) ≡ true))
  search_hit search law hi q h ab k = elim (Option-cases (search cmp q)) [
    | inl e ↦
        absurd (some_hit 0 hi q h ab (omega arith) k (law.misses cmp q (Covers-Falls 0 hi q h) e))
    | inr (i, e) ↦ (i, e, law.finds cmp q i (Covers-Falls 0 hi q h) e)
  ]
