-- ===== src/Map/Queue.antt =====
-- The queues of a map, in terms of numbers: their order, and the pointer that one has at a key.
use mbb_devel.Prelude.{ℕ, ◌+◌, ◌≤◌, ◌<◌, ◌≡◌, refl, arith, ◌⊎◌, false, List, [], ◌∷◌}
use mbb_devel.Prelude.Tests.{ltb, leb, if◌then◌else◌}
use mbb_devel.Prelude.Lists.{All}
use mbb_devel.Slice.{Slice, SliceOps}
use mbb_devel.Slice.Laws.{KeyLaws, upper, slice_cmp_point_lem}
use mbb_devel.Slicer.Tree.{IsEntry}
use mbb_devel.Slicer.Partition.{meets}
use mbb_devel.Map.{MapEntry, find_value}

module _ (limit top : ℕ) where
  -- The entries are in order, apart from each other, and begin at `lo` or above.
  abbrev pub InOrder : ℕ → List MapEntry → Type 0
  InOrder lo [] = Unit
  InOrder lo (e ∷ q) =
      (lo ≤ e.slice.begin) × IsEntry limit top e.slice × InOrder (upper limit e.slice.end + 1) q

-- The pointer of the entry at a key, 0 if there is none.
abbrev pub value_at : ℕ → ℕ → List MapEntry → ℕ
value_at limit p [] = 0
value_at limit p (e ∷ q) =
    if ltb p e.slice.begin
    then 0
    else if leb p (upper limit e.slice.end)
    then e.value
    else value_at limit p q

-- No entry of the queue has a key of the slice.
abbrev pub Apart : ℕ → Slice → List MapEntry → Type 0
Apart limit s = All (λ e. meets limit s e.slice ≡ false)

pub InOrder-le :
    (limit top lo hi : ℕ) (q : List MapEntry)
    → lo ≤ hi
    → InOrder limit top hi q
    → InOrder limit top lo q
InOrder-le limit top lo hi [] h k = tt
InOrder-le limit top lo hi (e ∷ q) h (le, ok, k) = (omega arith, ok, k)

-- Below its first entry a queue has no pointer.
pub value_below :
    (limit top lo p : ℕ) (q : List MapEntry)
    → InOrder limit top lo q
    → p < lo
    → value_at limit p q ≡ 0
value_below limit top lo p [] h k = refl
value_below limit top lo p (e ∷ q) (le, ok, h) k = ground arith

module _ {ops : SliceOps} {limit : ℕ} (laws : KeyLaws ops limit) (top : ℕ)
    (top_open : (top ≡ 0) ⊎ (top ≡ limit)) where
  pub find_value-at :
      (p lo : ℕ) (q : List MapEntry)
      → p ≤ limit
      → InOrder limit top lo q
      → find_value ops p q ≡ value_at limit p q
  unfolding find_value
  find_value-at p lo [] k h = refl
  find_value-at p lo (e ∷ q) k (le, ok, h) =
      rw (slice_cmp_point_lem laws e.slice p (ground arith, ground arith) k)
        (ground (arith, find_value-at p (upper limit e.slice.end + 1) q k h))
