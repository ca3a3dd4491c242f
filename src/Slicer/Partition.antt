-- ===== src/Slicer/Partition.antt =====
-- The invariant of a slicer: its entries cover all keys from 0 to the limit, without gap or
-- overlap and in order; and what a change makes of one entry, in terms of numbers.
use mbb_devel.Prelude.{
  ℕ, ◌+◌, ◌-◌, ◌≤◌, ◌≡◌, ◌≢◌, refl, arith, ◌⊎◌, Bool, ◌&&◌, Option, none, some, List, [], ◌∷◌, ◌++◌,
}
use mathlib.Core.Path.{subst, sym}
use mbb_devel.Prelude.Tests.{ltb, leb, if◌then◌else◌}
use mbb_devel.Slice.{Slice}
use mbb_devel.Slice.Laws.{upper, IsEnd}
use mbb_devel.Slicer.{Entry}

module _ {D : Type 0} (limit top : ℕ) where
  -- The entries cover the keys from `lo` up to and without `hi`.
  abbrev pub Covers : ℕ → ℕ → List (Entry D) → Type 0
  Covers lo hi [] = lo ≡ hi
  Covers lo hi (e ∷ q) =
      (e.slice.begin ≡ lo)
      × (lo ≤ upper limit e.slice.end)
      × IsEnd limit top e.slice.end
      × Covers (upper limit e.slice.end + 1) hi q

  abbrev pub IsPartition : List (Entry D) → Type 0
  IsPartition q = Covers 0 (limit + 1) q

  pub Covers-append :
      (a b c : ℕ) (q r : List (Entry D)) → Covers a b q → Covers b c r → Covers a c (q ++ r)
  Covers-append a b c [] r h k = subst (λ x. Covers x c r) (sym h) k
  Covers-append a b c (e ∷ q) r (s, le, ok, h) k =
      (s, le, ok, Covers-append (upper limit e.slice.end + 1) b c q r h k)

-- A slice that may be asked for: not empty, within the limit, its end open or in use, and not
-- beginning at 1 (the key below it would be 0, which as an end means open).
pub record IsRequest (limit top : ℕ) (new : Slice) : Type 0 where
  pub begins : new.begin ≤ limit
  pub not_one : new.begin ≢ 1
  pub ends : (new.end ≡ 0) ⊎ IsEnd limit top new.end
  pub not_empty : new.begin ≤ upper limit new.end

module _ (limit : ℕ) where
  abbrev pub meets : Slice → Slice → Bool
  meets new s = leb new.begin (upper limit s.end) && leb s.begin (upper limit new.end)

  abbrev pub part_left : Slice → Slice → Option Slice
  part_left new s =
      if ltb s.begin new.begin then some (record { begin = s.begin; end = new.begin - 1 }) else none

  abbrev pub part_middle : Slice → Slice → Slice
  part_middle new s = record {
    begin = if ltb s.begin new.begin then new.begin else s.begin;
    end = if ltb (upper limit new.end) (upper limit s.end) then new.end else s.end;
  }

  abbrev pub part_right : Slice → Slice → Option Slice
  part_right new s =
      if ltb (upper limit new.end) (upper limit s.end)
      then some (record { begin = new.end + 1; end = s.end })
      else none

module _ {D : Type 0} where
  abbrev pub keep_part : Option D → Option Slice → List (Entry D)
  keep_part d none = []
  keep_part d (some s) = record { slice = s; content = d } ∷ []

  -- What a change by `f` makes of an entry.
  abbrev pub pieces : ℕ → (Option D → Option D) → Slice → Entry D → List (Entry D)
  pieces limit f new e =
      if meets limit new e.slice
      then keep_part e.content (part_left limit new e.slice)
        ++ (record { slice = part_middle limit new e.slice; content = f e.content }
            ∷ keep_part e.content (part_right limit new e.slice))
      else e ∷ []

  abbrev pub change_all : ℕ → (Option D → Option D) → Slice → List (Entry D) → List (Entry D)
  change_all limit f new [] = []
  change_all limit f new (e ∷ q) = pieces limit f new e ++ change_all limit f new q

module _ {D : Type 0} (limit top : ℕ) (top_open : (top ≡ 0) ⊎ (top ≡ limit))
    (f : Option D → Option D) (new : Slice) (request : IsRequest limit top new) where
  pieces-Covers :
      (lo : ℕ) (e : Entry D)
      → Covers limit top lo (upper limit e.slice.end + 1) (e ∷ [])
      → Covers limit top lo (upper limit e.slice.end + 1) (pieces limit f new e)
  pieces-Covers lo e h = ground arith

  -- A change keeps the entries a partition.
  pub change_all-Covers :
      (lo hi : ℕ) (q : List (Entry D))
      → Covers limit top lo hi q
      → Covers limit top lo hi (change_all limit f new q)
  change_all-Covers lo hi [] h = h
  change_all-Covers lo hi (e ∷ q) (s, le, ok, h) =
      Covers-append limit top lo (upper limit e.slice.end + 1) hi (pieces limit f new e)
        (change_all limit f new q) (pieces-Covers lo e (s, le, ok, refl))
        (change_all-Covers (upper limit e.slice.end + 1) hi q h)
