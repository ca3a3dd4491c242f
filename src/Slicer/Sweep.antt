-- ===== src/Slicer/Sweep.antt =====
-- The two loops of `slicer_apply_change` together change every entry of the queue, from whichever
-- entry they start that meets the slice.
use mbb_devel.Prelude.{
  ℕ, zero, suc, ◌+◌, ◌≤◌, ◌<◌, ◌≡◌, refl, sym, ap, arith, ◌⊎◌, inl, inr, Option, some, List, [],
  ◌∷◌, ◌++◌, ◌∙◌, true,
}
use mbb_devel.Prelude.Tests.{Bool-cases}
use mbb_devel.Prelude.Lists.{All, get_elem?, drop}
use mbb_devel.Slice.{Slice, SliceOps}
use mbb_devel.Slice.Laws.{KeyLaws, upper}
use mbb_devel.Slicer.{Entry, Work, DataOps, change_next, change_prev, links_before, join_links}
use mbb_devel.Slicer.Tree.{IsEntry}
use mbb_devel.Slicer.Partition.{Covers, IsRequest, meets, pieces, change_all}
use mbb_devel.Slicer.Change.{Acts, change_data-meets, change_data_apart}

module _ {D : Type 0} (limit top : ℕ) where
  -- The links of a `prev` chain cover the keys from `lo` up to and without `hi`.
  abbrev pub CoversBack : ℕ → ℕ → List (Entry D) → Type 0
  CoversBack lo hi [] = lo ≡ hi
  CoversBack lo hi (e ∷ before) =
      (upper limit e.slice.end + 1 ≡ hi)
      × IsEntry limit top e.slice
      × CoversBack lo e.slice.begin before

  -- A queue cut at one of its entries.
  pub split-Covers :
      (lo mid hi i : ℕ) (acc q : List (Entry D)) (e : Entry D)
      → CoversBack lo mid acc
      → Covers limit top mid hi q
      → get_elem? q i ≡ some e
      → CoversBack lo e.slice.begin (links_before i q acc)
        × Covers limit top e.slice.begin hi (drop i q)
        × ((rest : List (Entry D)) × (drop i q ≡ e ∷ rest))
  unfolding links_before
  split-Covers lo mid hi i acc [] e b h at = cc
  split-Covers lo mid hi zero acc (x ∷ q) e b (s, le, ok, h) at =
      let same : x ≡ e = ground arith in
      rw (← same) (rw s b, (refl, ground arith, ok, h), (q, refl))
  split-Covers lo mid hi (suc i) acc (x ∷ q) e b (s, le, ok, h) at =
      split-Covers lo (upper limit x.slice.end + 1) hi i (x ∷ acc) q e
        (refl, (ground arith, ok), rw s b) h at

module _ {D : Type 0} where
  pub join_drop :
      (i : ℕ) (acc q : List (Entry D))
      → join_links (links_before i q acc) (drop i q) ≡ join_links acc q
  unfolding links_before join_links
  join_drop zero acc q = refl
  join_drop (suc i) acc [] = refl
  join_drop (suc i) acc (e ∷ q) = join_drop i (e ∷ acc) q

  -- A property of the data of the entries that a change by the slice affects.
  abbrev pub Affected : ℕ → Slice → (Option D → Type 0) → List (Entry D) → Type 0
  Affected limit new P = All (λ e. meets limit new e.slice ≡ true → P e.content)

  module _ (Q : Entry D → Type 0) where
    pub All-drop : (i : ℕ) (q : List (Entry D)) → All Q q → All Q (drop i q)
    All-drop zero q h = h
    All-drop (suc i) [] h = h
    All-drop (suc i) (e ∷ q) (p, h) = All-drop i q h

    pub All-links_before :
        (i : ℕ) (acc q : List (Entry D)) → All Q acc → All Q q → All Q (links_before i q acc)
    unfolding links_before
    All-links_before zero acc q k h = k
    All-links_before (suc i) acc [] k h = k
    All-links_before (suc i) acc (e ∷ q) k (p, h) = All-links_before i (e ∷ acc) q (p, k) h

-- Entries on one side of the slice stay as they are.
module _ {D : Type 0} (limit top : ℕ) (f : Option D → Option D) (new : Slice) where
  change_all_above :
      (lo hi : ℕ) (q : List (Entry D))
      → Covers limit top lo hi q
      → upper limit new.end < lo
      → change_all limit f new q ≡ q
  change_all_above lo hi [] h k = refl
  change_all_above lo hi (e ∷ q) (s, le, ok, h) k =
      ground (arith, change_all_above (upper limit e.slice.end + 1) hi q h (omega arith))

  change_all_below :
      (lo hi : ℕ) (before q : List (Entry D))
      → CoversBack limit top lo hi before
      → hi ≤ new.begin
      → join_links before (change_all limit f new q) ≡ change_all limit f new (join_links before q)
  unfolding join_links
  change_all_below lo hi [] q h k = refl
  change_all_below lo hi (e ∷ before) q (s, (le, ok), h) k =
      ap (join_links before) apart
      ∙ change_all_below lo e.slice.begin before (e ∷ q) h (omega arith)
    where
      apart : e ∷ change_all limit f new q ≡ change_all limit f new (e ∷ q)
      apart = ground arith

-- The first entry of the queue does not end below the slice.
abbrev Reaches : {D : Type 0} → ℕ → Slice → List (Entry D) → Type 0
Reaches limit new [] = Unit {0}
Reaches limit new (e ∷ q) = new.begin ≤ upper limit e.slice.end

module _ {ops : SliceOps} {limit : ℕ} (laws : KeyLaws ops limit) (top : ℕ)
    (top_open : (top ≡ 0) ⊎ (top ≡ limit)) (new : Slice) (request : IsRequest limit top new)
    {S D E : Type 0} (dops : DataOps S D E) (dup_same : (d : Option D) → dops.dup d ≡ d)
    (op : Option D → Slice → Work S → Entry D × Work S) {f : Option D → Option D}
    {P : Option D → Type 0} {Good : S → Type 0} (acts : Acts op f P Good) where
  Covers-Reaches :
      (lo hi : ℕ) (q : List (Entry D))
      → Covers limit top lo hi q
      → new.begin ≤ lo
      → Reaches limit new q
  Covers-Reaches lo hi [] h k = tt
  Covers-Reaches lo hi (e ∷ q) (s, le, ok, h) k = omega arith

  pub change_next_lem :
      (lo hi : ℕ) (q : List (Entry D)) (w : Work S)
      → Covers limit top lo hi q
      → Reaches limit new q
      → Affected limit new P q
      → Good w.env
      → ((change_next ops dops op new q w).0 ≡ change_all limit f new q)
        × Good (change_next ops dops op new q w).1.env
  unfolding change_next
  change_next_lem lo hi [] w h r p g = (refl, g)
  change_next_lem lo hi (e ∷ q) w (s, le, ok, h) r (p, ps) g =
      elim (Bool-cases (meets limit new e.slice)) [
        | inl hit ↦
            let (w', eq, g') =
              change_data-meets laws top top_open new request dops dup_same op acts e w
                (rw s le, ok) hit (p hit) g in
            let (rest, g'') =
              change_next_lem (upper limit e.slice.end + 1) hi q w' h
                (Covers-Reaches (upper limit e.slice.end + 1) hi q h (omega arith)) ps g' in
            rw (eq, change_next) (ap (◌++◌ (pieces limit f new e)) rest, g'')
        | inr miss ↦
            rw
              (
                change_data_apart laws top top_open new request dops dup_same op acts e w
                    (rw s le, ok) miss,
                change_next,
              )
              (
                sym (change_all_above limit top f new lo hi (e ∷ q) (s, le, ok, h) (ground arith)),
                g,
              )
      ]

  pub change_prev_lem :
      (lo hi : ℕ) (before q : List (Entry D)) (w : Work S)
      → CoversBack limit top lo hi before
      → hi ≤ upper limit new.end
      → Affected limit new P before
      → Good w.env
      → ((change_prev ops dops op new before (change_all limit f new q) w).0
          ≡ change_all limit f new (join_links before q))
        × Good (change_prev ops dops op new before (change_all limit f new q) w).1.env
  unfolding change_prev join_links
  change_prev_lem lo hi [] q w h r p g = (refl, g)
  change_prev_lem lo hi (e ∷ before) q w (s, (le, ok), h) r (p, ps) g =
      elim (Bool-cases (meets limit new e.slice)) [
        | inl hit ↦
            let (w', eq, g') =
              change_data-meets laws top top_open new request dops dup_same op acts e w (le, ok) hit
                (p hit) g in
            rw (eq, change_prev)
              (change_prev_lem lo e.slice.begin before (e ∷ q) w' h (omega arith) ps g')
        | inr miss ↦
            rw
              (
                change_data_apart laws top top_open new request dops dup_same op acts e w (le, ok)
                    miss,
                change_prev,
              )
              (
                change_all_below limit top f new lo hi (e ∷ before) q (s, (le, ok), h)
                    (ground arith),
                g,
              )
      ]
