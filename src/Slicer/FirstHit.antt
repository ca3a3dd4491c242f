-- ===== src/Slicer/FirstHit.antt =====
-- A search of a queue from its front, which shows that the laws of the slicer's search can hold.
use mbb_devel.Prelude.{ℕ, suc, ◌≡◌, refl, arith, inl, inr, true, false, none, some, List, [], ◌∷◌}
use mbb_devel.Prelude.Tests.{if◌then◌else◌, Bool-cases, Option-cases}
use mbb_devel.Prelude.Int.{ℤ, is_zero}
use mbb_devel.Prelude.Lists.{All, get_elem?}
use mbb_devel.Slice.{Slice}
use mbb_devel.Slicer.{Entry, Search}
use mbb_devel.Slicer.Tree.{SearchLaws}

-- A search that returns the first hit.
abbrev pub first_hit : {D : Type 0} → Search D
first_hit cmp [] = none
first_hit cmp (e ∷ q) =
    let rest = first_hit cmp q in
    if is_zero (cmp e.slice) then some 0 else elim rest [ none ↦ none | some i ↦ some (suc i) ]

module _ {D : Type 0} where
  first_finds :
      (cmp : Slice → ℤ) (q : List (Entry D)) (i : ℕ)
      → first_hit cmp q ≡ some i
      → (e : Entry D) × (get_elem? q i ≡ some e) × (is_zero (cmp e.slice) ≡ true)
  first_finds cmp [] i h = cc
  first_finds cmp (e ∷ q) i h = elim (Bool-cases (is_zero (cmp e.slice))) [
    | inl hit ↦ let first : i ≡ 0 = ground arith in rw first (e, refl, hit)
    | inr miss ↦ elim (Option-cases (first_hit cmp q)) [
      | inl e' ↦ absurd (ground arith)
      | inr (j, e') ↦
          let (x, at, hit) = first_finds cmp q j e' in
          let next : i ≡ suc j = ground arith in rw next (x, at, hit)
    ]
  ]

  first_misses :
      (cmp : Slice → ℤ) (q : List (Entry D))
      → first_hit cmp q ≡ none
      → All (λ e. is_zero (cmp e.slice) ≡ false) q
  first_misses cmp [] h = tt
  first_misses cmp (e ∷ q) h = (ground arith, first_misses cmp q (ground arith))

  pub first_hit_laws : SearchLaws {D = D} first_hit
  first_hit_laws = record {
    finds = λ cmp q i fall h. first_finds cmp q i h;
    misses = λ cmp q fall h. first_misses cmp q h;
  }
