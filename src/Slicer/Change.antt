-- ===== src/Slicer/Change.antt =====
-- One step of a change, `change_data`, against its description by numbers.
use mbb_devel.Prelude.{
  ℕ, ◌≡◌, refl, arith, ◌∙◌, ◌⊎◌, true, false, Option, none, some, List, [], ◌∷◌, ◌++◌,
}
use mbb_devel.Prelude.Int.{is_zero}
use mbb_devel.Slice.{Slice, SliceOps, slice_cmp, slice_cross, slice_cmp}
use mbb_devel.Slice.Laws.{
  KeyLaws, slice_cmp_lem, slice_cross_meets, cross_left_lem, cross_right_lem, cross_middle_lem,
}
use mbb_devel.Slicer.{
  Entry, Work, DataOps, insert_dup, insert_part, entry_free, replace_entry, change_data,
}
use mbb_devel.Slicer.Tree.{IsEntry}
use mbb_devel.Slicer.Partition.{
  IsRequest, meets, part_left, part_middle, part_right, pieces, keep_part,
}

-- While the state is good, the operation computes `f` on data with the property `P`, puts the
-- result in the slice that it is given, and keeps the state good.
pub record Acts {S D : Type 0} (op : Option D → Slice → Work S → Entry D × Work S)
    (f : Option D → Option D) (P : Option D → Type 0) (Good : S → Type 0) : Type 0 where
  pub result :
      (d : Option D) (s : Slice) (w : Work S)
      → P d
      → Good w.env
      → (op d s w).0 ≡ record { slice = s; content = f d }
  pub good : (d : Option D) (s : Slice) (w : Work S) → P d → Good w.env → Good (op d s w).1.env

module _ {ops : SliceOps} {limit : ℕ} (laws : KeyLaws ops limit) (top : ℕ)
    (top_open : (top ≡ 0) ⊎ (top ≡ limit)) (new : Slice) (request : IsRequest limit top new) where
  pub cmp_meets :
      (s : Slice) → IsEntry limit top s → is_zero (slice_cmp ops s new) ≡ meets limit new s
  cmp_meets s h =
      rw (slice_cmp_lem laws s new (ground arith, ground arith) (ground arith, ground arith))
        (ground arith)

  pub cross_parts :
      (s : Slice)
      → IsEntry limit top s
      → meets limit new s ≡ true
      → slice_cross ops s new ≡ record {
        left = part_left limit new s;
        middle = some (part_middle limit new s);
        right = part_right limit new s;
      }
  cross_parts s h hit =
      slice_cross_meets ops s new (cmp_meets s h ∙ hit)
      ∙ rw
          (
            cross_left_lem laws top top_open s new (ground arith, ground arith)
                (ground arith, ground arith),
            cross_right_lem laws top top_open s new h.1 request.ends,
            cross_middle_lem laws top top_open s new (ground arith) request.begins h.1 request.ends,
          )
          refl

  module _ {S D E : Type 0} (dops : DataOps S D E) (dup_same : (d : Option D) → dops.dup d ≡ d)
      (op : Option D → Slice → Work S → Entry D × Work S) {f : Option D → Option D}
      {P : Option D → Type 0} {Good : S → Type 0} (acts : Acts op f P Good) where
    dup_part :
        (d : Option D) (s : Option Slice) (w : Work S)
        → ((insert_part ops dops (insert_dup ops dops) d s w).0 ≡ keep_part d s)
          × ((insert_part ops dops (insert_dup ops dops) d s w).1.env ≡ w.env)
    unfolding insert_part insert_dup
    dup_part d none w = (refl, refl)
    dup_part d (some s) w = (rw (dup_same d), refl)

    replace_entry_lem :
        (l r : Option Slice) (m : Slice) (e : Entry D) (w : Work S)
        → P e.content
        → Good w.env
        → let res =
            replace_entry ops dops op (record { left = l; middle = some m; right = r }) e w in
          (res.0
            ≡ keep_part e.content l
              ++ (record { slice = m; content = f e.content } ∷ keep_part e.content r))
          × Good res.1.env
    unfolding replace_entry entry_free
    replace_entry_lem l r m e w p g = (
      rw
          (
            (dup_part e.content l w).0,
            part_some,
            acts.result e.content m w1 p good_left,
            (dup_part e.content r (op e.content m w1).1).0,
          )
          refl,
      rw (part_some, (dup_part e.content r (op e.content m w1).1).1)
          (acts.good e.content m w1 p good_left),
    )
      where
        w1 : Work S
        w1 = (insert_part ops dops (insert_dup ops dops) e.content l w).1

        good_left : Good w1.env
        good_left = rw (dup_part e.content l w).1 g

        part_some :
            insert_part ops dops op e.content (some m) w1
            ≡ ((op e.content m w1).0 ∷ [], (op e.content m w1).1)
        part_some = unfold insert_part in refl

    -- An entry that meets the slice is replaced by its pieces.
    pub change_data-meets :
        (e : Entry D) (w : Work S)
        → IsEntry limit top e.slice
        → meets limit new e.slice ≡ true
        → P e.content
        → Good w.env
        → (w' : Work S) × (change_data ops dops op new e w ≡ some (pieces limit f new e, w'))
          × Good w'.env
    unfolding change_data
    change_data-meets e w h hit p g = (
      replaced.1,
      rw (cmp_meets e.slice h, cross_parts e.slice h hit, hit) (λ i. some (same i, replaced.1)),
      good,
    )
      where
        replaced : List (Entry D) × Work S
        replaced =
            replace_entry ops dops op
              (record {
                left = part_left limit new e.slice;
                middle = some (part_middle limit new e.slice);
                right = part_right limit new e.slice;
              })
              e w

        same :
            replaced.0
            ≡ keep_part e.content (part_left limit new e.slice)
              ++ (record { slice = part_middle limit new e.slice; content = f e.content }
                  ∷ keep_part e.content (part_right limit new e.slice))
        same =
            (replace_entry_lem (part_left limit new e.slice) (part_right limit new e.slice)
              (part_middle limit new e.slice) e w p g).0

        good : Good replaced.1.env
        good =
            (replace_entry_lem (part_left limit new e.slice) (part_right limit new e.slice)
              (part_middle limit new e.slice) e w p g).1

    -- An entry that does not meet it stops the loop.
    pub change_data_apart :
        (e : Entry D) (w : Work S)
        → IsEntry limit top e.slice
        → meets limit new e.slice ≡ false
        → change_data ops dops op new e w ≡ none
    unfolding change_data
    change_data_apart e w h miss = rw (cmp_meets e.slice h ∙ miss, change_data)
