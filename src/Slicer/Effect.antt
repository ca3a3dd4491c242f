-- ===== src/Slicer/Effect.antt =====
-- What `slicer_insert` and `slicer_delete` do to the data that a slicer holds at each key.
use mbb_devel.Prelude.{ℕ, ◌+◌, ◌≤◌, ◌≡◌, refl, arith, ◌⊎◌, Option, some}
use mbb_devel.Prelude.Tests.{if◌then◌else◌}
use mbb_devel.Slice.{Slice, SliceOps}
use mbb_devel.Slice.Laws.{KeyLaws}
use mbb_devel.Slicer.{Slicer, DataOps, Search, insert_add, insert_del, slicer_insert, slicer_delete}
use mbb_devel.Slicer.Tree.{SearchLaws}
use mbb_devel.Slicer.Partition.{IsPartition, IsRequest, change_all}
use mbb_devel.Slicer.Change.{Acts}
use mbb_devel.Slicer.Sweep.{Affected}
use mbb_devel.Slicer.Apply.{apply_change_lem}
use mbb_devel.Slicer.Query.{slicer_find}
use mbb_devel.Slicer.Content.{inside, at-change_all, slicer_find-at}

-- What adding or deleting an element does to the data of an entry: it computes `f` while the state
-- is good and the data has the property `P`, and keeps the state good.
pub record Computes {S D : Type 0} (act : Option D → S → Option D × S) (f : Option D → Option D)
    (P : Option D → Type 0) (Good : S → Type 0) : Type 0 where
  pub result : (d : Option D) (env : S) → P d → Good env → (act d env).0 ≡ f d
  pub good : (d : Option D) (env : S) → P d → Good env → Good (act d env).1

-- The result of a change: a partition again, in which the data at each key of the slice has become
-- `f` of what it was, and the data at every other key is what it was.
pub record Changed {D : Type 0} (ops : SliceOps) (limit top : ℕ) (search : Search D)
    (f : Option D → Option D) (new : Slice) (s s' : Slicer D) : Type 0 where
  pub partition : IsPartition limit top s'.queue
  pub entries : s'.queue ≡ change_all limit f new s.queue
  pub found :
      (p : ℕ)
      → p ≤ limit
      → slicer_find ops search p s' ≡ (
          if inside limit new p then f (slicer_find ops search p s) else slicer_find ops search p s)

module _ {ops : SliceOps} {limit : ℕ} (laws : KeyLaws ops limit) (top : ℕ)
    (top_open : (top ≡ 0) ⊎ (top ≡ limit)) (new : Slice) (request : IsRequest limit top new)
    {D : Type 0} (search : Search D) (search_laws : SearchLaws search)
    {f : Option D → Option D} where
  change_all-Changed :
      (s s' : Slicer D)
      → IsPartition limit top s.queue
      → s'.queue ≡ change_all limit f new s.queue
      → IsPartition limit top s'.queue
      → Changed ops limit top search f new s s'
  change_all-Changed s s' h same h' = record {
    partition = h';
    entries = same;
    found = λ p k.
        rw
          (
            slicer_find-at laws top top_open search search_laws p k s' h',
            slicer_find-at laws top top_open search search_laws p k s h,
            same,
          )
          (at-change_all limit top top_open f new request p 0 (limit + 1) s.queue h (omega arith)
            (omega arith));
  }

module _ {ops : SliceOps} {limit : ℕ} (laws : KeyLaws ops limit) (top : ℕ)
    (top_open : (top ≡ 0) ⊎ (top ≡ limit)) (new : Slice) (request : IsRequest limit top new)
    {S D E : Type 0} (dops : DataOps S D E) (dup_same : (d : Option D) → dops.dup d ≡ d)
    (search : Search D) (search_laws : SearchLaws search) (elem : E) {f : Option D → Option D}
    {P : Option D → Type 0} {Good : S → Type 0} where
  add-Acts : Computes (dops.add elem) f P Good → Acts (insert_add ops dops elem) f P Good
  unfolding insert_add
  add-Acts c = record {
    result = λ d s w h g. rw (dup_same d, c.result d w.env h g) refl;
    good = λ d s w h g. rw (dup_same d) (c.good d w.env h g);
  }

  del-Acts : Computes (dops.del elem) f P Good → Acts (insert_del ops dops elem) f P Good
  unfolding insert_del
  del-Acts c = record {
    result = λ d s w h g. rw (dup_same d, c.result d w.env h g) refl;
    good = λ d s w h g. rw (dup_same d) (c.good d w.env h g);
  }

  -- The slice is not empty and within the limit of the keys (of times that is 2 ^ 31 - 1), and does
  -- not begin at 1; copying data gives the same data, and adding the element to the data that it
  -- concerns computes a function of them. Then an insertion into a partition succeeds, and gives a
  -- partition, in which the element is added at exactly the keys of the slice within the limit.
  pub slicer_insert-Changed :
      (s : Slicer D) (env : S)
      → Computes (dops.add elem) f P Good
      → IsPartition limit top s.queue
      → Affected limit new P s.queue
      → Good env
      → (s' : Slicer D) × (env' : S) × (slicer_insert ops dops search elem new s env
          ≡ some (s', env'))
        × Changed ops limit top search f new s s'
        × Good env'
  unfolding slicer_insert
  slicer_insert-Changed s env c h p g =
      let (s', env', eq, same, h', g') =
        apply_change_lem laws top top_open new request dops dup_same (insert_add ops dops elem)
          (add-Acts c) search s env search_laws h p g in
      (
        s',
        env',
        eq,
        change_all-Changed laws top top_open new request search search_laws s s' h same h',
        g',
      )

  -- The slice is not empty and within the limit of the keys (of times that is 2 ^ 31 - 1), and does
  -- not begin at 1; copying data gives the same data, and deleting the element from the data that
  -- it concerns computes a function of them. Then a deletion from a partition succeeds, and gives a
  -- partition, in which the element is deleted at exactly the keys of the slice within the limit.
  pub slicer_delete-Changed :
      (s : Slicer D) (env : S)
      → Computes (dops.del elem) f P Good
      → IsPartition limit top s.queue
      → Affected limit new P s.queue
      → Good env
      → (s' : Slicer D) × (env' : S) × (slicer_delete ops dops search elem new s env
          ≡ some (s', env'))
        × Changed ops limit top search f new s s'
        × Good env'
  unfolding slicer_delete
  slicer_delete-Changed s env c h p g =
      let (s', env', eq, same, h', g') =
        apply_change_lem laws top top_open new request dops dup_same (insert_del ops dops elem)
          (del-Acts c) search s env search_laws h p g in
      (
        s',
        env',
        eq,
        change_all-Changed laws top top_open new request search search_laws s s' h same h',
        g',
      )
