-- ===== src/Slicer/Apply.antt =====
-- `slicer_apply_change` as a whole.
use mbb_devel.Prelude.{
  ℕ, zero, suc, ◌+◌, ◌≡◌, refl, sym, ap, arith, ◌⊎◌, true, Option, some, List, [], ◌∷◌, ◌∙◌,
}
use mbb_devel.Prelude.Tests.{ltb, if◌then◌else◌, le→ltb-false}
use mbb_devel.Prelude.Int.{pos, minus_one, is_zero, is_pos, is_neg}
use mbb_devel.Prelude.Lists.{get_elem?, drop}
use mbb_devel.Slice.{Slice, SliceOps, slice_cmp}
use mbb_devel.Slice.Laws.{KeyLaws, upper, slice_cmp_lem, begin_after}
use mbb_devel.Slicer.{
  Entry, Slicer, Work, DataOps, Search, change_next, change_at, apply_change, links_before,
  join_links,
}
use mbb_devel.Slicer.Tree.{IsEntry, SearchLaws, search_hit}
use mbb_devel.Slicer.Partition.{
  Covers, IsPartition, IsRequest, meets, change_all, change_all-Covers,
}
use mbb_devel.Slicer.Change.{Acts}
use mbb_devel.Slicer.Sweep.{
  Affected, All-drop, All-links_before, split-Covers, join_drop, change_next_lem, change_prev_lem,
}

-- Each entry of a partition is one.
module _ {D : Type 0} (limit top : ℕ) where
  pub entry_at :
      (lo hi i : ℕ) (q : List (Entry D)) (e : Entry D)
      → Covers limit top lo hi q
      → get_elem? q i ≡ some e
      → IsEntry limit top e.slice
  entry_at lo hi i [] e h at = cc
  entry_at lo hi zero (x ∷ q) e (s, le, ok, h) at =
      let same : x ≡ e = ground arith in rw (← same) (rw s le, ok)
  entry_at lo hi (suc i) (x ∷ q) e (s, le, ok, h) at =
      entry_at (upper limit x.slice.end + 1) hi i q e h at

-- How a slice compares with the entries of a partition.
module _ {ops : SliceOps} {limit : ℕ} (laws : KeyLaws ops limit) (top : ℕ)
    (top_open : (top ≡ 0) ⊎ (top ≡ limit)) (new : Slice) (request : IsRequest limit top new) where
  cmp_lem :
      (s : Slice)
      → IsEntry limit top s
      → slice_cmp ops new s ≡ (
          if ltb (upper limit new.end) s.begin
          then minus_one
          else if ltb (upper limit s.end) new.begin
          then pos 1
          else pos 0)
  cmp_lem s h = slice_cmp_lem laws new s (request.begins, ground arith) (ground arith, ground arith)

  pub cmp_pos :
      (s : Slice)
      → IsEntry limit top s
      → is_pos (slice_cmp ops new s) ≡ ltb (upper limit s.end) new.begin
  cmp_pos s h = rw (cmp_lem s h) (ground arith)

  pub cmp_neg :
      (s : Slice)
      → IsEntry limit top s
      → is_neg (slice_cmp ops new s) ≡ ltb (upper limit new.end) s.begin
  cmp_neg s h = rw (cmp_lem s h) (ground arith)

  pub cmp_zero :
      (s : Slice) → IsEntry limit top s → is_zero (slice_cmp ops new s) ≡ meets limit new s
  cmp_zero s h = rw (cmp_lem s h) (ground arith)

  module _ {S D E : Type 0} (dops : DataOps S D E) (dup_same : (d : Option D) → dops.dup d ≡ d)
      (op : Option D → Slice → Work S → Entry D × Work S) {f : Option D → Option D}
      {P : Option D → Type 0} {Good : S → Type 0} (acts : Acts op f P Good) where
    change_at_lem :
        (i : ℕ) (s : Slicer D) (env : S) (e : Entry D)
        → IsPartition limit top s.queue
        → get_elem? s.queue i ≡ some e
        → meets limit new e.slice ≡ true
        → Affected limit new P s.queue
        → Good env
        → ((change_at ops dops op new i s env).0.queue ≡ change_all limit f new s.queue)
          × Good (change_at ops dops op new i s env).1
    unfolding change_at join_links
    change_at_lem i s env e h at hit p g =
        let (back, front, (rest, cut)) =
          split-Covers limit top 0 0 (limit + 1) i [] s.queue e refl h at in
        let w : Work S = record { count = s.count; env = env } in
        let (next, g') =
          change_next_lem laws top top_open new request dops dup_same op acts e.slice.begin
            (limit + 1) (drop i s.queue) w front (rw cut (ground arith))
            (All-drop (λ e. meets limit new e.slice ≡ true → P e.content) i s.queue p) g in
        let (prev, g'') =
          change_prev_lem laws top top_open new request dops dup_same op acts 0 e.slice.begin
            (links_before i s.queue []) (drop i s.queue)
            (change_next ops dops op new (drop i s.queue) w).1 back (ground arith)
            (All-links_before (λ e. meets limit new e.slice ≡ true → P e.content) i [] s.queue tt p)
            g' in
        (rw next (prev ∙ ap (change_all limit f new) (join_drop i [] s.queue)), rw (← next) at g'')

    -- A change goes through and changes each entry of the queue, whichever entry the tree's search
    -- returns.
    pub apply_change_lem :
        (lookup : Search D) (s : Slicer D) (env : S)
        → SearchLaws lookup
        → IsPartition limit top s.queue
        → Affected limit new P s.queue
        → Good env
        → (s' : Slicer D) × (env' : S) × (apply_change ops dops lookup op new s env
            ≡ some (s', env'))
          × (s'.queue ≡ change_all limit f new s.queue)
          × IsPartition limit top s'.queue
          × Good env'
    unfolding apply_change
    apply_change_lem lookup s env law h p g =
        let (i, found, (e, at, zero_cmp)) =
          search_hit limit top new.begin (upper limit new.end) (slice_cmp ops new) top_open cmp_pos
            cmp_neg lookup law (limit + 1) s.queue h request.not_empty (ground arith) in
        let is_entry : IsEntry limit top e.slice =
          entry_at limit top 0 (limit + 1) i s.queue e h at in
        let (same, g') =
          change_at_lem i s env e h at (sym (cmp_zero e.slice is_entry) ∙ zero_cmp) p g in
        (
          (change_at ops dops op new i s env).0,
          (change_at ops dops op new i s env).1,
          rw
              (
                begin_after laws new.begin new.end request.begins (ground arith),
                le→ltb-false (upper limit new.end) new.begin request.not_empty,
                found,
              )
              refl,
          same,
          rw same (change_all-Covers limit top top_open f new request 0 (limit + 1) s.queue h),
          g',
        )
