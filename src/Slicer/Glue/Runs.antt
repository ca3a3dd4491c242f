-- ===== src/Slicer/Glue/Runs.antt =====
-- Gluing keeps the partition and what a reader sees: the data at each key, with null data read as
-- NULL.
use mathlib.Core.Path.{subst}
use mathlib.Core.List.{append_assoc, append-nil}
use mbb_devel.Prelude.{
  ℕ, ◌+◌, ◌≤◌, ◌≡◌, refl, sym, ap, arith, inl, inr, true, false, Option, none, List, [], ◌∷◌, ◌++◌,
  ◌∙◌,
}
use mbb_devel.Prelude.Tests.{ltb, leb, if◌then◌else◌, Bool-cases, le→ltb-false, lt→ltb, leb→le}
use mbb_devel.Prelude.Int.{ℤ}
use mbb_devel.Slice.{SliceOps}
use mbb_devel.Slice.Laws.{upper, IsEnd}
use mbb_devel.Slicer.{Entry, Slicer, DataOps}
use mbb_devel.Slicer.Partition.{Covers, IsPartition, Covers-append}
use mbb_devel.Slicer.Content.{content_at}
use mbb_devel.Prelude.Lists.{All, All-append}
use mbb_devel.Slicer.Glue.{run_end, slicer_glue, glue_runs, slicer_glue_null}

module _ {S D E : Type 0} (dops : DataOps S D E) where
  -- Null data is read as NULL.
  abbrev pub visible : Option D → Option D
  visible d = if dops.is_null d then none else d

  abbrev pub visible_at : ℕ → ℕ → List (Entry D) → Option D
  visible_at limit p q = visible (content_at limit p q)

  abbrev Nulls : List (Entry D) → Type 0
  Nulls = All (λ e. dops.is_null e.content ≡ true)

  abbrev pub StartsFull : List (Entry D) → Type 0
  StartsFull [] = Unit
  StartsFull (e ∷ q) = dops.is_null e.content ≡ false

  -- No entry with null data is followed by another one.
  abbrev pub Apart : List (Entry D) → Type 0
  Apart [] = Unit
  Apart (e ∷ q) = (dops.is_null e.content ≡ true → StartsFull q) × Apart q

module _ {S D E : Type 0} (ops : SliceOps) (dops : DataOps S D E)
    (dup_same : (k : ℕ) → ops.dup k ≡ k) (null_null : dops.is_null none ≡ true)
    (limit top : ℕ) where
  Covers-le : (lo hi : ℕ) (q : List (Entry D)) → Covers limit top lo hi q → lo ≤ hi
  Covers-le lo hi [] h = omega arith
  Covers-le lo hi (e ∷ q) (s, le, ok, h) =
      omega (arith, Covers-le (upper limit e.slice.end + 1) hi q h)

  run-Covers :
      (lo hi : ℕ) (e : Entry D) (run : List (Entry D))
      → Covers limit top lo hi (e ∷ run)
      → (upper limit (run_end e run) + 1 ≡ hi)
        × (lo ≤ upper limit (run_end e run))
        × IsEnd limit top (run_end e run)
  unfolding run_end
  run-Covers lo hi e [] (s, le, ok, h) = (h, le, ok)
  run-Covers lo hi e (f ∷ run) (s, le, ok, h) =
      let (h', le', ok') = run-Covers (upper limit e.slice.end + 1) hi f run h in
      (h', omega arith, ok')

  glue-Covers :
      (lo hi : ℕ) (run : List (Entry D)) (count : ℤ)
      → Covers limit top lo hi run
      → Covers limit top lo hi (slicer_glue ops dops run count).0
  unfolding slicer_glue
  glue-Covers lo hi [] count h = h
  glue-Covers lo hi (e ∷ []) count h = h
  glue-Covers lo hi (e ∷ f ∷ run) count h =
      let (h', le, ok) = run-Covers lo hi e (f ∷ run) h in
      rw (dup_same e.slice.begin, dup_same (run_end f run))
        (h.0, unfold run_end in le, unfold run_end in ok, unfold run_end in h')

  -- At a key of a run nothing is visible; the other keys are those of what follows.
  run_at :
      (p lo hi : ℕ) (run r : List (Entry D))
      → lo ≤ p
      → Nulls dops run
      → Covers limit top lo hi run
      → visible_at dops limit p (run ++ r) ≡ (if ltb p hi then none else visible_at dops limit p r)
  run_at p lo hi [] r k n h = rw (le→ltb-false p hi (omega arith))
  run_at p lo hi (e ∷ run) r k n (s, le, ok, h) =
      elim (Bool-cases (leb p (upper limit e.slice.end))) [
        | inl here ↦ rw (
          here,
          n.0,
          lt→ltb p hi (
              omega (
                arith,
                leb→le p (upper limit e.slice.end) here,
                Covers-le (upper limit e.slice.end + 1) hi run h,
              )),
        )
        | inr later ↦
            rw later (run_at p (upper limit e.slice.end + 1) hi run r (ground arith) n.1 h)
      ]

  glued_at :
      (p lo hi : ℕ) (run r : List (Entry D)) (count : ℤ)
      → lo ≤ p
      → Nulls dops run
      → Covers limit top lo hi run
      → visible_at dops limit p ((slicer_glue ops dops run count).0 ++ r)
        ≡ (if ltb p hi then none else visible_at dops limit p r)
  unfolding slicer_glue
  glued_at p lo hi [] r count k n h = run_at p lo hi [] r k n h
  glued_at p lo hi (e ∷ []) r count k n h = run_at p lo hi (e ∷ []) r k n h
  glued_at p lo hi (e ∷ f ∷ run) r count k n h =
      let (h', le, ok) = run-Covers lo hi e (f ∷ run) h in
      rw (dup_same (run_end f run)) (elim (Bool-cases (leb p (upper limit (run_end f run)))) [
        | inl here ↦ rw (
          here,
          null_null,
          lt→ltb p hi
              (unfold run_end in omega (arith, leb→le p (upper limit (run_end f run)) here)),
        )
        | inr later ↦ rw (later, le→ltb-false p hi (unfold run_end in ground arith))
      ])

  step_at :
      (p mid : ℕ) (e : Entry D) (q r : List (Entry D))
      → (upper limit e.slice.end + 1 ≤ p → visible_at dops limit p q ≡ visible_at dops limit p r)
      → (if ltb p mid then none else visible_at dops limit p (e ∷ q))
        ≡ (if ltb p mid then none else visible_at dops limit p (e ∷ r))
  step_at p mid e q r same = elim (Bool-cases (leb p (upper limit e.slice.end))) [
    | inl here ↦ rw here
    | inr later ↦ rw (later, same (ground arith))
  ]

  runs_at :
      (p lo mid hi : ℕ) (run q : List (Entry D)) (count : ℤ)
      → lo ≤ p
      → Nulls dops run
      → Covers limit top lo mid run
      → Covers limit top mid hi q
      → visible_at dops limit p (glue_runs ops dops run q count).0
        ≡ visible_at dops limit p (run ++ q)
  unfolding glue_runs
  runs_at p lo mid hi run [] count k n h h' =
      ap (visible_at dops limit p) (sym (append-nil (slicer_glue ops dops run count).0))
      ∙ glued_at p lo mid run [] count k n h
      ∙ sym (run_at p lo mid run [] k n h)
  runs_at p lo mid hi run (e ∷ q) count k n h (s, le, ok, h') =
      elim (Bool-cases (dops.is_null e.content)) [
        | inl null ↦ rw null (
            rw (append_assoc run (e ∷ []) q) at (
              runs_at p lo (upper limit e.slice.end + 1) hi (run ++ e ∷ []) q count k
                (All-append _ run (e ∷ []) n (null, tt))
                (Covers-append limit top lo mid (upper limit e.slice.end + 1) run (e ∷ []) h
                  (s, le, ok, refl))
                h'))
        | inr full ↦ rw full (
            glued_at p lo mid run _ count k n h
            ∙ step_at p mid e _ q (λ late.
              runs_at p (upper limit e.slice.end + 1) (upper limit e.slice.end + 1) hi [] q
                (slicer_glue ops dops run count).1 late tt refl h')
            ∙ sym (run_at p lo mid run (e ∷ q) k n h))
      ]

  runs-Covers :
      (lo mid hi : ℕ) (run q : List (Entry D)) (count : ℤ)
      → Covers limit top lo mid run
      → Covers limit top mid hi q
      → Covers limit top lo hi (glue_runs ops dops run q count).0
  unfolding glue_runs
  runs-Covers lo mid hi run [] count h h' =
      glue-Covers lo hi run count (subst (λ x. Covers limit top lo x run) h' h)
  runs-Covers lo mid hi run (e ∷ q) count h (s, le, ok, h') =
      elim (Bool-cases (dops.is_null e.content)) [
        | inl null ↦ rw null (
            runs-Covers lo (upper limit e.slice.end + 1) hi (run ++ e ∷ []) q count
              (Covers-append limit top lo mid (upper limit e.slice.end + 1) run (e ∷ []) h
                (s, le, ok, refl))
              h')
        | inr full ↦ rw full (
            Covers-append limit top lo mid hi (slicer_glue ops dops run count).0 _
              (glue-Covers lo mid run count h)
              (
                s,
                le,
                ok,
                runs-Covers (upper limit e.slice.end + 1) (upper limit e.slice.end + 1) hi [] q
                    (slicer_glue ops dops run count).1 refl h',
              ))
      ]

  glue-Apart :
      (run q : List (Entry D)) (count : ℤ)
      → StartsFull dops q
      → Apart dops q
      → Apart dops ((slicer_glue ops dops run count).0 ++ q)
  unfolding slicer_glue
  glue-Apart [] q count h k = k
  glue-Apart (e ∷ []) q count h k = (λ _. h, k)
  glue-Apart (e ∷ f ∷ run) q count h k = (λ _. h, k)

  runs-Apart : (run q : List (Entry D)) (count : ℤ) → Apart dops (glue_runs ops dops run q count).0
  unfolding glue_runs
  runs-Apart run [] count = rw append-nil at (glue-Apart run [] count tt tt)
  runs-Apart run (e ∷ q) count = elim (Bool-cases (dops.is_null e.content)) [
    | inl null ↦ rw null (runs-Apart (run ++ e ∷ []) q count)
    | inr full ↦
        let after = (glue_runs ops dops [] q (slicer_glue ops dops run count).1).0 in
        rw full (
          glue-Apart run (e ∷ after) count full
            (λ null. cc, runs-Apart [] q (slicer_glue ops dops run count).1))
  ]

  -- Gluing keeps the partition and leaves no two entries with null data side by side, and it keeps
  -- the data that is visible at each key, where an entry with null data is read as NULL.
  pub slicer_glue_null-visible :
      (s : Slicer D)
      → IsPartition limit top s.queue
      → IsPartition limit top (slicer_glue_null ops dops s).queue
        × Apart dops (slicer_glue_null ops dops s).queue
        × ((p : ℕ)
            → visible_at dops limit p (slicer_glue_null ops dops s).queue
              ≡ visible_at dops limit p s.queue)
  unfolding slicer_glue_null
  slicer_glue_null-visible s h = (
    runs-Covers 0 0 (limit + 1) [] s.queue s.count refl h,
    runs-Apart [] s.queue s.count,
    λ p. runs_at p 0 0 (limit + 1) [] s.queue s.count (omega arith) tt refl h,
  )
