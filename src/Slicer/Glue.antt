-- ===== src/Slicer/Glue.antt =====
-- `slicer_glue_null` of mbbd/slicer.c: runs of entries with null data become one entry.
-- `from` and `to` delimit the current run; here the run is the list of its entries, so `from` is
-- NULL when it is empty and `to` is NULL when it has one entry.
pub mod Runs
use mbb_devel.Prelude.{ℕ, Bool, true, false, Option, none, some, List, [], ◌∷◌, ◌++◌}
use mbb_devel.Prelude.Tests.{if◌then◌else◌}
use mbb_devel.Prelude.Int.{ℤ, pred_ℤ}
use mbb_devel.Slice.{Slice, SliceOps}
use mbb_devel.Slicer.{Entry, Slicer, DataOps, is_some}

module _ {D : Type 0} where
  -- The end of the last entry of a run that begins with `e`.
  pub run_end : Entry D → List (Entry D) → ℕ
  run_end e [] = e.slice.end
  run_end e (f ∷ run) = run_end f run

  -- `slicer_entry_free` of each entry of the run, as far as the count goes.
  pub free_run : List (Entry D) → ℤ → ℤ
  free_run [] count = count
  free_run (e ∷ run) count = free_run run (if is_some e.content then pred_ℤ count else count)

module _ {S D E : Type 0} (ops : SliceOps) (dops : DataOps S D E) where
  -- A run that is over: `slicer_glue` replaces two or more entries.
  pub slicer_glue : List (Entry D) → ℤ → List (Entry D) × ℤ
  slicer_glue [] count = ([], count)
  slicer_glue (e ∷ []) count = (e ∷ [], count)
  slicer_glue (e ∷ f ∷ run) count = (
    record {
      slice = record { begin = ops.dup e.slice.begin; end = ops.dup (run_end f run) };
      content = none;
    }
        ∷ [],
    free_run (e ∷ f ∷ run) count,
  )

  -- The loop over the queue.
  pub glue_runs : List (Entry D) → List (Entry D) → ℤ → List (Entry D) × ℤ
  glue_runs run [] count = slicer_glue run count
  glue_runs run (e ∷ q) count =
      let longer = glue_runs (run ++ e ∷ []) q count in
      let glued = slicer_glue run count in
      let after = glue_runs [] q glued.1 in
      if dops.is_null e.content then longer else (glued.0 ++ (e ∷ after.0), after.1)

  pub slicer_glue_null : Slicer D → Slicer D
  slicer_glue_null s = let r = glue_runs [] s.queue s.count in record { queue = r.0; count = r.1 }
