-- ===== src/Task/Tests.antt =====
-- A task that is stopped, falls asleep and is cancelled.
use mbb_devel.Prelude.{◌≡◌, refl, false}
use mbb_devel.Task.{
  System, Steps, Reach, work, act, remove, here, later, do_run, do_cancel, init_done, init_failed,
  work_again, stopped, lock, run_not_set, cond_wait, wake, from_loop, enter, found_run, lock_run,
  changes, set_stop, release, leave, found_cancel, set_cancel, free, freed, reading_id,
}

-- The thread 0 stops the task, which sleeps then; the thread 1 has begun to cancel it.
abbrev to_sleep : (s : System) × Reach s
to_sleep = (
  _,
  later
      (later
        (later
          (later
            (later
              (later
                (later
                  (later
                    (later
                      (later
                        (later
                          (later
                            (later
                              (later (later (later here (work init_done)) (work work_again))
                                (act 0 (enter (do_run false))))
                              (act 0 (found_run false refl)))
                            (act 0 (lock_run false refl)))
                          (act 0 (changes false refl)))
                        (act 0 set_stop))
                      (act 0 release))
                    (act 0 leave))
                  (work (stopped from_loop refl)))
                (work (lock from_loop refl)))
              (work (run_not_set from_loop refl)))
            (work (cond_wait from_loop refl)))
          (act 1 (enter do_cancel)))
        (act 1 (found_cancel refl)))
      (act 1 set_cancel),
)

abbrev asleep_state : System
asleep_state = to_sleep.0

abbrev woken : (t : System) × Steps asleep_state t
woken = (_, later here (work (wake from_loop)))

-- The task fails to begin and is freed, while the thread that made it has yet to read its number.
abbrev to_freed : (s : System) × Reach s
to_freed = (_, later (later (later here (work init_failed)) (remove refl (λ i. refl))) (work free))

freed_creator : (to_freed.0.worker ≡ freed) × (to_freed.0.creator ≡ reading_id)
freed_creator = (refl, refl)
