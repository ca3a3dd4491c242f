-- ===== src/Task/Invariant.antt =====
-- The owner of the mutex of a task, and what is read under it.
use mbb_devel.Prelude.{ℕ, ◌+◌, ◌≡◌, refl, arith, ◌⊎◌, inl, inr, Bool, true, false, ◌∙◌, sym}
use mbb_devel.Prelude.Tests.{◌==◌, ==_iff, Bool-cases}
use mbb_devel.Task.{
  Shared, Worker, Pc, System, Work, Act, Step, work, act, remove, return_id, here, later, Reach,
  update, starting, working, testing, locking, checking_run, checking_cancel, waiting, waking,
  unlocking, resumed, reading, init_done, init_failed, init_polls, work_polls, fini_polls,
  work_again, work_over, runs, stopped, lock, run_is_set, run_not_set, cancel_is_set, cond_wait,
  wake, relock, unlock, pause_over, loop_breaks, loop_goes_on, init_goes_on, work_goes_on,
  fini_goes_on, fini_done, log_done, free, enter, unknown_task, found_run, found_cancel, lock_run,
  already, changes, set_run, set_stop, set_cancel, lock_cancel, still_runs, is_stopped, resume,
  signal, release, leave, finishing, ending, done, removed, freed, idle, looking, run_locking,
  run_testing, run_setting, cancel_setting, cancel_locking, cancel_testing, cancel_resuming,
  signalling, releasing, leaving,
}

-- The worker holds the mutex.
abbrev pub worker_holds : Worker → Bool
worker_holds starting = false
worker_holds working = false
worker_holds (testing c) = false
worker_holds (locking c) = false
worker_holds (checking_run c) = true
worker_holds (checking_cancel c) = true
worker_holds (waiting c) = false
worker_holds (waking c) = false
worker_holds (unlocking c) = true
worker_holds (resumed c) = false
worker_holds (reading c) = false
worker_holds finishing = false
worker_holds ending = false
worker_holds done = false
worker_holds removed = false
worker_holds freed = false

-- The thread of a command holds the mutex.
abbrev pub holds : Pc → Bool
holds idle = false
holds (looking k) = false
holds (run_locking b) = false
holds (run_testing b) = true
holds (run_setting b) = true
holds cancel_setting = false
holds cancel_locking = false
holds cancel_testing = true
holds cancel_resuming = true
holds signalling = true
holds releasing = true
holds leaving = false

abbrev pub is_waiting : Worker → Bool
is_waiting (waiting c) = true
is_waiting _ = false

abbrev pub is_checking_cancel : Worker → Bool
is_checking_cancel (checking_cancel c) = true
is_checking_cancel _ = false

abbrev pub is_unlocking : Worker → Bool
is_unlocking (unlocking c) = true
is_unlocking _ = false

module _ (m : Shared) where
  -- The worker is where the mutex is held exactly if it owns it, sleeps only in `g_cond_wait`, and
  -- what it read under the mutex still holds.
  abbrev pub WorkerOk : Worker → Type 0
  WorkerOk w =
      (worker_holds w ≡ (m.mutex == 1))
      × (m.asleep ≡ true → is_waiting w ≡ true)
      × (is_checking_cancel w ≡ true → m.run ≡ false)
      × (is_unlocking w ≡ true → (m.run ≡ true) ⊎ (m.cancel ≡ true))

  -- The thread of each command is where the mutex is held exactly if it owns it.
  abbrev pub CommandsOk : (ℕ → Pc) → Type 0
  CommandsOk pc = (i : ℕ) → holds (pc i) ≡ (m.mutex == i + 2)

abbrev pub Inv : System → Type 0
Inv s = WorkerOk s.mem s.worker × CommandsOk s.mem s.pc

Work-WorkerOk : {m m' : Shared} {w w' : Worker} → WorkerOk m w → Work m w m' w' → WorkerOk m' w'
Work-WorkerOk (o, a, k, p) init_done = ground arith
Work-WorkerOk (o, a, k, p) init_failed = ground arith
Work-WorkerOk (o, a, k, p) init_polls = ground arith
Work-WorkerOk (o, a, k, p) work_polls = ground arith
Work-WorkerOk (o, a, k, p) fini_polls = ground arith
Work-WorkerOk (o, a, k, p) work_again = ground arith
Work-WorkerOk (o, a, k, p) work_over = ground arith
Work-WorkerOk (o, a, k, p) (runs c h) = ground arith
Work-WorkerOk (o, a, k, p) (stopped c h) = ground arith
Work-WorkerOk (o, a, k, p) (lock c h) = ground arith
Work-WorkerOk (o, a, k, p) (run_is_set c h) = ground arith
Work-WorkerOk (o, a, k, p) (run_not_set c h) = ground arith
Work-WorkerOk (o, a, k, p) (cancel_is_set c h) = ground arith
Work-WorkerOk (o, a, k, p) (cond_wait c h) = ground arith
Work-WorkerOk (o, a, k, p) (wake c) = ground arith
Work-WorkerOk (o, a, k, p) (relock c h) = ground arith
Work-WorkerOk (o, a, k, p) (unlock c) = ground arith
Work-WorkerOk (o, a, k, p) (pause_over c) = ground arith
Work-WorkerOk (o, a, k, p) (loop_breaks h) = ground arith
Work-WorkerOk (o, a, k, p) (loop_goes_on h) = ground arith
Work-WorkerOk (o, a, k, p) init_goes_on = ground arith
Work-WorkerOk (o, a, k, p) work_goes_on = ground arith
Work-WorkerOk (o, a, k, p) fini_goes_on = ground arith
Work-WorkerOk (o, a, k, p) fini_done = ground arith
Work-WorkerOk (o, a, k, p) log_done = ground arith
Work-WorkerOk (o, a, k, p) free = ground arith

-- The worker takes the mutex only from nobody, and gives it back only if it owns it.
Work-mutex :
    {m m' : Shared} {w w' : Worker}
    → WorkerOk m w
    → Work m w m' w'
    → (i : ℕ) → (m'.mutex == i + 2) ≡ (m.mutex == i + 2)
Work-mutex (o, a, k, p) init_done i = refl
Work-mutex (o, a, k, p) init_failed i = refl
Work-mutex (o, a, k, p) init_polls i = refl
Work-mutex (o, a, k, p) work_polls i = refl
Work-mutex (o, a, k, p) fini_polls i = refl
Work-mutex (o, a, k, p) work_again i = refl
Work-mutex (o, a, k, p) work_over i = refl
Work-mutex (o, a, k, p) (runs c h) i = refl
Work-mutex (o, a, k, p) (stopped c h) i = refl
Work-mutex (o, a, k, p) (lock c h) i = ground arith
Work-mutex (o, a, k, p) (run_is_set c h) i = refl
Work-mutex (o, a, k, p) (run_not_set c h) i = refl
Work-mutex (o, a, k, p) (cancel_is_set c h) i = refl
Work-mutex (o, a, k, p) (cond_wait c h) i = ground arith
Work-mutex (o, a, k, p) (wake c) i = refl
Work-mutex (o, a, k, p) (relock c h) i = ground arith
Work-mutex (o, a, k, p) (unlock c) i = ground arith
Work-mutex (o, a, k, p) (pause_over c) i = refl
Work-mutex (o, a, k, p) (loop_breaks h) i = refl
Work-mutex (o, a, k, p) (loop_goes_on h) i = refl
Work-mutex (o, a, k, p) init_goes_on i = refl
Work-mutex (o, a, k, p) work_goes_on i = refl
Work-mutex (o, a, k, p) fini_goes_on i = refl
Work-mutex (o, a, k, p) fini_done i = refl
Work-mutex (o, a, k, p) log_done i = refl
Work-mutex (o, a, k, p) free i = refl

Act-WorkerOk :
    {i : ℕ} {m m' : Shared} {c c' : Pc} (w : Worker)
    → holds c ≡ (m.mutex == i + 2)
    → WorkerOk m w
    → Act i m c m' c'
    → WorkerOk m' w
Act-WorkerOk w b (o, a, k, p) (enter c) = (o, a, k, p)
Act-WorkerOk w b (o, a, k, p) (unknown_task c h) = (o, a, k, p)
Act-WorkerOk w b (o, a, k, p) (found_run c h) = (o, a, k, p)
Act-WorkerOk w b (o, a, k, p) (found_cancel h) = (o, a, k, p)
Act-WorkerOk w b (o, a, k, p) (lock_run c h) = ground arith
Act-WorkerOk w b (o, a, k, p) (already c h) = (o, a, k, p)
Act-WorkerOk w b (o, a, k, p) (changes c h) = (o, a, k, p)
Act-WorkerOk w b (o, a, k, p) set_run = ground arith
Act-WorkerOk w b (o, a, k, p) set_stop = ground arith
Act-WorkerOk w b (o, a, k, p) set_cancel = ground arith
Act-WorkerOk w b (o, a, k, p) (lock_cancel h) = ground arith
Act-WorkerOk w b (o, a, k, p) (still_runs h) = (o, a, k, p)
Act-WorkerOk w b (o, a, k, p) (is_stopped h) = (o, a, k, p)
Act-WorkerOk w b (o, a, k, p) resume = ground arith
Act-WorkerOk w b (o, a, k, p) signal = ground arith
Act-WorkerOk w b (o, a, k, p) release = ground arith
Act-WorkerOk w b (o, a, k, p) leave = (o, a, k, p)

Act-holds :
    {i : ℕ} {m m' : Shared} {c c' : Pc}
    → holds c ≡ (m.mutex == i + 2)
    → Act i m c m' c'
    → holds c' ≡ (m'.mutex == i + 2)
Act-holds b (enter c) = ground arith
Act-holds b (unknown_task c h) = ground arith
Act-holds b (found_run c h) = ground arith
Act-holds b (found_cancel h) = ground arith
Act-holds b (lock_run c h) = ground arith
Act-holds b (already c h) = ground arith
Act-holds b (changes c h) = ground arith
Act-holds b set_run = ground arith
Act-holds b set_stop = ground arith
Act-holds b set_cancel = ground arith
Act-holds b (lock_cancel h) = ground arith
Act-holds b (still_runs h) = ground arith
Act-holds b (is_stopped h) = ground arith
Act-holds b resume = ground arith
Act-holds b signal = ground arith
Act-holds b release = ground arith
Act-holds b leave = ground arith

Act-mutex :
    {i : ℕ} {m m' : Shared} {c c' : Pc}
    → holds c ≡ (m.mutex == i + 2)
    → Act i m c m' c'
    → (j : ℕ) → (j == i) ≡ false
    → (m'.mutex == j + 2) ≡ (m.mutex == j + 2)
Act-mutex b (enter c) j n = refl
Act-mutex b (unknown_task c h) j n = refl
Act-mutex b (found_run c h) j n = refl
Act-mutex b (found_cancel h) j n = refl
Act-mutex b (lock_run c h) j n = ground arith
Act-mutex b (already c h) j n = refl
Act-mutex b (changes c h) j n = refl
Act-mutex b set_run j n = refl
Act-mutex b set_stop j n = refl
Act-mutex b set_cancel j n = refl
Act-mutex b (lock_cancel h) j n = ground arith
Act-mutex b (still_runs h) j n = refl
Act-mutex b (is_stopped h) j n = refl
Act-mutex b resume j n = refl
Act-mutex b signal j n = refl
Act-mutex b release j n = ground arith
Act-mutex b leave j n = refl

Act-CommandsOk :
    {i : ℕ} {m m' : Shared} {c' : Pc} (pc : ℕ → Pc)
    → CommandsOk m pc
    → Act i m (pc i) m' c'
    → CommandsOk m' (update pc i c')
Act-CommandsOk {i = i} pc ok x j = elim (Bool-cases (j == i)) [
  | inl same ↦ let eq : j ≡ i = (==_iff j i).0 same in rw (same, eq) (Act-holds (ok i) x)
  | inr other ↦ rw other (ok j ∙ sym (Act-mutex (ok i) x j other))
]

Step-Inv : {s t : System} → Inv s → Step s t → Inv t
Step-Inv (w, c) (work x) = (Work-WorkerOk w x, λ i. c i ∙ sym (Work-mutex w x i))
Step-Inv {s = s} (w, c) (act i x) = (Act-WorkerOk s.worker (c i) w x, Act-CommandsOk s.pc c x)
Step-Inv (w, c) (remove d f) = (ground arith, c)
Step-Inv inv (return_id e) = inv

pub Reach-Inv : {s : System} → Reach s → Inv s
Reach-Inv here = (ground arith, λ i. ground arith)
Reach-Inv (later r x) = Step-Inv (Reach-Inv r) x
