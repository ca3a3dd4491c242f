-- ===== src/Task/Cancel.antt =====
-- The calls of the work of a task after `task_cancel`.
use mbb_devel.Prelude.{ℕ}
use mbb_devel.Task.{
  Worker, Caller, from_loop, from_init, from_work, from_fini, starting, working, testing, locking,
  checking_run, checking_cancel, waiting, waking, unlocking, resumed, reading, finishing, ending,
  done, removed, freed,
}

abbrev init_polls_in : Caller → ℕ
init_polls_in from_loop = 0
init_polls_in from_init = 1
init_polls_in from_work = 0
init_polls_in from_fini = 0

-- The calls of the work that a cancelled task may still make: the first one, which no poll of the
-- loop comes before.
abbrev pub first_call : Worker → ℕ
first_call starting = 1
first_call working = 0
first_call (testing c) = init_polls_in c
first_call (locking c) = init_polls_in c
first_call (checking_run c) = init_polls_in c
first_call (checking_cancel c) = init_polls_in c
first_call (waiting c) = init_polls_in c
first_call (waking c) = init_polls_in c
first_call (unlocking c) = init_polls_in c
first_call (resumed c) = init_polls_in c
first_call (reading c) = init_polls_in c
first_call finishing = 0
first_call ending = 0
first_call done = 0
first_call removed = 0
first_call freed = 0
