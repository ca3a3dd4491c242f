-- ===== src/Task.antt =====
-- mbbd/mbbtask.c: one task, its worker thread, the thread that made it by `mbb_task_create`, and any
-- number of threads that run the commands `mbb-task-run`, `mbb-task-stop` and `mbb-task-cancel` on
-- it, in any interleaving. A step is one
-- access to the shared fields or one call of the mutex, the condition or the process lock; GLib's
-- mutex, condition and lock behave as documented: `g_cond_wait` gives the mutex away and falls
-- asleep in one step, and may return without a signal.
pub mod Invariant
pub mod Wakeup
pub mod Awake
pub mod Cancel
mod Tests
use mbb_devel.Prelude.{ℕ, suc, ◌+◌, ◌≡◌, Bool, true, false, not}
use mbb_devel.Prelude.Tests.{◌==◌, if◌then◌else◌}

-- The fields that the threads share. The owner of the mutex is 0 for nobody, 1 for the worker and
-- `i + 2` for the thread `i` of a command. `asleep`: the worker waits for a signal. `listed`: the
-- task is in the table. `calls` counts the calls of `hook->work`.
pub record Shared : Type 0 where
  pub run : Bool
  pub cancel : Bool
  pub mutex : ℕ
  pub asleep : Bool
  pub listed : Bool
  pub calls : ℕ

-- Who polls: the loop of `mbb_task_work`, or a function of the hook by `mbb_task_poll_state`.
pub data Caller : Type 0 where
  from_loop : Caller
  from_init : Caller
  from_work : Caller
  from_fini : Caller

-- Where the worker is. `testing` to `reading` is `task_poll`, and `locking` to `unlocking` is
-- `mbb_task_pause` in it.
pub data Worker : Type 0 where
  starting : Worker
  working : Worker
  testing : Caller → Worker
  locking : Caller → Worker
  checking_run : Caller → Worker
  checking_cancel : Caller → Worker
  waiting : Caller → Worker
  waking : Caller → Worker
  unlocking : Caller → Worker
  resumed : Caller → Worker
  reading : Caller → Worker
  finishing : Worker
  ending : Worker
  done : Worker
  removed : Worker
  freed : Worker

-- The commands: `task_do_run` with its flag, and `task_cancel`.
pub data Command : Type 0 where
  do_run : Bool → Command
  do_cancel : Command

-- Where the thread of a command is; outside of `idle` it holds the process lock as a reader.
pub data Pc : Type 0 where
  idle : Pc
  looking : Command → Pc
  run_locking : Bool → Pc
  run_testing : Bool → Pc
  run_setting : Bool → Pc
  cancel_setting : Pc
  cancel_locking : Pc
  cancel_testing : Pc
  cancel_resuming : Pc
  signalling : Pc
  releasing : Pc
  leaving : Pc

-- The worker's own moves.
pub data Work (m : Shared) : Worker → Shared → Worker → Type 0 where
  init_done : Work m starting (record m { calls = suc m.calls }) working
  init_failed : Work m starting m done
  init_polls : Work m starting m (testing from_init)
  work_polls : Work m working m (testing from_work)
  fini_polls : Work m finishing m (testing from_fini)
  work_again : Work m working m (testing from_loop)
  work_over : Work m working m finishing
  runs : (c : Caller) → m.run ≡ true → Work m (testing c) m (reading c)
  stopped : (c : Caller) → m.run ≡ false → Work m (testing c) m (locking c)
  lock : (c : Caller) → m.mutex ≡ 0 → Work m (locking c) (record m { mutex = 1 }) (checking_run c)
  run_is_set : (c : Caller) → m.run ≡ true → Work m (checking_run c) m (unlocking c)
  run_not_set : (c : Caller) → m.run ≡ false → Work m (checking_run c) m (checking_cancel c)
  cancel_is_set : (c : Caller) → m.cancel ≡ true → Work m (checking_cancel c) m (unlocking c)
  cond_wait :
      (c : Caller)
      → m.cancel ≡ false
      → Work m (checking_cancel c) (record m { mutex = 0; asleep = true }) (waiting c)
  wake : (c : Caller) → Work m (waiting c) (record m { asleep = false }) (waking c)
  relock : (c : Caller) → m.mutex ≡ 0 → Work m (waking c) (record m { mutex = 1 }) (checking_run c)
  unlock : (c : Caller) → Work m (unlocking c) (record m { mutex = 0 }) (resumed c)
  pause_over : (c : Caller) → Work m (resumed c) m (reading c)
  loop_breaks : m.cancel ≡ true → Work m (reading from_loop) m finishing
  loop_goes_on :
      m.cancel ≡ false → Work m (reading from_loop) (record m { calls = suc m.calls }) working
  init_goes_on : Work m (reading from_init) m starting
  work_goes_on : Work m (reading from_work) m working
  fini_goes_on : Work m (reading from_fini) m finishing
  fini_done : Work m finishing m ending
  log_done : Work m ending m done
  free : Work m removed m freed

-- The moves of the thread `i` of a command.
pub data Act (i : ℕ) (m : Shared) : Pc → Shared → Pc → Type 0 where
  enter : (k : Command) → Act i m idle m (looking k)
  unknown_task : (k : Command) → m.listed ≡ false → Act i m (looking k) m leaving
  found_run : (b : Bool) → m.listed ≡ true → Act i m (looking (do_run b)) m (run_locking b)
  found_cancel : m.listed ≡ true → Act i m (looking do_cancel) m cancel_setting
  lock_run :
      (b : Bool)
      → m.mutex ≡ 0
      → Act i m (run_locking b) (record m { mutex = i + 2 }) (run_testing b)
  already : (b : Bool) → m.run ≡ b → Act i m (run_testing b) m releasing
  changes : (b : Bool) → m.run ≡ not b → Act i m (run_testing b) m (run_setting b)
  set_run : Act i m (run_setting true) (record m { run = true }) signalling
  set_stop : Act i m (run_setting false) (record m { run = false }) releasing
  set_cancel : Act i m cancel_setting (record m { cancel = true }) cancel_locking
  lock_cancel : m.mutex ≡ 0 → Act i m cancel_locking (record m { mutex = i + 2 }) cancel_testing
  still_runs : m.run ≡ true → Act i m cancel_testing m releasing
  is_stopped : m.run ≡ false → Act i m cancel_testing m cancel_resuming
  resume : Act i m cancel_resuming (record m { run = true }) signalling
  signal : Act i m signalling (record m { asleep = false }) releasing
  release : Act i m releasing (record m { mutex = 0 }) leaving
  leave : Act i m leaving m idle

-- Where the thread that runs `mbb_task_create` is: it reads `task->id` for its result, without a
-- lock, and then has no pointer to the task.
pub data Creator : Type 0 where
  reading_id : Creator
  returned : Creator

pub record System : Type 0 where
  pub mem : Shared
  pub worker : Worker
  pub creator : Creator
  pub pc : ℕ → Pc

abbrev pub update : (ℕ → Pc) → ℕ → Pc → ℕ → Pc
update f i x j = if j == i then x else f j

-- The last of the steps of `mbb_task_free` under the process lock as its writer: it waits until no
-- command is being run, and takes the task out of the table.
pub data Step (s : System) : System → Type 0 where
  work :
      {m : Shared} {w : Worker}
      → Work s.mem s.worker m w
      → Step s (record s { mem = m; worker = w })
  act :
      (i : ℕ) {m : Shared} {c : Pc}
      → Act i s.mem (s.pc i) m c
      → Step s (record s { mem = m; pc = update s.pc i c })
  remove :
      s.worker ≡ done
      → ((i : ℕ) → s.pc i ≡ idle)
      → Step s (record s { mem = record s.mem { listed = false }; worker = removed })
  return_id : s.creator ≡ reading_id → Step s (record s { creator = returned })

-- `g_thread_create` has succeeded for the task of `mbb_task_new`, and the thread begins.
abbrev pub init : System
init = record {
  mem = record { run = true; cancel = false; mutex = 0; asleep = false; listed = true; calls = 0 };
  worker = starting;
  creator = reading_id;
  pc = λ i. idle;
}

pub data Steps (s : System) : System → Type 0 where
  here : Steps s s
  later : {t u : System} → Steps s t → Step t u → Steps s u

abbrev pub Reach : System → Type 0
Reach s = Steps init s
