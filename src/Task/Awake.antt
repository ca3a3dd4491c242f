-- ===== src/Task/Awake.antt =====
-- Wake-ups of a paused task: the way from a command in progress to `mbb_task_resume`.
use mbb_devel.Prelude.{ℕ, ◌≡◌, Bool, true, false}
use mbb_devel.Task.{Shared, Pc, System, Act, update, idle}

-- The thread of a command is in the middle of one.
abbrev pub is_running : Pc → Bool
is_running idle = false
is_running _ = true

-- Moves of the commands that are being run alone, with no command begun, lead to a state in which
-- the worker was signalled.
pub data CanWake : System → Type 0 where
  awake : {s : System} → s.mem.asleep ≡ false → CanWake s
  then_wakes :
      {s : System} (i : ℕ) {m : Shared} {c : Pc}
      → is_running (s.pc i) ≡ true
      → Act i s.mem (s.pc i) m c
      → CanWake (record s { mem = m; pc = update s.pc i c })
      → CanWake s
