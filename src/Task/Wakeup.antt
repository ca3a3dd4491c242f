-- ===== src/Task/Wakeup.antt =====
-- Wake-ups of a paused task: what `mbb_task_pause` waits for, and who is to signal it.
use mbb_devel.Prelude.{ℕ, ◌≡◌, ◌⊎◌, Bool, true, false}
use mbb_devel.Task.{Shared, Pc, cancel_locking, cancel_testing, cancel_resuming, signalling}

-- The command is about to call `mbb_task_resume`, the mutex in its hands.
abbrev pub is_signalling : Pc → Bool
is_signalling signalling = true
is_signalling _ = false

-- `task_cancel` has set `cancel`, and has not yet looked at `run` or is about to set it.
abbrev pub is_cancelling : Pc → Bool
is_cancelling cancel_locking = true
is_cancelling cancel_testing = true
is_cancelling cancel_resuming = true
is_cancelling _ = false

-- Some thread of a command is at such a place.
abbrev pub Some : (Pc → Bool) → (ℕ → Pc) → Type 0
Some at pc = (i : ℕ) × (at (pc i) ≡ true)

-- If the worker sleeps, it will be signalled, or it is stopped, and not cancelled unless the
-- canceller has yet to resume it.
abbrev pub Promise : Shared → (ℕ → Pc) → Type 0
Promise m pc =
    m.asleep ≡ true
    → Some is_signalling pc ⊎ ((m.run ≡ false) × ((m.cancel ≡ false) ⊎ Some is_cancelling pc))
