-- ===== src/MsgQueue/Tests.antt =====
-- A writer that takes at most two bytes, and a queue whose head is written in part.
use mbb_devel.Prelude.{ℕ, ◌≡◌, ◌++◌, arith, some, List, [], ◌∷◌}
use mbb_devel.Prelude.Int.{ℤ, pos, pos_part}
use mbb_devel.Prelude.Lists.{All, length, take}
use mbb_devel.MsgQueue.{MsgQueue, msg_const, msg_alloc, mbb_msg_queue_pop}
use mbb_devel.MsgQueue.Pending.{IsEntry, queued, pending, head_text, mbb_msg_queue_pop-pending}

abbrev write_two : List ℕ → Unit {0} → ℤ × Unit {0}
write_two text w = (pos (length (take 2 text)), tt)

abbrev two_messages : MsgQueue
two_messages = some (
    record { kind = msg_const; len = 4; off = 1; text = 1 ∷ 2 ∷ 3 ∷ 4 ∷ [] }
    ∷ record { kind = msg_alloc; len = 2; off = 0; text = 5 ∷ 6 ∷ [] }
    ∷ [])

mbb_msg_queue_pop-pending_example :
    (pending (queued two_messages)
      ≡ take
          (pos_part (mbb_msg_queue_pop write_two two_messages tt).0)
          (head_text (queued two_messages))
        ++ pending (queued (mbb_msg_queue_pop write_two two_messages tt).1))
    × All IsEntry (queued (mbb_msg_queue_pop write_two two_messages tt).1)
mbb_msg_queue_pop-pending_example =
    mbb_msg_queue_pop-pending write_two two_messages tt
      ((omega arith, omega arith), ((omega arith, omega arith), tt))
