-- ===== src/MsgQueue.antt =====
-- mbbd/mbbmsgqueue.c: messages that wait to be written. The mutex, which guards the queue against
-- other threads, and the freeing of written messages are left out.
pub mod Pending
mod Tests
use mbb_devel.Prelude.{
  ℕ, ◌+◌, ◌-◌, ◌%◌, ◌^◌, Bool, true, false, Option, none, some, List, [], ◌∷◌, ◌++◌, ◌&&◌,
}
use mbb_devel.Prelude.Tests.{ltb, ◌==◌, if◌then◌else◌}
use mbb_devel.Prelude.Int.{ℤ, pos, is_pos, pos_part}
use mbb_devel.Prelude.Lists.{length, take, drop}

-- MSG_CONST, MSG_ALLOC, MSG_SHARED.
pub data MsgType : Type 0 where
  msg_const msg_alloc msg_shared : MsgType

-- `text` has the bytes that `un.text`, or the data of `un.msg`, points to.
pub record MsgEntry : Type 0 where
  pub kind : MsgType
  pub len : ℕ
  pub off : ℕ
  pub text : List ℕ

-- `queue` is NULL before the first message.
abbrev pub MsgQueue : Type 0
MsgQueue = Option (List MsgEntry)

pub mbb_msg_queue_push_entry : MsgQueue → MsgEntry → MsgQueue
mbb_msg_queue_push_entry none entry = some (record entry { off = 0 } ∷ [])
mbb_msg_queue_push_entry (some q) entry = some (q ++ record entry { off = 0 } ∷ [])

pub mbb_msg_queue_push_shared : MsgQueue → List ℕ → ℕ → MsgQueue
mbb_msg_queue_push_shared q msg len =
    mbb_msg_queue_push_entry q (record { kind = msg_shared; len = len; off = 0; text = msg })

pub mbb_msg_queue_push_alloc : MsgQueue → List ℕ → ℕ → MsgQueue
mbb_msg_queue_push_alloc q text len =
    mbb_msg_queue_push_entry q (record { kind = msg_alloc; len = len; off = 0; text = text })

pub mbb_msg_queue_push_const : MsgQueue → List ℕ → ℕ → MsgQueue
mbb_msg_queue_push_const q text len =
    mbb_msg_queue_push_entry q (record { kind = msg_const; len = len; off = 0; text = text })

-- `entry->len - entry->off`, a gsize.
abbrev pub len_left : MsgEntry → ℕ
len_left e = (e.len + (2 ^ 64 - e.off % 2 ^ 64)) % 2 ^ 64

-- The bytes that `func` gets.
abbrev pub rest_text : MsgEntry → List ℕ
rest_text e = take (len_left e) (drop e.off e.text)

-- The queue after `n` bytes of its head are written.
pub written : ℤ → MsgEntry → List MsgEntry → List MsgEntry
written n e q =
    if is_pos n
    then (if ltb (pos_part n) (len_left e) then record e { off = e.off + pos_part n } ∷ q else q)
    else e ∷ q

-- `func` has a state of its own.
pub mbb_msg_queue_pop : {W : Type 0} → (List ℕ → W → ℤ × W) → MsgQueue → W → ℤ × MsgQueue × W
mbb_msg_queue_pop func none w = (pos 0, none, w)
mbb_msg_queue_pop func (some []) w = (pos 0, some [], w)
mbb_msg_queue_pop func (some (e ∷ q)) w =
    let r = func (rest_text e) w in (r.0, some (written r.0 e q), r.1)

pub mbb_msg_queue_is_empty : MsgQueue → Bool
mbb_msg_queue_is_empty none = true
mbb_msg_queue_is_empty (some q) = length q == 0

pub mbb_msg_queue_get_length : MsgQueue → ℕ
mbb_msg_queue_get_length none = 0
mbb_msg_queue_get_length (some q) = length q
