-- ===== src/Sessions/Tests.antt =====
-- A table with the sessions 1 and 2, where the next number is 3.
use mbb_devel.Prelude.{ℕ, ◌≡◌, arith, false, none, some, [], ◌∷◌, ◌||◌, ◌&&◌, not}
use mbb_devel.Prelude.Tests.{◌==◌}
use mbb_devel.Prelude.Int.{pos}
use mbb_devel.Prelude.Text.{codes}
use mbb_devel.Sessions.{
  Session, SessionVar, Sessions, mbb_session_xml, mbb_session_new, mbb_session_has,
  mbb_session_quit,
}
use mbb_devel.Sessions.Table.{IsTable, mbb_session_quit-mbb_session_new}

abbrev privs : ℕ → SessionVar ℕ
privs x = record { op_new = none; data_ptr = 4 }

abbrev session : Session
session = record {
  user = 0;
  peer = codes "a";
  port = 80;
  type = mbb_session_xml;
  start = pos 0;
  mtime = pos 0;
  killed = false;
  kill_msg = none;
  vars = [];
  cached_vars = none;
}

abbrev two_sessions : Sessions
two_sessions = record {
  session_id = 3;
  ht = some ((1, 10) ∷ (2, 20) ∷ []);
  heap = λ x. session;
  var_queue = 5 ∷ [];
}

two_sessions-IsTable : IsTable two_sessions
two_sessions-IsTable = omega arith

mbb_session_quit-mbb_session_new_example :
    (mbb_session_has
        (mbb_session_new privs (pos 9) 30 (codes "b") 81 mbb_session_xml two_sessions 0).2
        two_sessions
      ≡ false)
    × IsTable (mbb_session_new privs (pos 9) 30 (codes "b") 81 mbb_session_xml two_sessions 0).0
    × IsTable (
        mbb_session_quit 1
          (mbb_session_new privs (pos 9) 30 (codes "b") 81 mbb_session_xml two_sessions 0).0)
    × ((sid : ℕ)
        → mbb_session_has sid (
            mbb_session_quit 1
              (mbb_session_new privs (pos 9) 30 (codes "b") 81 mbb_session_xml two_sessions 0).0)
          ≡ (not (sid == 1) && ((sid == 3) || mbb_session_has sid two_sessions)))
mbb_session_quit-mbb_session_new_example =
    mbb_session_quit-mbb_session_new privs (pos 9) 30 (codes "b") 81 mbb_session_xml 1 two_sessions
      0 two_sessions-IsTable (omega arith)
