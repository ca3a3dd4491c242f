-- ===== src/Sessions.antt =====
-- mbbd/mbbsession.c and mbbsession.h: the table of sessions by their numbers, and the variables that
-- each session has. A session is found in a heap by its address; NULL is 0 or `none`. The clock is
-- a parameter. Locks, logging, reference counts and freeing are left out, so `op_free` of a
-- variable is not called, and a session that is removed stays in the heap.
pub mod Table
mod Tests
use mbb_devel.Prelude.{
  ℕ, ◌+◌, ◌%◌, ◌^◌, Bool, true, false, Option, none, some, List, [], ◌∷◌, ◌++◌, ◌||◌,
}
use mbb_devel.Prelude.Tests.{◌==◌, if◌then◌else◌}
use mbb_devel.Prelude.Int.{ℤ, pos}
use mbb_devel.Prelude.Slists.{slist_remove}
use mbb_devel.Prelude.Text.{Bytes, codes}
use mbb_devel.Variant.{
  Variant, variant_new_int, variant_new_string, variant_new_alloc_string, signed,
}
use mbb_devel.XmlTag.{XmlTag, xml_tag_new, xml_tag_set_attr, xml_tag_add_child}
use mbb_devel.Units.{Ids, ids_insert, ids_lookup, ids_remove}
use mbb_devel.Messages.{mbb_xml_msg_ok, MbbMsg, msg_unknown_session, mbb_xml_msg}

-- `mbb_session_type`.
pub data SessionType : Type 0 where
  mbb_session_xml : SessionType
  mbb_session_http : SessionType

abbrev pub Vars : Type 0
Vars = List (ℕ × ℕ)

-- `struct mbb_session`; the user NULL is 0.
pub record Session : Type 0 where
  pub user : ℕ
  pub peer : Bytes
  pub port : ℕ
  pub type : SessionType
  pub start : ℤ
  pub mtime : ℤ
  pub killed : Bool
  pub kill_msg : Option Bytes
  pub vars : Vars
  pub cached_vars : Option (List (Bytes × Bytes))

-- `struct mbb_session_var`, as far as it is used: `op_new` or NULL, and the data. What the data
-- points to is in a memory; `op_new` (as `g_ptr_strdup`, or `g_ptr_vardup` of a base variable) may
-- read any of it, and makes a new cell, to which it gives a pointer.
pub record SessionVar (M : Type 0) : Type 0 where
  pub op_new : Option (ℕ → M → M × ℕ)
  pub data_ptr : ℕ

-- The module's variables, with the heap of the sessions.
pub record Sessions : Type 0 where
  pub session_id : ℕ
  pub ht : Option Ids
  pub heap : ℕ → Session
  pub var_queue : List ℕ

abbrev pub set_session : ℕ → Session → Sessions → Sessions
set_session x ss s = record s { heap = λ y. if y == x then ss else s.heap y }

unfoldable pub mbb_session_add_var : ℕ → Sessions → Sessions
mbb_session_add_var var s = record s { var_queue = s.var_queue ++ var ∷ [] }

unfoldable pub session_lookup_var : Session → ℕ → Option ℕ
session_lookup_var ss var = ids_lookup var ss.vars

-- What the loop of `mbb_session_del_var` makes of one session.
unfoldable pub without_var : ℕ → Session → Session
without_var var ss = elim (session_lookup_var ss var) [
  | none ↦ ss
  | some found ↦ record ss { vars = ids_remove var ss.vars }
]

unfoldable pub del_from_all : ℕ → Ids → Sessions → Sessions
del_from_all var [] s = s
del_from_all var (r ∷ t) s = del_from_all var t (set_session r.1 (without_var var (s.heap r.1)) s)

unfoldable pub mbb_session_del_var : ℕ → Sessions → Sessions
mbb_session_del_var var s =
    let s' = record s { var_queue = slist_remove var s.var_queue } in
    elim s.ht [ none ↦ s' | some t ↦ del_from_all var t s' ]

abbrev pub table_of : Option Ids → Ids
table_of none = []
table_of (some t) = t

module _ {M : Type 0} (privs : ℕ → SessionVar M) where
  -- The memory after the call, and the data.
  unfoldable pub new_data : SessionVar M → M → M × ℕ
  new_data priv m = elim priv.op_new [ none ↦ (m, priv.data_ptr) | some new ↦ new priv.data_ptr m ]

  -- The session and the memory after the call, and the data.
  unfoldable pub session_insert_var : Session → ℕ → M → Session × M × ℕ
  session_insert_var ss var m =
      let found = new_data (privs var) m in
      (record ss { vars = ids_insert var found.1 ss.vars }, found.0, found.1)

  -- `current` is the session of the thread. The result NULL is `none`.
  unfoldable pub mbb_session_var_get_data : Option ℕ → ℕ → Sessions → M → Sessions × M × Option ℕ
  mbb_session_var_get_data none var s m = (s, m, none)
  mbb_session_var_get_data (some x) var s m = elim (session_lookup_var (s.heap x) var) [
    | some found ↦ (s, m, some found)
    | none ↦ (let r = session_insert_var (s.heap x) var m in (set_session x r.0 s, r.1, some r.2))
  ]

  -- The loop of `session_vars_init`.
  unfoldable pub insert_vars : List ℕ → Session → M → Session × M
  insert_vars [] ss m = (ss, m)
  insert_vars (var ∷ queue) ss m = let r = session_insert_var ss var m in insert_vars queue r.0 r.1

  unfoldable pub session_vars_init : List ℕ → Session → M → Session × M
  session_vars_init queue ss m = insert_vars queue (record ss { vars = [] }) m

  -- The session as `mbb_session_new` sets it up before it takes the lock, and the memory.
  unfoldable pub new_session : ℤ → Bytes → ℕ → SessionType → List ℕ → M → Session × M
  new_session now peer port type queue m =
      session_vars_init queue
        (record {
          user = 0;
          peer = peer;
          port = port;
          type = type;
          start = now;
          mtime = now;
          killed = false;
          kill_msg = none;
          vars = [];
          cached_vars = none;
        })
        m

  -- The session at `x` is entered; `session_id++` is that of a guint. The result is its number.
  unfoldable pub mbb_session_new : ℤ → ℕ → Bytes → ℕ → SessionType → Sessions → M → Sessions × M × ℕ
  mbb_session_new now x peer port type s m =
      let sid = s.session_id in
      let r = new_session now peer port type s.var_queue m in
      let s' = set_session x r.0 s in
      (
        record s' { session_id = (sid + 1) % 2 ^ 32; ht = some (ids_insert sid x (table_of s.ht)) },
        r.1,
        sid,
      )

unfoldable pub mbb_session_touch : ℤ → Session → Session
mbb_session_touch now ss = record ss { mtime = now }

abbrev pub is_some_id : Option ℕ → Bool
is_some_id none = false
is_some_id (some x) = true

abbrev pub session_at : ℕ → Option Ids → Option ℕ
session_at sid none = none
session_at sid (some t) = ids_lookup sid t

unfoldable pub mbb_session_has : ℕ → Sessions → Bool
mbb_session_has sid s = is_some_id (session_at sid s.ht)

unfoldable pub mbb_session_quit : ℕ → Sessions → Sessions
mbb_session_quit sid s = elim s.ht [ none ↦ s | some t ↦ record s { ht = some (ids_remove sid t) } ]

abbrev pub is_http : SessionType → Bool
is_http mbb_session_http = true
is_http mbb_session_xml = false

unfoldable pub mbb_session_is_http : Option ℕ → Sessions → Bool
mbb_session_is_http none s = false
mbb_session_is_http (some x) s = is_http (s.heap x).type

abbrev pub created_vars : Option (List (Bytes × Bytes)) → Option (List (Bytes × Bytes))
created_vars none = some []
created_vars (some t) = some t

-- The table of the cached variables, which is made if `create` is set.
unfoldable pub mbb_session_get_cached :
    Option ℕ → Bool → Sessions → Sessions × Option (List (Bytes × Bytes))
mbb_session_get_cached none create s = (s, none)
mbb_session_get_cached (some x) create s =
    let vars = created_vars (s.heap x).cached_vars in
    if create
    then (set_session x (record (s.heap x) { cached_vars = vars }) s, vars)
    else (s, (s.heap x).cached_vars)

module _ (user_name : ℕ → Bytes) where
  unfoldable pub gather_session : Bool → ℕ → Session → XmlTag → XmlTag
  gather_session show_mtime sid ss ans =
      let username = if ss.user == 0 then codes "*" else user_name ss.user in
      let xt =
        xml_tag_new (codes "session")
          ((codes "sid", variant_new_int (pos sid))
            ∷ (codes "user", variant_new_alloc_string (some username))
            ∷ (codes "peer", variant_new_string (some ss.peer))
            ∷ (codes "start", variant_new_alloc_string (some (signed ss.start)))
            ∷ [])
          none in
      xml_tag_add_child ans (
        if show_mtime
        then xml_tag_set_attr xt (codes "mtime") (variant_new_alloc_string (some (signed ss.mtime)))
        else xt)

  unfoldable pub gather_all : Bool → Ids → Sessions → XmlTag → XmlTag
  gather_all show_mtime [] s ans = ans
  gather_all show_mtime (r ∷ t) s ans =
      gather_all show_mtime t s (gather_session show_mtime r.0 (s.heap r.1) ans)

  -- The answer; NULL is `none`.
  unfoldable pub show_sessions : Bool → Sessions → Option XmlTag
  show_sessions show_mtime s = elim s.ht [
    | none ↦ none
    | some t ↦ some (gather_all show_mtime t s mbb_xml_msg_ok)
  ]

  -- `ss->kill_msg`, when the current session has a user.
  abbrev pub kill_message : Option ℕ → Sessions → Option Bytes → Option Bytes
  kill_message none s old = old
  kill_message (some x) s old =
      if (s.heap x).user == 0 then old else some (codes "killed by " ++ user_name (s.heap x).user)

  -- The state, the answer, and the number of the thread that is raised at the end.
  unfoldable pub kill_session :
      (Bytes → List Variant → Bytes) → Option ℕ → ℕ → Sessions → Sessions × Option XmlTag × Option ℕ
  kill_session vprintf current sid s = elim (session_at sid s.ht) [
    | none ↦ (s, some (mbb_xml_msg vprintf msg_unknown_session []), none)
    | some x ↦
        (let ss = record (s.heap x) { killed = true } in
          let s' = set_session x ss s in
          (
            set_session x (record ss { kill_msg = kill_message current s' ss.kill_msg }) s',
            none,
            some sid,
          ))
  ]
