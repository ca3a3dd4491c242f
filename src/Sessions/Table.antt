-- ===== src/Sessions/Table.antt =====
-- The table of sessions of mbbd/mbbsession.c while sessions come and go.
use mbb_devel.Prelude.{
  ℕ, ◌+◌, ◌%◌, ◌^◌, ◌<◌, ◌≡◌, ◌≢◌, refl, sym, ap, ◌∙◌, inl, inr, arith, Bool, false, Option, none,
  some, [], ◌∷◌, ◌||◌, ◌&&◌, not,
}
use mbb_devel.Prelude.Tests.{◌==◌, Bool-cases}
use mbb_devel.Prelude.Int.{ℤ}
use mbb_devel.Prelude.Lists.{All}
use mbb_devel.Prelude.Text.{Bytes}
use mbb_devel.Units.{Ids, ids_insert, ids_lookup, ids_remove}
use mbb_devel.Sessions.{
  SessionVar, SessionType, Sessions, is_some_id, table_of, session_at, mbb_session_new,
  mbb_session_has, mbb_session_quit,
}

-- All numbers are below the next one, and no two are equal.
abbrev pub IsBelow : ℕ → Ids → Type 0
IsBelow next [] = Unit
IsBelow next (r ∷ t) = (r.0 < next) × IsBelow next t

abbrev pub IsDistinct : Ids → Type 0
IsDistinct [] = Unit
IsDistinct (r ∷ t) = All (λ x. x.0 ≢ r.0) t × IsDistinct t

-- The invariant of the table, as long as the numbers have not wrapped.
abbrev pub IsTable : Sessions → Type 0
IsTable s = IsBelow s.session_id (table_of s.ht) × IsDistinct (table_of s.ht)

has_id : ℕ → Ids → Bool
has_id k t = is_some_id (ids_lookup k t)

has-table : (sid : ℕ) (s : Sessions) → mbb_session_has sid s ≡ has_id sid (table_of s.ht)
unfolding mbb_session_has has_id
has-table sid s = go s.ht
  where
    go : (o : Option Ids) → is_some_id (session_at sid o) ≡ is_some_id (ids_lookup sid (table_of o))
    go none = unfold ids_lookup in refl
    go (some t) = refl

has-insert : (k sid x : ℕ) (t : Ids) → has_id k (ids_insert sid x t) ≡ ((k == sid) || has_id k t)
unfolding has_id ids_insert ids_lookup
has-insert k sid x [] = ground arith
has-insert k sid x (r ∷ t) = ground (arith, has-insert k sid x t)

has-fresh : (next : ℕ) (t : Ids) → IsBelow next t → has_id next t ≡ false
unfolding has_id ids_lookup
has-fresh next [] h = refl
has-fresh next (r ∷ t) (l, h) = ground (arith, has-fresh next t h)

apart_none : (k : ℕ) (t : Ids) → All (λ x. x.0 ≢ k) t → has_id k t ≡ false
unfolding has_id ids_lookup
apart_none k [] h = refl
apart_none k (r ∷ t) (ne, h) =
    let other : (r.0 == k) ≡ false = ground arith in rw other (apart_none k t h)

has-remove :
    (k sid : ℕ) (t : Ids)
    → IsDistinct t
    → has_id k (ids_remove sid t) ≡ (not (k == sid) && has_id k t)
unfolding has_id ids_remove ids_lookup
has-remove k sid [] h = ground arith
has-remove k sid (r ∷ t) (d, h) = elim (Bool-cases (r.0 == sid)) [
  | inl e ↦ elim (Bool-cases (k == sid)) [
    | inl same ↦
        let eq : k ≡ r.0 = ground arith in
        let none_left : has_id k t ≡ false = rw eq (apart_none r.0 t d) in ground (arith, none_left)
    | inr other ↦ ground arith
  ]
  | inr e ↦ ground (arith, has-remove k sid t h)
]

insert-IsBelow : (next x : ℕ) (t : Ids) → IsBelow next t → IsBelow (next + 1) (ids_insert next x t)
unfolding ids_insert
insert-IsBelow next x [] h = (omega arith, tt)
insert-IsBelow next x (r ∷ t) (l, h) =
    let other : (r.0 == next) ≡ false = ground arith in
    rw other (omega arith, insert-IsBelow next x t h)

All-insert :
    (P : ℕ → Type 0) (next x : ℕ) (t : Ids)
    → IsBelow next t
    → P next
    → All (λ r. P r.0) t
    → All (λ r. P r.0) (ids_insert next x t)
unfolding ids_insert
All-insert P next x [] h p k = (p, tt)
All-insert P next x (r ∷ t) (l, h) p (k, ks) =
    let other : (r.0 == next) ≡ false = ground arith in rw other (k, All-insert P next x t h p ks)

insert-IsDistinct :
    (next x : ℕ) (t : Ids) → IsBelow next t → IsDistinct t → IsDistinct (ids_insert next x t)
unfolding ids_insert
insert-IsDistinct next x [] h d = (tt, tt)
insert-IsDistinct next x (r ∷ t) (l, h) (d, ds) =
    let other : (r.0 == next) ≡ false = ground arith in
    rw other
      (All-insert (λ n. n ≢ r.0) next x t h (λ e. omega arith) d, insert-IsDistinct next x t h ds)

remove-IsBelow : (next sid : ℕ) (t : Ids) → IsBelow next t → IsBelow next (ids_remove sid t)
unfolding ids_remove
remove-IsBelow next sid [] h = tt
remove-IsBelow next sid (r ∷ t) (l, h) = elim (Bool-cases (r.0 == sid)) [
  | inl e ↦ rw e h
  | inr e ↦ rw e (l, remove-IsBelow next sid t h)
]

All-remove :
    (P : ℕ → Type 0) (sid : ℕ) (t : Ids) → All (λ r. P r.0) t → All (λ r. P r.0) (ids_remove sid t)
unfolding ids_remove
All-remove P sid [] h = tt
All-remove P sid (r ∷ t) (k, h) = elim (Bool-cases (r.0 == sid)) [
  | inl e ↦ rw e h
  | inr e ↦ rw e (k, All-remove P sid t h)
]

remove-IsDistinct : (sid : ℕ) (t : Ids) → IsDistinct t → IsDistinct (ids_remove sid t)
unfolding ids_remove
remove-IsDistinct sid [] h = tt
remove-IsDistinct sid (r ∷ t) (d, h) = elim (Bool-cases (r.0 == sid)) [
  | inl e ↦ rw e h
  | inr e ↦ rw e (All-remove (λ n. n ≢ r.0) sid t d, remove-IsDistinct sid t h)
]

-- A new session gets a number that no session has, while numbers are left; it is then in the
-- table, and no other session's presence changes.
mbb_session_new-IsTable :
    {M : Type 0} (privs : ℕ → SessionVar M) (now : ℤ) (x : ℕ) (peer : Bytes) (port : ℕ)
    (type : SessionType) (s : Sessions) (m : M)
    → IsTable s
    → s.session_id + 1 < 2 ^ 32
    → (mbb_session_has (mbb_session_new privs now x peer port type s m).2 s ≡ false)
      × IsTable (mbb_session_new privs now x peer port type s m).0
      × ((sid : ℕ)
          → mbb_session_has sid (mbb_session_new privs now x peer port type s m).0
            ≡ ((sid == s.session_id) || mbb_session_has sid s))
unfolding mbb_session_new
mbb_session_new-IsTable privs now x peer port type s m (b, d) room = (
  has-table s.session_id s ∙ has-fresh s.session_id (table_of s.ht) b,
  rw (let e : (s.session_id + 1) % 2 ^ 32 ≡ s.session_id + 1 = omega arith in e) (
    insert-IsBelow s.session_id x (table_of s.ht) b,
    insert-IsDistinct s.session_id x (table_of s.ht) b d,
  ),
  λ sid.
      has-table sid (mbb_session_new privs now x peer port type s m).0
      ∙ has-insert sid s.session_id x (table_of s.ht)
      ∙ ap (λ h. (sid == s.session_id) || h) (sym (has-table sid s)),
)

quit-table :
    (sid : ℕ) (s : Sessions)
    → (table_of (mbb_session_quit sid s).ht ≡ ids_remove sid (table_of s.ht))
      × ((mbb_session_quit sid s).session_id ≡ s.session_id)
unfolding mbb_session_quit
quit-table sid s = go s.ht refl
  where
    removed : [] ≡ ids_remove sid []
    removed = unfold ids_remove in refl

    go :
        (o : Option Ids)
        → s.ht ≡ o
        → (table_of (mbb_session_quit sid s).ht ≡ ids_remove sid (table_of s.ht))
          × ((mbb_session_quit sid s).session_id ≡ s.session_id)
    go none e = (rw (mbb_session_quit, e) (ap table_of e ∙ removed), rw (mbb_session_quit, e) refl)
    go (some t) e = (rw (mbb_session_quit, e) refl, rw (mbb_session_quit, e) refl)

-- When a session quits, its number leaves the table, and no other session's presence changes.
mbb_session_quit-IsTable :
    (sid : ℕ) (s : Sessions)
    → IsTable s
    → IsTable (mbb_session_quit sid s)
      × ((k : ℕ)
          → mbb_session_has k (mbb_session_quit sid s) ≡ (not (k == sid) && mbb_session_has k s))
mbb_session_quit-IsTable sid s (b, d) =
    let (table, same) = quit-table sid s in
    (
      rw (table, same)
          (
            remove-IsBelow s.session_id sid (table_of s.ht) b,
            remove-IsDistinct sid (table_of s.ht) d,
          ),
      λ k.
          has-table k (mbb_session_quit sid s)
          ∙ ap (has_id k) table
          ∙ has-remove k sid (table_of s.ht) d
          ∙ ap (λ h. not (k == sid) && h) (sym (has-table k s)),
    )

-- A new session gets a number that no session has, while numbers are left. When a session quits
-- after that, the sessions in the table are those of before and the new one, less the one that
-- quit; the numbers in the table stay distinct and below the next one throughout.
pub mbb_session_quit-mbb_session_new :
    {M : Type 0} (privs : ℕ → SessionVar M) (now : ℤ) (x : ℕ) (peer : Bytes) (port : ℕ)
    (type : SessionType) (gone : ℕ) (s : Sessions) (m : M)
    → IsTable s
    → s.session_id + 1 < 2 ^ 32
    → (mbb_session_has (mbb_session_new privs now x peer port type s m).2 s ≡ false)
      × IsTable (mbb_session_new privs now x peer port type s m).0
      × IsTable (mbb_session_quit gone (mbb_session_new privs now x peer port type s m).0)
      × ((sid : ℕ)
          → mbb_session_has sid
              (mbb_session_quit gone (mbb_session_new privs now x peer port type s m).0)
            ≡ (not (sid == gone) && ((sid == s.session_id) || mbb_session_has sid s)))
mbb_session_quit-mbb_session_new privs now x peer port type gone s m h room =
    let (fresh, table, has) = mbb_session_new-IsTable privs now x peer port type s m h room in
    let (table', left) =
      mbb_session_quit-IsTable gone (mbb_session_new privs now x peer port type s m).0 table in
    (fresh, table, table', λ sid. left sid ∙ ap (λ b. not (sid == gone) && b) (has sid))
