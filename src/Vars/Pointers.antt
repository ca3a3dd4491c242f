-- ===== src/Vars/Pointers.antt =====
-- The pointers of variables, mbbd/mbbvar.c and mbbsession.c, and what is read through them in two
-- memories.
use mathlib.Core.Path.{subst}
use mbb_devel.Prelude.{
  ℕ, ◌≡◌, refl, sym, ap, arith, ◌⊎◌, inl, inr, true, Option, none, some, [], ◌∷◌,
}
use mbb_devel.Prelude.Tests.{◌==◌, ==_iff, Bool-cases, Option-cases}
use mbb_devel.Prelude.Text.{Bytes}
use mbb_devel.Sessions.{
  SessionVar, Sessions, set_session, new_data, session_insert_var, session_lookup_var,
  mbb_session_var_get_data,
}
use mbb_devel.Units.{Ids, ids_insert, ids_lookup}
use mbb_devel.Vars.{
  VarState, VarKind, base_var, session_var, data_pointer, mbb_var_can_read, var_data, mbb_var_read,
}

lookup-insert :
    (k i x p : ℕ) (t : Ids)
    → ids_lookup k (ids_insert i x t) ≡ some p
    → ((k ≡ i) × (p ≡ x)) ⊎ (ids_lookup k t ≡ some p)
unfolding ids_lookup ids_insert
lookup-insert k i x p [] e = elim (Bool-cases (i == k)) [
  | inl same ↦ inl (sym ((==_iff i k).0 same), ground (arith, e))
  | inr other ↦ absurd (ground (arith, e))
]
lookup-insert k i x p (r ∷ t) e = elim (Bool-cases (r.0 == i)) [
  | inl hit ↦ elim (Bool-cases (i == k)) [
    | inl same ↦ inl (sym ((==_iff i k).0 same), ground (arith, e))
    | inr other ↦ inr (ground (arith, e))
  ]
  | inr miss ↦ elim (Bool-cases (r.0 == k)) [
    | inl same ↦ inr (ground (arith, e))
    | inr other ↦
        let deeper : ids_lookup k (ids_insert i x t) ≡ some p = ground (arith, e) in
        elim (lookup-insert k i x p t deeper) [
          | inl found ↦ inl found
          | inr found ↦ inr (rw other found)
        ]
  ]
]

module _ {M : Type 0} where
  abbrev pub read_by : Option (ℕ → M → Option Bytes) → ℕ → M → Option Bytes
  read_by none p m = none
  read_by (some f) p m = f p m

  -- The state with another memory.
  abbrev pub with_memory : M → VarState M → VarState M
  with_memory m w = record w { memory = m }

  -- `May x p`: the variable `x` may have the pointer `p`.
  module _ (Related : M → M → Type 0) (May : ℕ → ℕ → Type 0) where
    -- What is read through a pointer of a variable that `mask` may read is the same in any two
    -- related memories; and the data that may be made for it in a session has the same pointer, and
    -- leaves the memories related.
    abbrev pub IsHidden : (ℕ → SessionVar M) → ℕ → VarState M → Type 0
    IsHidden privs mask w =
        (x : ℕ)
        → mbb_var_can_read (w.heap x) mask ≡ true
        → (m n : M) → Related m n
        → ((p : ℕ)
            → May x p
            → read_by (w.heap x).def.op_read p n ≡ read_by (w.heap x).def.op_read p m)
          × ((new_data privs (privs x) n).1 ≡ (new_data privs (privs x) m).1)
          × Related (new_data privs (privs x) m).0 (new_data privs (privs x) n).0

    -- A base variable may have its pointer; one of the sessions that which is made for it, those
    -- that the sessions have, and NULL for a thread without a session.
    abbrev pub Points : (ℕ → SessionVar M) → Option ℕ → Sessions → ℕ → VarKind → Type 0
    Points privs current s x (base_var q) = May x q
    Points privs current s x session_var =
        ((m : M) → May x (new_data privs (privs x) m).1)
        × (current ≡ none → May x 0)
        × ((k p : ℕ) → session_lookup_var (s.heap k) x ≡ some p → May x p)

    abbrev pub IsPointed : (ℕ → SessionVar M) → Option ℕ → ℕ → VarState M → Type 0
    IsPointed privs current mask w =
        (x : ℕ)
        → mbb_var_can_read (w.heap x) mask ≡ true
        → Points privs current w.sessions x (w.heap x).kind

    -- The sessions have the pointers of before, and one that `x` may have.
    abbrev Kept : ℕ → Sessions → Sessions → Type 0
    Kept x s s' =
        (k y p : ℕ)
        → session_lookup_var (s'.heap k) y ≡ some p
        → ((y ≡ x) × May x p) ⊎ (session_lookup_var (s.heap k) y ≡ some p)

    module _ (privs : ℕ → SessionVar M) (current : Option ℕ) (mask : ℕ) where
      move-Points :
          (x y : ℕ) (s s' : Sessions) (k : VarKind)
          → Kept x s s'
          → Points privs current s y k
          → Points privs current s' y k
      move-Points x y s s' (base_var q) kept h = h
      move-Points x y s s' session_var kept (made, nil, has) = (
        made,
        nil,
        λ k p e. elim (kept k y p e) [
          | inl (same, may) ↦ subst (λ v. May v p) (sym same) may
          | inr old ↦ has k p old
        ],
      )

      Kept-insert :
          (c x : ℕ) (s : Sessions) (m : M)
          → May x (new_data privs (privs x) m).1
          → Kept x s (set_session c (session_insert_var privs (s.heap c) x m).0 s)
      unfolding session_insert_var session_lookup_var
      Kept-insert c x s m may k y p e = elim (Bool-cases (k == c)) [
        | inr other ↦ inr (rw other at e)
        | inl same ↦
            let stored : ids_lookup y (ids_insert x (new_data privs (privs x) m).1 (s.heap c).vars)
                ≡ some p =
              rw same at e in
            elim (lookup-insert y x (new_data privs (privs x) m).1 p (s.heap c).vars stored) [
              | inl (yx, pd) ↦ inl (yx, subst (λ v. May x v) (sym pd) may)
              | inr old ↦ inr (
                  subst (λ v. ids_lookup y (s.heap v).vars ≡ some p) (sym ((==_iff k c).0 same))
                    old)
            ]
      ]

      -- The data of a session variable, taken or made in two related memories.
      data_alike :
          (c : Option ℕ) (x : ℕ) (s : Sessions) (m n : M)
          → Related m n
          → ((new_data privs (privs x) n).1 ≡ (new_data privs (privs x) m).1)
            × Related (new_data privs (privs x) m).0 (new_data privs (privs x) n).0
          → ((k : M) → May x (new_data privs (privs x) k).1)
          → (c ≡ none → May x 0)
          → ((k p : ℕ) → session_lookup_var (s.heap k) x ≡ some p → May x p)
          → (s' : Sessions) × (m' n' : M) × (o : Option ℕ) × Related m' n'
            × May x (data_pointer o)
            × Kept x s s'
            × (mbb_session_var_get_data privs c x s m ≡ (s', m', o))
            × (mbb_session_var_get_data privs c x s n ≡ (s', n', o))
      unfolding mbb_session_var_get_data session_insert_var
      data_alike none x s m n r (same, rel) made nil has =
          (s, m, n, none, r, nil refl, λ k y p e. inr e, refl, refl)
      data_alike (some c) x s m n r (same, rel) made nil has =
          elim (Option-cases (session_lookup_var (s.heap c) x)) [
            | inr (p, e) ↦ (
              s,
              m,
              n,
              some p,
              r,
              has c p e,
              λ k y q e'. inr e',
              rw (mbb_session_var_get_data, e) refl,
              rw (mbb_session_var_get_data, e) refl,
            )
            | inl e ↦ (
              set_session c (session_insert_var privs (s.heap c) x m).0 s,
              (new_data privs (privs x) m).0,
              (new_data privs (privs x) n).0,
              some (new_data privs (privs x) m).1,
              rel,
              made m,
              Kept-insert c x s m (made m),
              rw (mbb_session_var_get_data, e) refl,
              rw (mbb_session_var_get_data, e, session_insert_var, same) refl,
            )
          ]

      -- Reading a variable that may be read gives one value in both memories.
      pub read_alike :
          (x : ℕ) (w : VarState M) (n : M)
          → IsHidden privs mask w
          → IsPointed privs current mask w
          → Related w.memory n
          → mbb_var_can_read (w.heap x) mask ≡ true
          → (s : Sessions) × (m' n' : M) × (value : Option Bytes) × Related m' n'
            × IsPointed privs current mask (record w { sessions = s; memory = m' })
            × (mbb_var_read privs current x w
                ≡ some (record w { sessions = s; memory = m' }, value))
            × (mbb_var_read privs current x (with_memory n w)
                ≡ some (record w { sessions = s; memory = n' }, value))
      unfolding mbb_var_read var_data mbb_var_can_read
      read_alike x w n h pt r c = elim (Option-cases (w.heap x).def.op_read) [
        | inl e ↦ absurd (ground (arith, rw e at c))
        | inr (f, e) ↦ go (w.heap x).kind refl f e
      ]
        where
          same :
              (f : ℕ → M → Option Bytes)
              → (w.heap x).def.op_read ≡ some f
              → (k m : M) → Related k m
              → (p : ℕ) → May x p
              → f p m ≡ f p k
          same f e k m r p q = subst (λ o. read_by o p m ≡ read_by o p k) e ((h x c k m r).0 p q)

          go :
              (k : VarKind)
              → (w.heap x).kind ≡ k
              → (f : ℕ → M → Option Bytes) → (w.heap x).def.op_read ≡ some f
              → (s : Sessions) × (m' n' : M) × (value : Option Bytes) × Related m' n'
                × IsPointed privs current mask (record w { sessions = s; memory = m' })
                × (mbb_var_read privs current x w
                    ≡ some (record w { sessions = s; memory = m' }, value))
                × (mbb_var_read privs current x (with_memory n w)
                    ≡ some (record w { sessions = s; memory = n' }, value))
          go (base_var p) k f e = (
            w.sessions,
            w.memory,
            n,
            f p w.memory,
            r,
            pt,
            rw (mbb_var_read, var_data, e, k) refl,
            rw (mbb_var_read, var_data, e, k)
                (ap (λ v. some (with_memory n w, v))
                  (same f e w.memory n r p (subst (Points privs current w.sessions x) k (pt x c)))),
          )
          go session_var k f e =
              let (made, nil, has) = subst (Points privs current w.sessions x) k (pt x c) in
              let (s, m', n', o, r', may, kept, a, b) =
                data_alike current x w.sessions w.memory n r
                  ((h x c w.memory n r).1, (h x c w.memory n r).2) made nil has in
              (
                s,
                m',
                n',
                f (data_pointer o) m',
                r',
                λ y d. move-Points x y w.sessions s (w.heap y).kind kept (pt y d),
                rw (mbb_var_read, var_data, e, k, a) refl,
                rw (mbb_var_read, var_data, e, k, b)
                    (ap (λ v. some (record w { sessions = s; memory = n' }, v))
                      (same f e m' n' r' (data_pointer o) may)),
              )
