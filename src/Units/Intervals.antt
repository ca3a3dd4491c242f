-- ===== src/Units/Intervals.antt =====
-- `mbb_consumer_mod_time` with the tests of units and networks that it calls.
use mbb_devel.Prelude.{
  ℕ, ◌≡◌, ◌≢◌, ◌⊎◌, refl, sym, ◌∙◌, arith, inl, inr, Bool, true, false, List, [], ◌∷◌, ◌||◌, not,
}
use mbb_devel.Prelude.Tests.{◌==◌, if◌then◌else◌, Bool-cases, ==-refl}
use mbb_devel.Prelude.Int.{ℤ, is_neg, is_pos}
use mbb_devel.Prelude.Lists.{All}
use mbb_devel.Times.{is_parent, mbb_time_becmp, mbb_time_pbecmp}
use mbb_devel.Objects.Consumer.{Consumer, mbb_consumer_mod_time, units_fit}
use mbb_devel.Units.{MbbUnit, InetPoolEntry, set_consumer_at}
use mbb_devel.Units.Times.{
  mbb_unit_get_start, mbb_unit_get_end, mbb_inet_pool_entry_get_start, mbb_inet_pool_entry_get_end,
  mbb_inet_pool_entry_test_time, unit_test_inet_time, mbb_unit_test_time,
}

-- An interval does not end before it starts.
abbrev pub InTime : ℤ → ℤ → Type 0
InTime start end = is_pos (mbb_time_becmp start end) ≡ false

-- A bound is a time, or -1 for the bound of the owner.
abbrev pub IsBound : ℤ → Type 0
IsBound t = is_neg t ≡ is_parent t

module _ (consumers : ℕ → Consumer) (entries : ℕ → InetPoolEntry) where
  -- The intervals of a unit and of each of its networks, inherited bounds included.
  abbrev pub IsTimed : MbbUnit → Type 0
  IsTimed unit =
      InTime (mbb_unit_get_start consumers unit) (mbb_unit_get_end consumers unit)
      × All
          (λ e.
            InTime (mbb_inet_pool_entry_get_start consumers unit (entries e))
              (mbb_inet_pool_entry_get_end consumers unit (entries e)))
          unit.sep

  inherited_start :
      (unit : MbbUnit) (entry : InetPoolEntry) (start : ℤ)
      → IsBound entry.start
      → mbb_unit_get_start consumers unit ≡ start
      → mbb_inet_pool_entry_get_start consumers unit entry
        ≡ (if is_parent entry.start then start else entry.start)
  unfolding mbb_inet_pool_entry_get_start
  inherited_start unit entry start b s = rw (b, s) (ground arith)

  inherited_end :
      (unit : MbbUnit) (entry : InetPoolEntry) (end : ℤ)
      → IsBound entry.end
      → mbb_unit_get_end consumers unit ≡ end
      → mbb_inet_pool_entry_get_end consumers unit entry
        ≡ (if is_parent entry.end then end else entry.end)
  unfolding mbb_inet_pool_entry_get_end
  inherited_end unit entry end b s = rw (b, s) (ground arith)

  test_time-InTime :
      (unit : MbbUnit) (entry : InetPoolEntry) (start end : ℤ)
      → IsBound entry.start
      → IsBound entry.end
      → mbb_unit_get_start consumers unit ≡ start
      → mbb_unit_get_end consumers unit ≡ end
      → mbb_inet_pool_entry_test_time entry start end ≡ true
      → InTime
          (mbb_inet_pool_entry_get_start consumers unit entry)
          (mbb_inet_pool_entry_get_end consumers unit entry)
  unfolding mbb_inet_pool_entry_test_time mbb_time_pbecmp
  test_time-InTime unit entry start end bs be s e h =
      rw (inherited_start unit entry start bs s, inherited_end unit entry end be e) (not_true _ h)
    where
      not_true : (b : Bool) → not b ≡ true → b ≡ false
      not_true true h = cc
      not_true false h = refl

  test_inet_time-InTime :
      (unit : MbbUnit) (sep : List ℕ) (start end : ℤ)
      → ((e : ℕ) → IsBound (entries e).start × IsBound (entries e).end)
      → mbb_unit_get_start consumers unit ≡ start
      → mbb_unit_get_end consumers unit ≡ end
      → unit_test_inet_time entries sep start end ≡ true
      → All
          (λ e.
            InTime
              (mbb_inet_pool_entry_get_start consumers unit (entries e))
              (mbb_inet_pool_entry_get_end consumers unit (entries e)))
          sep
  unfolding unit_test_inet_time
  test_inet_time-InTime unit [] start end b s e h = tt
  test_inet_time-InTime unit (x ∷ sep) start end b s e h = (
    test_time-InTime unit (entries x) start end (b x).0 (b x).1 s e (ground arith),
    test_inet_time-InTime unit sep start end b s e (ground arith),
  )

  bound_lem :
      (b : Bool) (own others : ℤ) (con : ℕ)
      → con ≢ 0
      → (if not b || con == 0 then own else others) ≡ (if b then others else own)
  bound_lem true own others con has = ground arith
  bound_lem false own others con has = refl

  unit_test_lem :
      (unit : MbbUnit)
      → unit.con ≢ 0
      → mbb_unit_test_time entries unit (consumers unit.con).start (consumers unit.con).end ≡ (
          if is_pos
            (mbb_time_becmp (mbb_unit_get_start consumers unit) (mbb_unit_get_end consumers unit))
          then false
          else unit_test_inet_time entries unit.sep
              (mbb_unit_get_start consumers unit)
              (mbb_unit_get_end consumers unit))
  unfolding mbb_unit_test_time mbb_unit_get_start mbb_unit_get_end
  unit_test_lem unit has = rw (own_start, own_end) refl
    where
      own_start :
          mbb_unit_get_start consumers unit
          ≡ (if is_neg unit.start then (consumers unit.con).start else unit.start)
      own_start = bound_lem (is_neg unit.start) unit.start (consumers unit.con).start unit.con has

      own_end :
          mbb_unit_get_end consumers unit
          ≡ (if is_neg unit.end then (consumers unit.con).end else unit.end)
      own_end = bound_lem (is_neg unit.end) unit.end (consumers unit.con).end unit.con has

  accepted : (p q : Bool) → (if p then false else q) ≡ true → (p ≡ false) × (q ≡ true)
  accepted true q h = cc
  accepted false q h = (refl, h)

  -- A unit whose interval is tested with the bounds of its consumer.
  test_time-IsTimed :
      (unit : MbbUnit)
      → ((e : ℕ) → IsBound (entries e).start × IsBound (entries e).end)
      → unit.con ≢ 0
      → mbb_unit_test_time entries unit (consumers unit.con).start (consumers unit.con).end ≡ true
      → IsTimed unit
  test_time-IsTimed unit b has h =
      let (ordered, fits) = accepted _ _ (sym (unit_test_lem unit has) ∙ h) in
      (ordered, test_inet_time-InTime unit unit.sep _ _ b refl refl fits)

module _ (units : ℕ → MbbUnit) (entries : ℕ → InetPoolEntry) where
  abbrev pub test_time : ℕ → ℤ → ℤ → Bool
  test_time u start end = mbb_unit_test_time entries (units u) start end

  units_fit-IsTimed :
      (consumers : ℕ → Consumer) (c : ℕ) (us : List ℕ)
      → c ≢ 0
      → ((e : ℕ) → IsBound (entries e).start × IsBound (entries e).end)
      → All (λ u. (units u).con ≡ c) us
      → units_fit test_time (consumers c).start (consumers c).end us ≡ true
      → All (λ u. IsTimed consumers entries (units u)) us
  unfolding units_fit
  units_fit-IsTimed consumers c [] some_con b own h = tt
  units_fit-IsTimed consumers c (u ∷ us) some_con b (o, own) h = (
    test_time-IsTimed consumers entries (units u) b (rw o some_con) (rw o (ground arith)),
    units_fit-IsTimed consumers c us some_con b own (ground arith),
  )

  -- A change of the time of a consumer: if it is refused, the consumer is as it was. If it is
  -- accepted, the consumer's interval is in order, and so are then the intervals of its units and
  -- of the networks of those, inherited bounds included; if each of its units refers to it, and
  -- each bound of a network is a time or -1.
  pub mbb_consumer_mod_time-IsTimed :
      (consumers : ℕ → Consumer) (c : ℕ) (start end : ℤ)
      → c ≢ 0
      → ((e : ℕ) → IsBound (entries e).start × IsBound (entries e).end)
      → All (λ u. (units u).con ≡ c) (consumers c).units
      → (((mbb_consumer_mod_time test_time (consumers c) start end).1 ≡ false)
          × ((mbb_consumer_mod_time test_time (consumers c) start end).0 ≡ consumers c))
        ⊎ (((mbb_consumer_mod_time test_time (consumers c) start end).1 ≡ true)
            × InTime start end
            × All
                (λ u.
                  IsTimed
                    (set_consumer_at c
                      (mbb_consumer_mod_time test_time (consumers c) start end).0
                      consumers)
                    entries
                    (units u))
                (consumers c).units)
  unfolding mbb_consumer_mod_time
  mbb_consumer_mod_time-IsTimed consumers c start end some_con b own =
      elim (Bool-cases (is_pos (mbb_time_becmp start end))) [
        | inl late ↦ inl (rw late refl, rw late refl)
        | inr ordered ↦ elim (Bool-cases (units_fit test_time start end (consumers c).units)) [
          | inr refused ↦ inl (rw (ordered, refused) refl, rw (ordered, refused) refl)
          | inl fits ↦ inr (
            rw (ordered, fits) refl,
            ordered,
            rw (ordered, fits)
                (units_fit-IsTimed
                  (set_consumer_at c (record (consumers c) { start = start; end = end }) consumers)
                  c (consumers c).units some_con b own (rw (==-refl c) fits)),
          )
        ]
      ]
