-- ===== src/Separator/Order.antt =====
-- The order of a separator, for entries whose `nice` is less than 2 ^ 31.
use mbb_devel.Prelude.{
  ℕ, ◌≡◌, ◌≤◌, ◌<◌, ◌^◌, ◌+◌, ◌⊎◌, inl, inr, arith, refl, ap, true, false, List, [], ◌∷◌, ◌++◌,
}
use mbb_devel.Prelude.Tests.{◌==◌, Bool-cases, ltb}
use mbb_devel.Prelude.Int.{is_neg, is_zero}
use mbb_devel.Prelude.Lists.{All}
use mbb_devel.Separator.{
  PoolEntry, entry_cmp, int_sub, separator_add, separator_del, mbb_unit_sep_reorder,
}

-- A `nice` that a gint can hold, and a flag that is TRUE or FALSE.
abbrev pub IsSmall : PoolEntry → Type 0
IsSmall e = (e.nice < 2 ^ 31) × (e.flag ≤ 1)

-- The order meant: by `nice`, and with equal `nice` the entries with the flag first.
abbrev pub NoLater : PoolEntry → PoolEntry → Type 0
NoLater a b = (a.nice < b.nice) ⊎ ((a.nice ≡ b.nice) × (b.flag ≤ a.flag))

int_sub_neg : (a b : ℕ) → a < 2 ^ 31 → b < 2 ^ 31 → is_neg (int_sub a b) ≡ ltb a b
int_sub_neg a b h k = ground arith

int_sub_zero : (a b : ℕ) → a < 2 ^ 31 → b < 2 ^ 31 → is_zero (int_sub a b) ≡ (a == b)
int_sub_zero a b h k = ground arith

pub cmp_less :
    (a b : PoolEntry) → IsSmall a → IsSmall b → is_neg (entry_cmp a b) ≡ true → NoLater a b
unfolding entry_cmp
cmp_less a b ha hb h = ground (
  arith,
  int_sub_neg a.nice b.nice ha.0 hb.0,
  int_sub_zero a.nice b.nice ha.0 hb.0,
  int_sub_neg b.flag a.flag (omega arith) (omega arith),
)

pub cmp_not_less :
    (a b : PoolEntry) → IsSmall a → IsSmall b → is_neg (entry_cmp a b) ≡ false → NoLater b a
unfolding entry_cmp
cmp_not_less a b ha hb h = ground (
  arith,
  int_sub_neg a.nice b.nice ha.0 hb.0,
  int_sub_zero a.nice b.nice ha.0 hb.0,
  int_sub_neg b.flag a.flag (omega arith) (omega arith),
)

trans : (a b c : PoolEntry) → NoLater a b → NoLater b c → NoLater a c
trans a b c h k = ground arith

module _ (heap : ℕ → PoolEntry) where
  abbrev pub AllSmall : List ℕ → Type 0
  AllSmall = All (λ x. IsSmall (heap x))

  abbrev pub NotAfter : ℕ → List ℕ → Type 0
  NotAfter x = All (λ y. NoLater (heap x) (heap y))

  abbrev pub InOrder : List ℕ → Type 0
  InOrder [] = Unit
  InOrder (x ∷ sep) = NotAfter x sep × InOrder sep

  NotAfter-trans :
      (x y : ℕ) (sep : List ℕ) → NoLater (heap x) (heap y) → NotAfter y sep → NotAfter x sep
  NotAfter-trans x y [] h k = tt
  NotAfter-trans x y (z ∷ sep) h (k, ks) =
      (trans (heap x) (heap y) (heap z) h k, NotAfter-trans x y sep h ks)

  NotAfter-add :
      (x entry : ℕ) (sep : List ℕ)
      → NoLater (heap x) (heap entry)
      → NotAfter x sep
      → NotAfter x (separator_add heap sep entry)
  unfolding separator_add
  NotAfter-add x entry [] h k = (h, tt)
  NotAfter-add x entry (y ∷ sep) h (k, ks) =
      elim (Bool-cases (is_neg (entry_cmp (heap entry) (heap y)))) [
        | inl less ↦ rw less (h, (k, ks))
        | inr more ↦ rw more (k, NotAfter-add x entry sep h ks)
      ]

  separator_add-InOrder :
      (sep : List ℕ) (entry : ℕ)
      → AllSmall sep
      → IsSmall (heap entry)
      → InOrder sep
      → InOrder (separator_add heap sep entry)
  unfolding separator_add
  separator_add-InOrder [] entry s e o = (tt, tt)
  separator_add-InOrder (x ∷ sep) entry (sx, s) e (k, o) =
      elim (Bool-cases (is_neg (entry_cmp (heap entry) (heap x)))) [
        | inl less ↦
            (let first : NoLater (heap entry) (heap x) = cmp_less (heap entry) (heap x) e sx less in
              rw less ((first, NotAfter-trans entry x sep first k), (k, o)))
        | inr more ↦ rw more (
          NotAfter-add x entry sep (cmp_not_less (heap entry) (heap x) e sx more) k,
          separator_add-InOrder sep entry s e o,
        )
      ]

  -- Every entry of the result is the new one or one of the old ones, and all of them are there.
  abbrev pub Placed : List ℕ → ℕ → List ℕ → Type 0
  Placed sep entry sep' =
      (front : List ℕ) × (back : List ℕ) × (sep ≡ front ++ back) × (sep' ≡ front ++ entry ∷ back)

  separator_add-Placed :
      (sep : List ℕ) (entry : ℕ) → Placed sep entry (separator_add heap sep entry)
  unfolding separator_add
  separator_add-Placed [] entry = ([], [], refl, refl)
  separator_add-Placed (x ∷ sep) entry =
      elim (Bool-cases (is_neg (entry_cmp (heap entry) (heap x)))) [
        | inl less ↦ rw less ([], x ∷ sep, refl, refl)
        | inr more ↦
            (let (front, back, e, e') = separator_add-Placed sep entry in
              rw more (x ∷ front, back, ap (◌∷◌ x) e, ap (◌∷◌ x) e'))
      ]

  -- After a change of its `nice` an entry is put between the others, and all entries are in order
  -- again, if the others are and every `nice` is less than 2 ^ 31.
  pub mbb_unit_sep_reorder-InOrder :
      (sep : List ℕ) (entry : ℕ)
      → AllSmall (separator_del sep entry)
      → IsSmall (heap entry)
      → InOrder (separator_del sep entry)
      → InOrder (mbb_unit_sep_reorder heap sep entry)
        × Placed (separator_del sep entry) entry (mbb_unit_sep_reorder heap sep entry)
  unfolding mbb_unit_sep_reorder
  mbb_unit_sep_reorder-InOrder sep entry s e o = (
    separator_add-InOrder (separator_del sep entry) entry s e o,
    separator_add-Placed (separator_del sep entry) entry,
  )

-- A `nice` of 2 ^ 31 or more can be sorted in front of one that is less.
pub cmp_far :
    (a b : PoolEntry)
    → b.nice < 2 ^ 31
    → b.nice + 2 ^ 31 < a.nice
    → a.nice < 2 ^ 32
    → is_neg (entry_cmp a b) ≡ true
unfolding entry_cmp
cmp_far a b h k l = ground arith
