-- ===== src/Gateway/Insert.antt =====
-- `gw_queue_insert_gl` and `mbb_gateway_can_add`.
use mbb_devel.Prelude.{ℕ, ◌≡◌, refl, ap, Bool, true, false, List, [], ◌∷◌, ◌++◌, ◌⊎◌, inl, inr}
use mbb_devel.Prelude.Tests.{Bool-cases}
use mbb_devel.Gateway.{GwLink, Inserted, inserted, conflict, behind, can_add_at, gw_queue_insert_gl}
use mbb_devel.Gateway.Order.{
  over_before, IsInterval, ends_before, over_asym, Intervals, AllAfter, InOrder, AllAfter-trans,
}

abbrev pub is_inserted : Inserted → Bool
is_inserted (inserted q) = true
is_inserted (conflict old) = false

is_inserted-behind : (cur : ℕ) (r : Inserted) → is_inserted (behind cur r) ≡ is_inserted r
is_inserted-behind cur (inserted q) = refl
is_inserted-behind cur (conflict old) = refl

module _ (heap : ℕ → GwLink) where
  -- The link stands between the links that are over before it and those that start after it.
  abbrev pub Placed : ℕ → List ℕ → List ℕ → Type 0
  Placed gl q q' =
      (front : List ℕ) × (back : List ℕ) × (q ≡ front ++ back) × (q' ≡ front ++ gl ∷ back)

  -- A link of the queue that is neither over before the new one nor starts after its end.
  abbrev pub InTheWay : ℕ → ℕ → List ℕ → Type 0
  InTheWay gl old [] = ⊥
  InTheWay gl old (cur ∷ q) =
      ((old ≡ cur)
        × (over_before (heap cur) (heap gl) ≡ false)
        × (over_before (heap gl) (heap cur) ≡ false))
      ⊎ InTheWay gl old q

  abbrev pub IsInsertion : ℕ → List ℕ → Inserted → Type 0
  IsInsertion gl q (inserted q') = Placed gl q q' × InOrder heap q' × Intervals heap q'
  IsInsertion gl q (conflict old) = InTheWay gl old q

  AllAfter-insert :
      (cur gl : ℕ) (q q' : List ℕ)
      → over_before (heap cur) (heap gl) ≡ true
      → AllAfter heap cur q
      → Placed gl q q'
      → AllAfter heap cur q'
  AllAfter-insert cur gl q q' h k (front, back, e, e') = rw e' (go front (rw e at k))
    where
      go :
          (front : List ℕ)
          → AllAfter heap cur (front ++ back)
          → AllAfter heap cur (front ++ gl ∷ back)
      go [] l = (h, l)
      go (x ∷ front) (l, ls) = (l, go front ls)

  behind-IsInsertion :
      (cur gl : ℕ) (q : List ℕ) (r : Inserted)
      → over_before (heap cur) (heap gl) ≡ true
      → IsInterval (heap cur)
      → AllAfter heap cur q
      → IsInsertion gl q r
      → IsInsertion gl (cur ∷ q) (behind cur r)
  behind-IsInsertion cur gl q (inserted q') h i a ((front, back, e, e'), o, is) = (
    (cur ∷ front, back, ap (◌∷◌ cur) e, ap (◌∷◌ cur) e'),
    (AllAfter-insert cur gl q q' h a (front, back, e, e'), o),
    (i, is),
  )
  behind-IsInsertion cur gl q (conflict old) h i a w = inr w

  -- In a queue in order the new link takes its place, with the queue still in order, or the queue
  -- has a link that overlaps it, which is returned.
  pub gw_queue_insert_gl-IsInsertion :
      (gl : ℕ) (q : List ℕ)
      → IsInterval (heap gl)
      → Intervals heap q
      → InOrder heap q
      → IsInsertion gl q (gw_queue_insert_gl heap gl q)
  unfolding gw_queue_insert_gl
  gw_queue_insert_gl-IsInsertion gl [] i is o = (([], [], refl, refl), (tt, tt), (i, tt))
  gw_queue_insert_gl-IsInsertion gl (cur ∷ q) i (ic, is) (a, o) =
      elim (Bool-cases (over_before (heap cur) (heap gl))) [
        | inl past ↦ rw past (
            behind-IsInsertion cur gl q (gw_queue_insert_gl heap gl q) past ic a
              (gw_queue_insert_gl-IsInsertion gl q i is o))
        | inr here ↦ elim (Bool-cases (over_before (heap gl) (heap cur))) [
          | inl apart ↦
              rw (here, ends_before (heap gl) (heap cur), apart)
                (
                  ([], cur ∷ q, refl, refl),
                  ((apart, AllAfter-trans heap gl cur q apart ic a), (a, o)),
                  (i, (ic, is)),
                )
          | inr overlap ↦
              rw (here, ends_before (heap gl) (heap cur), overlap) (inl (refl, here, overlap))
        ]
      ]

  -- The test for a new link foretells whether its insertion succeeds.
  pub can_add_at-insert :
      (gl : ℕ) (q : List ℕ)
      → IsInterval (heap gl)
      → Intervals heap q
      → can_add_at heap gl true q ≡ is_inserted (gw_queue_insert_gl heap gl q)
  unfolding gw_queue_insert_gl can_add_at
  can_add_at-insert gl [] i is = refl
  can_add_at-insert gl (cur ∷ q) i (ic, is) = elim (Bool-cases (over_before (heap cur) (heap gl))) [
    | inl past ↦
        rw
          (
            past,
            ends_before (heap gl) (heap cur),
            over_asym (heap cur) (heap gl) ic i past,
            is_inserted-behind cur (gw_queue_insert_gl heap gl q),
          )
          (can_add_at-insert gl q i is)
    | inr here ↦ elim (Bool-cases (over_before (heap gl) (heap cur))) [
      | inl apart ↦ rw (here, ends_before (heap gl) (heap cur), apart) refl
      | inr overlap ↦ rw (here, ends_before (heap gl) (heap cur), overlap) refl
    ]
  ]
