-- ===== src/Gateway/Reorder.antt =====
-- `mbb_gateway_reorder_link`.
use mbb_devel.Prelude.{
  ℕ, ◌≡◌, refl, sym, ap, ◌∙◌, arith, Bool, true, false, Option, none, some, List, [], ◌∷◌, ◌++◌,
  ◌⊎◌, inl, inr,
}
use mbb_devel.Prelude.Tests.{◌==◌, if◌then◌else◌, Bool-cases, ==_iff}
use mbb_devel.Prelude.Lists.{length, length-append}
use mbb_devel.Gateway.{
  GwLink, Inserted, inserted, conflict, cut_at, gw_queue_insert_gl, reinsert, reorder,
}
use mbb_devel.Gateway.Order.{IsInterval, Intervals, InOrder}
use mbb_devel.Gateway.Insert.{Placed, IsInsertion, gw_queue_insert_gl-IsInsertion}

abbrev Joined : ℕ → List ℕ → Option (List ℕ × List ℕ) → Type 0
Joined gl q none = Unit
Joined gl q (some r) = q ≡ r.0 ++ gl ∷ r.1

cons-Joined :
    (cur gl : ℕ) (q : List ℕ) (r : Option (List ℕ × List ℕ))
    → Joined gl q r
    → Joined gl (cur ∷ q) (elim r [ none ↦ none | some r ↦ some (cur ∷ r.0, r.1) ])
cons-Joined cur gl q none h = tt
cons-Joined cur gl q (some r) h = ap (◌∷◌ cur) h

cut_at-Joined : (gl : ℕ) (q : List ℕ) → Joined gl q (cut_at gl q)
unfolding cut_at
cut_at-Joined gl [] = tt
cut_at-Joined gl (cur ∷ q) = elim (Bool-cases (cur == gl)) [
  | inl here ↦ rw here (ap (λ x. x ∷ q) ((==_iff cur gl).0 here))
  | inr later ↦ rw later (cons-Joined cur gl q (cut_at gl q) (cut_at-Joined gl q))
]

-- The queue without the link.
abbrev pub others : List ℕ → Option (List ℕ × List ℕ) → List ℕ
others q none = q
others q (some r) = r.0 ++ r.1

module _ (heap : ℕ → GwLink) where
  abbrev pub IsReorder : ℕ → List ℕ → List ℕ → List ℕ × Bool → Type 0
  IsReorder gl q rest r =
      ((r.1 ≡ true) × Placed heap gl rest r.0 × InOrder heap r.0) ⊎ ((r.1 ≡ false) × (r.0 ≡ q))

  single :
      (gl : ℕ) (front back : List ℕ)
      → length (front ++ gl ∷ back) ≡ 1
      → Placed heap gl (front ++ back) (front ++ gl ∷ back) × InOrder heap (front ++ gl ∷ back)
  single gl [] [] h = (([], [], refl, refl), (tt, tt))
  single gl [] (x ∷ back) h = absurd (omega arith)
  single gl (x ∷ front) back h = absurd (omega (arith, length-append front (gl ∷ back)))

  IsReorder-case :
      (gl : ℕ) (front back : List ℕ) (r : Inserted)
      → IsInsertion heap gl (front ++ back) r
      → IsReorder gl
          (front ++ gl ∷ back)
          (front ++ back)
          (elim r [ inserted q ↦ (q, true) | conflict old ↦ (front ++ gl ∷ back, false) ])
  IsReorder-case gl front back (inserted q) (p, o, is) = inl (refl, p, o)
  IsReorder-case gl front back (conflict old) w = inr (refl, refl)

  IsReorder-at :
      (gl : ℕ) (q front back : List ℕ)
      → q ≡ front ++ gl ∷ back
      → IsInterval (heap gl)
      → Intervals heap (front ++ back)
      → InOrder heap (front ++ back)
      → IsReorder gl q
          (front ++ back)
          (if length q == 1 then (q, true) else reinsert heap gl front back)
  unfolding reinsert
  IsReorder-at gl q front back e i is o = elim (Bool-cases (length q == 1)) [
    | inl one ↦ rw one (
        let (p, o') = single gl front back (ap length (sym e) ∙ (==_iff (length q) 1).0 one) in
        inl (refl, rw e p, rw e o'))
    | inr more ↦ rw more (
        rw e (
          IsReorder-case gl front back (gw_queue_insert_gl heap gl (front ++ back))
            (gw_queue_insert_gl-IsInsertion heap gl (front ++ back) i is o)))
  ]

  IsReorder-split :
      (gl : ℕ) (q : List ℕ) (r : Option (List ℕ × List ℕ))
      → Joined gl q r
      → IsInterval (heap gl)
      → Intervals heap (others q r)
      → InOrder heap (others q r)
      → IsReorder gl q (others q r) (elim r [
        | none ↦ (q, false)
        | some r ↦ if length q == 1 then (q, true) else reinsert heap gl r.0 r.1
      ])
  IsReorder-split gl q none j i is o = inr (refl, refl)
  IsReorder-split gl q (some (front, back)) j i is o = IsReorder-at gl q front back j i is o

  -- When the other links of the queue are in order, a reordering either puts the link in its place
  -- among them, with the queue in order, or fails and leaves the queue as it was.
  pub reorder-IsReorder :
      (gl : ℕ) (q : List ℕ)
      → IsInterval (heap gl)
      → Intervals heap (others q (cut_at gl q))
      → InOrder heap (others q (cut_at gl q))
      → IsReorder gl q (others q (cut_at gl q)) (reorder heap gl q)
  unfolding reorder
  reorder-IsReorder gl q i is o = IsReorder-split gl q (cut_at gl q) (cut_at-Joined gl q) i is o
