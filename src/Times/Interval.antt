-- ===== src/Times/Interval.antt =====
-- Membership in an interval, and the test of an interval's order.
use mbb_devel.Prelude.{◌≡◌, arith, ◌↔◌, ◌⊎◌, true, ◌≢◌, none}
use mbb_devel.Prelude.Tests.{if◌then◌else◌}
use mbb_devel.Prelude.Int.{ℤ, pos, is_neg, ◌≤ℤ◌}
use mbb_devel.Times.{
  timecmp, mbb_time_becmp, mbb_time_ebcmp, mbb_time_bbcmp, mbb_time_eecmp, mbb_time_bmax,
  mbb_time_emin, mbb_time_rcmp, mbb_time_test_order,
}

-- The start `a` is no later than the end `b`, where 0 leaves a side open.
abbrev pub Ordered : ℤ → ℤ → Type 0
Ordered a b = (a ≡ pos 0) ⊎ (b ≡ pos 0) ⊎ (a ≤ℤ b)

-- `mbb_time_rcmp` finds a time inside exactly when it is in order with both ends.
rcmp_inside : (t a b : ℤ) → (mbb_time_rcmp t a b ≡ pos 0) ↔ (Ordered a t × Ordered t b)
unfolding mbb_time_rcmp mbb_time_ebcmp mbb_time_becmp timecmp
rcmp_inside t a b = (λ h. (ground arith, ground arith), λ h. ground arith)

start_max :
    (t a a' : ℤ) → t ≢ pos 0 → (Ordered (mbb_time_bmax a a') t) ↔ (Ordered a t × Ordered a' t)
unfolding mbb_time_bmax mbb_time_bbcmp timecmp
start_max t a a' h = (λ k. (ground arith, ground arith), λ k. ground arith)

end_min : (t b b' : ℤ) → t ≢ pos 0 → (Ordered t (mbb_time_emin b b')) ↔ (Ordered t b × Ordered t b')
unfolding mbb_time_emin mbb_time_eecmp timecmp
end_min t b b' h = (λ k. (ground arith, ground arith), λ k. ground arith)

-- A time other than 0 lies inside two intervals exactly when it lies inside the one from the later
-- start to the earlier end.
pub rcmp_intersection :
    (t a b a' b' : ℤ)
    → t ≢ pos 0
    → (mbb_time_rcmp t (mbb_time_bmax a a') (mbb_time_emin b b') ≡ pos 0)
      ↔ ((mbb_time_rcmp t a b ≡ pos 0) × (mbb_time_rcmp t a' b' ≡ pos 0))
rcmp_intersection t a b a' b' h = (both, one)
  where
    both :
        mbb_time_rcmp t (mbb_time_bmax a a') (mbb_time_emin b b') ≡ pos 0
        → (mbb_time_rcmp t a b ≡ pos 0) × (mbb_time_rcmp t a' b' ≡ pos 0)
    both k =
        let (late, early) = (rcmp_inside t (mbb_time_bmax a a') (mbb_time_emin b b')).0 k in
        let (p, p') = (start_max t a a' h).0 late in
        let (q, q') = (end_min t b b' h).0 early in
        ((rcmp_inside t a b).1 (p, q), (rcmp_inside t a' b').1 (p', q'))

    one :
        (mbb_time_rcmp t a b ≡ pos 0) × (mbb_time_rcmp t a' b' ≡ pos 0)
        → mbb_time_rcmp t (mbb_time_bmax a a') (mbb_time_emin b b') ≡ pos 0
    one (k, k') =
        let (p, q) = (rcmp_inside t a b).0 k in
        let (p', q') = (rcmp_inside t a' b').0 k' in
        (rcmp_inside t (mbb_time_bmax a a') (mbb_time_emin b b')).1
          ((start_max t a a' h).1 (p, p'), (end_min t b b' h).1 (q, q'))

-- What `mbb_time_test_order` tests: a negative bound stands for the parent's.
abbrev pub resolve : ℤ → ℤ → ℤ
resolve t parent = if is_neg t then parent else t

-- `mbb_time_test_order` accepts exactly the bounds that are both taken from the parent, and those
-- that are in order once the parent's bounds are put in.
test_order_iff :
    (a b pa pb : ℤ)
    → (mbb_time_test_order a b pa pb ≡ none)
      ↔ (((is_neg a ≡ true) × (is_neg b ≡ true)) ⊎ Ordered (resolve a pa) (resolve b pb))
unfolding mbb_time_test_order mbb_time_becmp timecmp
test_order_iff a b pa pb = (λ h. ground arith, λ h. ground arith)
