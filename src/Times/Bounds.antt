-- ===== src/Times/Bounds.antt =====
-- The comparisons of starts and of ends are orders in which 0 is the least start and the
-- greatest end, and the minima and maxima are those of the orders.
use mbb_devel.Prelude.{◌≡◌, arith, ◌↔◌, ◌⊎◌, false, ◌≢◌}
use mbb_devel.Prelude.Int.{ℤ, pos, is_pos, ◌≤ℤ◌}
use mbb_devel.Times.{
  timecmp, mbb_time_bbcmp, mbb_time_eecmp, mbb_time_bmin, mbb_time_bmax, mbb_time_emin,
  mbb_time_emax,
}

-- `a` is no later than `b`, both read as starts.
abbrev pub StartLe : ℤ → ℤ → Type 0
StartLe a b = (a ≡ pos 0) ⊎ ((b ≢ pos 0) × (a ≤ℤ b))

abbrev pub EndLe : ℤ → ℤ → Type 0
EndLe a b = (b ≡ pos 0) ⊎ ((a ≢ pos 0) × (a ≤ℤ b))

bound_orders :
    (a b : ℤ)
    → ((is_pos (mbb_time_bbcmp a b) ≡ false) ↔ StartLe a b)
      × ((is_pos (mbb_time_eecmp a b) ≡ false) ↔ EndLe a b)
      × ((mbb_time_bbcmp a b ≡ pos 0) ↔ (a ≡ b))
      × ((mbb_time_eecmp a b ≡ pos 0) ↔ (a ≡ b))
unfolding mbb_time_bbcmp mbb_time_eecmp timecmp
bound_orders a b = (
  (λ h. ground arith, λ h. ground arith),
  (λ h. ground arith, λ h. ground arith),
  (λ h. ground arith, λ h. ground arith),
  (λ h. ground arith, λ h. ground arith),
)

-- `lo` and `hi` are the lesser and the greater one of two bounds.
abbrev pub IsMinmax : (ℤ → ℤ → Type 0) → ℤ → ℤ → ℤ → ℤ → Type 0
IsMinmax Le lo hi a b =
    Le lo a × Le lo b × Le a hi × Le b hi × ((lo ≡ a) ⊎ (lo ≡ b)) × ((hi ≡ a) ⊎ (hi ≡ b))

start-IsMinmax : (a b : ℤ) → IsMinmax StartLe (mbb_time_bmin a b) (mbb_time_bmax a b) a b
unfolding mbb_time_bmin mbb_time_bmax mbb_time_bbcmp timecmp
start-IsMinmax a b =
    (ground arith, ground arith, ground arith, ground arith, ground arith, ground arith)

end-IsMinmax : (a b : ℤ) → IsMinmax EndLe (mbb_time_emin a b) (mbb_time_emax a b) a b
unfolding mbb_time_emin mbb_time_emax mbb_time_eecmp timecmp
end-IsMinmax a b =
    (ground arith, ground arith, ground arith, ground arith, ground arith, ground arith)

-- The comparisons decide the orders of starts and of ends and are 0 for equal bounds only; the
-- minimum of two starts is one of them and no later than either, and the maximum no earlier; and
-- so it is with two ends.
pub bound_laws :
    (a b : ℤ)
    → (((is_pos (mbb_time_bbcmp a b) ≡ false) ↔ StartLe a b)
        × ((is_pos (mbb_time_eecmp a b) ≡ false) ↔ EndLe a b)
        × ((mbb_time_bbcmp a b ≡ pos 0) ↔ (a ≡ b))
        × ((mbb_time_eecmp a b ≡ pos 0) ↔ (a ≡ b)))
      × IsMinmax StartLe (mbb_time_bmin a b) (mbb_time_bmax a b) a b
      × IsMinmax EndLe (mbb_time_emin a b) (mbb_time_emax a b) a b
bound_laws a b = (bound_orders a b, start-IsMinmax a b, end-IsMinmax a b)
