-- ===== src/Gateway/Order.antt =====
-- The order of the links in a queue: each one is over before the next one starts.
use mbb_devel.Prelude.{
  ℕ, ◌≡◌, ◌≢◌, refl, sym, ◌∙◌, arith, Bool, true, false, List, [], ◌∷◌, ◌&&◌, not,
}
use mbb_devel.Prelude.Int.{ℤ, pos, is_neg, is_pos, is_zero}
use mbb_devel.Prelude.Lists.{All}
use mbb_devel.Times.{timecmp, mbb_time_becmp, mbb_time_ebcmp, mbb_time_rcmp}
use mbb_devel.Gateway.{GwLink}

-- The interval of `a` is over before that of `b` starts.
abbrev pub over_before : GwLink → GwLink → Bool
over_before a b = is_pos (mbb_time_becmp b.start a.end)

-- A link does not start after its end.
abbrev pub IsInterval : GwLink → Type 0
IsInterval a = is_pos (mbb_time_becmp a.start a.end) ≡ false

-- A link is in force at a time.
abbrev pub covers : GwLink → ℤ → Bool
covers a t = is_zero (mbb_time_rcmp t a.start a.end)

pub ends_before : (a b : GwLink) → is_neg (mbb_time_ebcmp a.end b.start) ≡ over_before a b
unfolding mbb_time_becmp mbb_time_ebcmp timecmp
ends_before a b = ground arith

pub over_trans :
    (a b c : GwLink)
    → over_before a b ≡ true
    → IsInterval b
    → over_before b c ≡ true
    → over_before a c ≡ true
unfolding mbb_time_becmp timecmp
over_trans a b c h k l = ground arith

pub over_asym :
    (a b : GwLink) → IsInterval a → IsInterval b → over_before a b ≡ true → over_before b a ≡ false
unfolding mbb_time_becmp timecmp
over_asym a b ia ib h = ground arith

rcmp_neg : (t s e : ℤ) → is_neg (mbb_time_rcmp t s e) ≡ is_neg (mbb_time_ebcmp t s)
unfolding mbb_time_rcmp
rcmp_neg t s e = ground arith

rcmp_zero :
    (t s e : ℤ)
    → is_zero (mbb_time_rcmp t s e)
      ≡ (not (is_neg (mbb_time_ebcmp t s)) && not (is_pos (mbb_time_becmp t e)))
unfolding mbb_time_rcmp
rcmp_zero t s e = ground arith

early_apart :
    (t e s : ℤ)
    → t ≢ pos 0
    → is_pos (mbb_time_becmp s e) ≡ true
    → is_pos (mbb_time_becmp t e) ≡ false
    → is_neg (mbb_time_ebcmp t s) ≡ true
unfolding mbb_time_becmp mbb_time_ebcmp timecmp
early_apart t e s nz h k = ground arith

early_later :
    (t s e s' : ℤ)
    → is_pos (mbb_time_becmp s e) ≡ false
    → is_pos (mbb_time_becmp s' e) ≡ true
    → is_neg (mbb_time_ebcmp t s) ≡ true
    → is_neg (mbb_time_ebcmp t s') ≡ true
unfolding mbb_time_becmp mbb_time_ebcmp timecmp
early_later t s e s' h k l = ground arith

-- Links apart are never both in force.
pub covers_apart :
    (a b : GwLink) (t : ℤ)
    → t ≢ pos 0
    → over_before a b ≡ true
    → covers a t ≡ true
    → covers b t ≡ false
covers_apart a b t nz h k =
    let inside : is_pos (mbb_time_becmp t a.end) ≡ false =
      ground (arith, rcmp_zero t a.start a.end) in
    rw (rcmp_zero t b.start b.end, early_apart t a.end b.start nz h inside) refl

pub covers_later :
    (a b : GwLink) (t : ℤ)
    → IsInterval a
    → over_before a b ≡ true
    → is_neg (mbb_time_rcmp t a.start a.end) ≡ true
    → covers b t ≡ false
covers_later a b t ia h k =
    rw
      (
        rcmp_zero t b.start b.end,
        early_later t a.start a.end b.start ia h (sym (rcmp_neg t a.start a.end) ∙ k),
      )
      refl

module _ (heap : ℕ → GwLink) where
  abbrev pub Intervals : List ℕ → Type 0
  Intervals = All (λ gl. IsInterval (heap gl))

  abbrev pub AllAfter : ℕ → List ℕ → Type 0
  AllAfter gl = All (λ cur. over_before (heap gl) (heap cur) ≡ true)

  abbrev pub InOrder : List ℕ → Type 0
  InOrder [] = Unit
  InOrder (gl ∷ q) = AllAfter gl q × InOrder q

  pub AllAfter-trans :
      (a b : ℕ) (q : List ℕ)
      → over_before (heap a) (heap b) ≡ true
      → IsInterval (heap b)
      → AllAfter b q
      → AllAfter a q
  AllAfter-trans a b [] h i k = tt
  AllAfter-trans a b (c ∷ q) h i (k, ks) =
      (over_trans (heap a) (heap b) (heap c) h i k, AllAfter-trans a b q h i ks)
