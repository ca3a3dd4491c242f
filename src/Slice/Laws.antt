-- ===== src/Slice/Laws.antt =====
-- What the slicer needs of its key operations, and the slice functions in terms of numbers.
use mbb_devel.Prelude.{ℕ, ◌+◌, ◌-◌, ◌≤◌, ◌<◌, ◌≡◌, refl, arith, ◌⊎◌, inl, inr, none, some, true}
use mbb_devel.Prelude.Tests.{ltb, ◌==◌, if◌then◌else◌, Bool-cases, ltb→lt}
use mbb_devel.Prelude.Int.{pos, minus_one, is_neg, is_pos, is_zero}
use mbb_devel.Slice.{
  Slice, SliceOps, begin_end_cmp, end_begin_cmp, begin_begin_cmp, end_end_cmp, slice_cmp,
  slice_cmp_point, cross_left, cross_right, cross_middle, slice_cross,
}

-- Up to `limit` the operations are those of numbers.
pub record KeyLaws (ops : SliceOps) (limit : ℕ) : Type 0 where
  pub cmp_neg : (a b : ℕ) → a ≤ limit → b ≤ limit → is_neg (ops.cmp a b) ≡ ltb a b
  pub cmp_pos : (a b : ℕ) → a ≤ limit → b ≤ limit → is_pos (ops.cmp a b) ≡ ltb b a
  pub dup_same : (a : ℕ) → ops.dup a ≡ a
  pub inc_next : (a : ℕ) → a < limit → ops.inc a ≡ a + 1
  pub dec_prev : (a : ℕ) → 0 < a → a ≤ limit → ops.dec a ≡ a - 1

-- The last key of a slice that ends at `e`: an open end reaches up to the limit.
abbrev pub upper : ℕ → ℕ → ℕ
upper limit e = if e == 0 then limit else e

-- The ends in use below `top`, the end of the last slice, which is open or the limit itself.
abbrev pub IsEnd : ℕ → ℕ → ℕ → Type 0
IsEnd limit top e = (e ≡ top) ⊎ ((0 < e) × (e < limit))

-- Both keys are within the limit.
abbrev pub Within : ℕ → Slice → Type 0
Within limit s = (s.begin ≤ limit) × (s.end ≤ limit)

module _ {ops : SliceOps} {limit : ℕ} (laws : KeyLaws ops limit) where
  pub end_before :
      (e b : ℕ) → e ≤ limit → b ≤ limit → is_neg (end_begin_cmp ops e b) ≡ ltb (upper limit e) b
  unfolding end_begin_cmp
  end_before e b h k = ground (arith, laws.cmp_neg e b h k)

  pub begin_after :
      (b e : ℕ) → b ≤ limit → e ≤ limit → is_pos (begin_end_cmp ops b e) ≡ ltb (upper limit e) b
  unfolding begin_end_cmp
  begin_after b e h k = ground (arith, laws.cmp_pos b e h k)

  begin_less : (b c : ℕ) → b ≤ limit → c ≤ limit → is_neg (begin_begin_cmp ops b c) ≡ ltb b c
  unfolding begin_begin_cmp
  begin_less b c h k = ground (arith, laws.cmp_neg b c h k)

  pub slice_cmp_lem :
      (a b : Slice)
      → Within limit a
      → Within limit b
      → slice_cmp ops a b ≡ (
          if ltb (upper limit a.end) b.begin
          then minus_one
          else if ltb (upper limit b.end) a.begin
          then pos 1
          else pos 0)
  unfolding slice_cmp
  slice_cmp_lem a b (h, h') (k, k') =
      rw (end_before a.end b.begin h' k, begin_after a.begin b.end h k')

  pub slice_cmp_point_lem :
      (s : Slice) (p : ℕ)
      → Within limit s
      → p ≤ limit
      → slice_cmp_point ops s p
        ≡ (if ltb p s.begin then pos 1 else if ltb (upper limit s.end) p then minus_one else pos 0)
  unfolding slice_cmp_point
  slice_cmp_point_lem s p (h, h') k =
      ground (arith, laws.cmp_neg p s.begin k h, laws.cmp_neg s.end p h' k)

  module _ (top : ℕ) (top_open : (top ≡ 0) ⊎ (top ≡ limit)) where
    -- `s` is a slice that the slicer may hold or be asked for.
    abbrev Fits : Slice → Type 0
    Fits s = (s.begin ≤ limit) × ((s.end ≡ 0) ⊎ IsEnd limit top s.end)

    end_less :
        (e f : ℕ)
        → (e ≡ 0) ⊎ IsEnd limit top e
        → IsEnd limit top f
        → is_neg (end_end_cmp ops e f) ≡ ltb (upper limit e) (upper limit f)
    unfolding end_end_cmp
    end_less e f h k = ground (arith, laws.cmp_neg e f (ground arith) (ground arith))

    pub cross_left_lem :
        (a b : Slice)
        → Within limit a
        → Within limit b
        → cross_left ops a b ≡ (
            if ltb a.begin b.begin
            then some (record { begin = a.begin; end = b.begin - 1 })
            else none)
    unfolding cross_left
    cross_left_lem a b (h, h') (k, k') = elim (Bool-cases (ltb a.begin b.begin)) [
      | inl less ↦
          rw
            (
              begin_less a.begin b.begin h k,
              less,
              laws.dup_same a.begin,
              laws.dup_same b.begin,
              laws.dec_prev b.begin (omega (arith, ltb→lt a.begin b.begin less)) k,
            )
            refl
      | inr not_less ↦ rw (begin_less a.begin b.begin h k, not_less)
    ]

    pub cross_right_lem :
        (a b : Slice)
        → IsEnd limit top a.end
        → (b.end ≡ 0) ⊎ IsEnd limit top b.end
        → cross_right ops a b ≡ (
            if ltb (upper limit b.end) (upper limit a.end)
            then some (record { begin = b.end + 1; end = a.end })
            else none)
    unfolding cross_right
    cross_right_lem a b h k = elim (Bool-cases (ltb (upper limit b.end) (upper limit a.end))) [
      | inl less ↦
          rw
            (
              end_less b.end a.end k h,
              less,
              laws.dup_same a.end,
              laws.dup_same b.end,
              laws.inc_next b.end (ground arith),
            )
            refl
      | inr not_less ↦ rw (end_less b.end a.end k h, not_less)
    ]

    pub cross_middle_lem :
        (a b : Slice)
        → a.begin ≤ limit
        → b.begin ≤ limit
        → IsEnd limit top a.end
        → (b.end ≡ 0) ⊎ IsEnd limit top b.end
        → cross_middle ops a b ≡ record {
          begin = if ltb a.begin b.begin then b.begin else a.begin;
          end = if ltb (upper limit b.end) (upper limit a.end) then b.end else a.end;
        }
    unfolding cross_middle
    cross_middle_lem a b h k h' k' =
        rw
          (
            begin_less a.begin b.begin h k,
            end_less b.end a.end k' h',
            laws.dup_same (if ltb a.begin b.begin then b.begin else a.begin),
            laws.dup_same (if ltb (upper limit b.end) (upper limit a.end) then b.end else a.end),
          )
          refl

pub slice_cross_meets :
    (ops : SliceOps) (a b : Slice)
    → is_zero (slice_cmp ops a b) ≡ true
    → slice_cross ops a b ≡ record {
      left = cross_left ops a b;
      middle = some (cross_middle ops a b);
      right = cross_right ops a b;
    }
unfolding slice_cross
slice_cross_meets ops a b h = rw h
