-- ===== src/Map/Join.antt =====
-- `map_data_split`, and what joining a new entry with its neighbours makes of a queue.
use mbb_devel.Prelude.{
  ℕ, ◌+◌, ◌≤◌, ◌<◌, ◌≡◌, refl, arith, ◌⊎◌, inl, inr, true, false, ◌&&◌, Option, none, some, List,
  [], ◌∷◌,
}
use mbb_devel.Prelude.Tests.{◌==◌, ==_iff, if◌then◌else◌, Bool-cases}
use mbb_devel.Prelude.Int.{ℤ, pos}
use mbb_devel.Prelude.Lists.{All}
use mbb_devel.Slice.{SliceOps}
use mbb_devel.Inet.{ipv4_max}
use mbb_devel.Slice.Keys.{inet_ops}
use mbb_devel.Slice.Keys.Instances.{inet_laws, inet_ops_one}
use mbb_devel.Slice.Laws.{KeyLaws, upper}
use mbb_devel.Slicer.Tree.{IsEntry}
use mbb_devel.Slicer.Content.{inside}
use mbb_devel.Map.{MapEntry, map_data_split, is_one}
use mbb_devel.Map.Queue.{InOrder, value_at}

-- A comparison that gives 1 exactly for the next key.
abbrev pub TellsNext : SliceOps → ℕ → Type 0
TellsNext ops limit = (a b : ℕ) → a < b → b ≤ limit → ops.cmp b a ≡ pos 1 → b ≡ a + 1

-- `cur` has another pointer than each entry of the queue.
abbrev pub OtherValue : ℕ → List MapEntry → Type 0
OtherValue v = All (λ e. (v == e.value) ≡ false)

-- Two entries are joined only if the second one begins at the key behind the first one: because
-- the comparison tells, or because no two pointers are the same.
abbrev pub JoinsNext : SliceOps → ℕ → ℕ → List MapEntry → Type 0
JoinsNext ops limit v q = TellsNext ops limit ⊎ OtherValue v q

is_one_lem : (z : ℤ) → is_one z ≡ true → z ≡ pos 1
is_one_lem z h = ground arith

-- The two entries in one.
abbrev pub joined : MapEntry → MapEntry → MapEntry
joined a b = record { slice = record { begin = a.slice.begin; end = b.slice.end }; value = a.value }

-- The second entry begins at the key behind the first one, and both have one pointer.
abbrev pub SplitResult : MapEntry → MapEntry → Option MapEntry → Type 0
SplitResult a b none = Unit
SplitResult a b (some m) =
    (m ≡ joined a b) × (a.value ≡ b.value) × (b.slice.begin ≡ a.slice.end + 1)

module _ (limit top : ℕ) where
  -- What an insertion gives: the queue in order, with the pointer of `cur` at its keys.
  abbrev pub IsResult : ℕ → MapEntry → List MapEntry → List MapEntry → Type 0
  IsResult lo cur q q' =
      InOrder limit top lo q'
      × ((p : ℕ)
          → p ≤ limit
          → value_at limit p q'
            ≡ (if inside limit cur.slice p then cur.value else value_at limit p q))

module _ {ops : SliceOps} {limit : ℕ} (laws : KeyLaws ops limit) (top : ℕ)
    (top_open : (top ≡ 0) ⊎ (top ≡ limit)) where
  pub split_joined :
      (a b : MapEntry)
      → map_data_split ops a b ≡ (
          if (a.value == b.value) && is_one (ops.cmp b.slice.begin a.slice.end)
          then some (joined a b)
          else none)
  unfolding map_data_split
  split_joined a b = rw (laws.dup_same a.slice.begin, laws.dup_same b.slice.end) (ground arith)

  pub split_lem :
      (a b : MapEntry)
      → upper limit a.slice.end < b.slice.begin
      → b.slice.begin ≤ limit
      → TellsNext ops limit ⊎ ((a.value == b.value) ≡ false)
      → SplitResult a b (map_data_split ops a b)
  split_lem a b h k (inr other) = rw (split_joined a b, other) tt
  split_lem a b h k (inl tells) = elim (Bool-cases (a.value == b.value)) [
    | inl same ↦ elim (Bool-cases (is_one (ops.cmp b.slice.begin a.slice.end))) [
      | inl one ↦
          rw (split_joined a b, same, one)
            (
              refl,
              (==_iff a.value b.value).0 same,
              tells a.slice.end b.slice.begin (ground arith) k (is_one_lem _ one),
            )
      | inr more ↦ rw (split_joined a b, same, more) tt
    ]
    | inr other ↦ rw (split_joined a b, other) tt
  ]

  pub tail_lem :
      (lo : ℕ) (cur t : MapEntry)
      → InOrder limit top lo (t ∷ [])
      → IsEntry limit top cur.slice
      → upper limit t.slice.end < cur.slice.begin
      → (r : Option MapEntry) → SplitResult t cur r
      → IsResult limit top lo cur (t ∷ []) (elim r [ none ↦ t ∷ cur ∷ [] | some m ↦ m ∷ [] ])
  tail_lem lo cur t o i h none s = (omega arith, λ p k. ground arith)
  tail_lem lo cur t o i h (some m) (same, v, next) = rw same (ground arith, λ p k. ground arith)

  pub head_lem :
      (lo : ℕ) (cur e : MapEntry) (q : List MapEntry)
      → lo ≤ cur.slice.begin
      → InOrder limit top lo (e ∷ q)
      → IsEntry limit top cur.slice
      → upper limit cur.slice.end < e.slice.begin
      → (r : Option MapEntry) → SplitResult cur e r
      → IsResult limit top lo cur (e ∷ q) (elim r [ none ↦ cur ∷ e ∷ q | some m ↦ m ∷ q ])
  head_lem lo cur e q l (le, ok, o) i h none s = ((l, i, (omega arith, ok, o)), λ p k. ground arith)
  head_lem lo cur e q l (le, ok, o) i h (some m) (same, v, next) =
      rw same ((l, (ground arith, ok.1), o), λ p k. ground arith)

  -- Between the links of `p` and `e`.
  pub between_lem :
      (lo : ℕ) (cur p e : MapEntry) (q : List MapEntry)
      → InOrder limit top lo (p ∷ e ∷ q)
      → IsEntry limit top cur.slice
      → upper limit p.slice.end < cur.slice.begin
      → upper limit cur.slice.end < e.slice.begin
      → (r : Option MapEntry) → SplitResult p cur r
      → IsResult limit top lo cur
          (p ∷ e ∷ q)
          (elim r [ none ↦ p ∷ cur ∷ e ∷ q | some m ↦ m ∷ e ∷ q ])
  between_lem lo cur p e q (lp, okp, (le, ok, o)) i h h' none s =
      ((lp, okp, (omega arith, i, (omega arith, ok, o))), λ k b. ground arith)
  between_lem lo cur p e q (lp, okp, (le, ok, o)) i h h' (some m) (same, v, next) =
      rw same ((lp, (ground arith, i.1), (omega arith, ok, o)), λ k b. ground arith)

  -- The new entry is already joined with `e`.
  pub joined_lem :
      (lo : ℕ) (cur p e : MapEntry) (q : List MapEntry)
      → InOrder limit top lo (p ∷ e ∷ q)
      → IsEntry limit top cur.slice
      → upper limit p.slice.end < cur.slice.begin
      → upper limit cur.slice.end < e.slice.begin
      → cur.value ≡ e.value
      → e.slice.begin ≡ cur.slice.end + 1
      → (r : Option MapEntry) → SplitResult p (joined cur e) r
      → IsResult limit top lo cur
          (p ∷ e ∷ q)
          (elim r [ none ↦ p ∷ joined cur e ∷ q | some m ↦ m ∷ q ])
  joined_lem lo cur p e q (lp, okp, (le, ok, o)) i h h' v next none s =
      ((lp, okp, (omega arith, (ground arith, ok.1), o)), λ k b. ground arith)
  joined_lem lo cur p e q (lp, okp, (le, ok, o)) i h h' v next (some m) (same, v', next') =
      rw same ((lp, (ground arith, ok.1), o), λ k b. ground arith)

-- Two entries of addresses with the same pointer become one whenever the first one ends below the
-- begin of the second one, however many addresses there are in between.
pub map_data_split-gap :
    (a b : MapEntry)
    → a.slice.end < b.slice.begin
    → b.slice.begin ≤ ipv4_max
    → map_data_split inet_ops a b ≡ (if a.value == b.value then some (joined a b) else none)
unfolding map_data_split
map_data_split-gap a b h k =
    rw
      (
        inet_ops_one a.slice.end b.slice.begin h k,
        inet_laws.dup_same a.slice.begin,
        inet_laws.dup_same b.slice.end,
      )
      (ground arith)
