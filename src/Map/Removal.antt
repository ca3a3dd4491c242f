-- ===== src/Map/Removal.antt =====
-- `map_data_del` of mbbd/map.c in terms of numbers.
use mbb_devel.Prelude.{
  ℕ, ◌+◌, ◌-◌, ◌≤◌, ◌<◌, ◌≡◌, arith, ◌⊎◌, inl, inr, Bool, true, false, ◌&&◌, ◌||◌, List, [], ◌∷◌,
  ◌++◌,
}
use mbb_devel.Prelude.Tests.{
  ltb, leb, ◌==◌, if◌then◌else◌, Bool-cases, leb→le, ltb→lt, ltb-false→le,
}
use mbb_devel.Slice.{SliceOps}
use mbb_devel.Slice.Laws.{KeyLaws, upper}
use mbb_devel.Slicer.Tree.{IsEntry}
use mbb_devel.Slicer.Partition.{meets, part_left, part_right, IsRequest}
use mbb_devel.Slicer.Change.{cmp_meets, cross_parts}
use mbb_devel.Slicer.Content.{inside}
use mbb_devel.Map.{MapEntry, part_entry, del_entry, del_entries}
use mbb_devel.Map.Queue.{InOrder, value_at, InOrder-le, value_below}

-- The pointers that a deletion takes away: the one given, or all for NULL.
abbrev pub matches : ℕ → ℕ → Bool
matches ptr v = (ptr == 0) || (ptr == v)

-- The pointer at a key `p`, where an entry from `b` to `u` with the pointer `v` is cut by the keys
-- from `nb` to `nu`, and `x` is the pointer behind the entry.
left_value :
    (b u nb nu p v x : ℕ)
    → b < nb
    → nb ≤ u
    → u ≤ nu
    → (p ≤ u → x ≡ 0)
    → (if ltb p b then 0 else if leb p (nb - 1) then v else x) ≡ (
        if ltb p b
        then 0
        else if leb p u
        then (if leb nb p && leb p nu && true then 0 else v)
        else x)
left_value b u nb nu p v x h h' k z = elim (Bool-cases (leb p u)) [
  | inl here ↦ ground (arith, z (leb→le p u here))
  | inr past ↦ ground arith
]

right_value :
    (b u nb nu p v x : ℕ)
    → nb ≤ b
    → b ≤ nu
    → nu < u
    → (if ltb p (nu + 1) then 0 else if leb p u then v else x) ≡ (
        if ltb p b
        then 0
        else if leb p u
        then (if leb nb p && leb p nu && true then 0 else v)
        else x)
right_value b u nb nu p v x h k l = ground arith

both_value :
    (b u nb nu p v x : ℕ)
    → b < nb
    → nb ≤ nu
    → nu < u
    → (if ltb p b
        then 0
        else if leb p (nb - 1)
        then v
        else if ltb p (nu + 1)
        then 0
        else if leb p u
        then v
        else x)
      ≡ (if ltb p b
          then 0
          else if leb p u
          then (if leb nb p && leb p nu && true then 0 else v)
          else x)
both_value b u nb nu p v x h k l = ground arith

module _ {ops : SliceOps} {limit : ℕ} (laws : KeyLaws ops limit) (top : ℕ)
    (top_open : (top ≡ 0) ⊎ (top ≡ limit)) (cur : MapEntry)
    (request : IsRequest limit top cur.slice) where
  -- What is left of an entry.
  abbrev remains : MapEntry → List MapEntry
  remains e =
      if matches cur.value e.value && meets limit cur.slice e.slice
      then part_entry e.value (part_left limit cur.slice e.slice)
        ++ part_entry e.value (part_right limit cur.slice e.slice)
      else e ∷ []

  del_entry-remains : (e : MapEntry) → IsEntry limit top e.slice → del_entry ops cur e ≡ remains e
  unfolding del_entry
  del_entry-remains e ok = elim (Bool-cases (meets limit cur.slice e.slice)) [
    | inl hit ↦
        rw
          (
            cmp_meets laws top top_open cur.slice request e.slice ok,
            hit,
            cross_parts laws top top_open cur.slice request e.slice ok hit,
          )
          (ground arith)
    | inr miss ↦ rw (cmp_meets laws top top_open cur.slice request e.slice ok, miss) (ground arith)
  ]

  -- What stands in front of `q` where the entry `e` was.
  abbrev IsRest : ℕ → MapEntry → List MapEntry → List MapEntry → Type 0
  IsRest lo e q q' =
      InOrder limit top lo q'
      × ((p : ℕ)
          → p ≤ limit
          → value_at limit p q' ≡ (
              if ltb p e.slice.begin
              then 0
              else if leb p (upper limit e.slice.end)
              then (if inside limit cur.slice p && matches cur.value e.value then 0 else e.value)
              else value_at limit p q))

  module _ (lo : ℕ) (e : MapEntry) (q : List MapEntry) (le : lo ≤ e.slice.begin)
      (ok : IsEntry limit top e.slice) (o : InOrder limit top (upper limit e.slice.end + 1) q) where
    -- The entry stays as it is.
    kept_lem :
        (matches cur.value e.value && meets limit cur.slice e.slice) ≡ false → IsRest lo e q (e ∷ q)
    kept_lem h = ((le, ok, o), λ p k. ground arith)

    module _ (m : matches cur.value e.value ≡ true)
        (hit : meets limit cur.slice e.slice ≡ true) where
      all_removed :
          ltb e.slice.begin cur.slice.begin ≡ false
          → ltb (upper limit cur.slice.end) (upper limit e.slice.end) ≡ false
          → IsRest lo e q q
      all_removed l r = (
        InOrder-le limit top lo (upper limit e.slice.end + 1) q (ground arith) o,
        λ p k. ground (arith, value_below limit top (upper limit e.slice.end + 1) p q o),
      )

      end_left :
          ltb e.slice.begin cur.slice.begin ≡ true
          → upper limit (cur.slice.begin - 1) ≡ cur.slice.begin - 1
      end_left l = let some_below : 1 < cur.slice.begin = begin_above l in ground arith
        where
          begin_above : ltb e.slice.begin cur.slice.begin ≡ true → 1 < cur.slice.begin
          begin_above h = ground arith

      end_right :
          ltb (upper limit cur.slice.end) (upper limit e.slice.end) ≡ true
          → upper limit cur.slice.end ≡ cur.slice.end
      end_right r = ground arith

      left_stays :
          ltb e.slice.begin cur.slice.begin ≡ true
          → ltb (upper limit cur.slice.end) (upper limit e.slice.end) ≡ false
          → IsRest lo e q (
              record {
                slice = record { begin = e.slice.begin; end = cur.slice.begin - 1 };
                value = e.value;
              }
              ∷ q)
      left_stays l r = (
        (
          le,
          ground arith,
          InOrder-le limit top (upper limit (cur.slice.begin - 1) + 1) (upper limit e.slice.end + 1)
              q (ground arith) o,
        ),
        λ p k.
            rw (end_left l, m)
              (left_value e.slice.begin (upper limit e.slice.end) cur.slice.begin
                (upper limit cur.slice.end) p e.value (value_at limit p q) (ltb→lt _ _ l)
                (ground arith) (ltb-false→le _ _ r)
                (λ below. value_below limit top (upper limit e.slice.end + 1) p q o (omega arith))),
      )

      right_stays :
          ltb e.slice.begin cur.slice.begin ≡ false
          → ltb (upper limit cur.slice.end) (upper limit e.slice.end) ≡ true
          → IsRest lo e q (
              record {
                slice = record { begin = cur.slice.end + 1; end = e.slice.end };
                value = e.value;
              }
              ∷ q)
      right_stays l r = (
        (ground arith, ground arith, o),
        λ p k.
            rw (end_right r, m)
              (right_value e.slice.begin (upper limit e.slice.end) cur.slice.begin cur.slice.end p
                e.value (value_at limit p q) (ltb-false→le _ _ l) (ground arith) (ground arith)),
      )

      both_stay :
          ltb e.slice.begin cur.slice.begin ≡ true
          → ltb (upper limit cur.slice.end) (upper limit e.slice.end) ≡ true
          → IsRest lo e q (
              record {
                slice = record { begin = e.slice.begin; end = cur.slice.begin - 1 };
                value = e.value;
              }
              ∷ record {
                slice = record { begin = cur.slice.end + 1; end = e.slice.end };
                value = e.value;
              }
              ∷ q)
      both_stay l r = (
        (le, ground arith, (ground arith, ground arith, o)),
        λ p k.
            rw (end_left l, end_right r, m)
              (both_value e.slice.begin (upper limit e.slice.end) cur.slice.begin cur.slice.end p
                e.value (value_at limit p q) (ltb→lt _ _ l) (ground arith) (ground arith)),
      )

      cut_lem : IsRest lo e q (
          (part_entry e.value (part_left limit cur.slice e.slice)
            ++ part_entry e.value (part_right limit cur.slice e.slice))
          ++ q)
      cut_lem = elim (Bool-cases (ltb e.slice.begin cur.slice.begin)) [
        | inl l ↦ elim (Bool-cases (ltb (upper limit cur.slice.end) (upper limit e.slice.end))) [
          | inl r ↦ rw (l, r) (both_stay l r)
          | inr r ↦ rw (l, r) (left_stays l r)
        ]
        | inr l ↦ elim (Bool-cases (ltb (upper limit cur.slice.end) (upper limit e.slice.end))) [
          | inl r ↦ rw (l, r) (right_stays l r)
          | inr r ↦ rw (l, r) (all_removed l r)
        ]
      ]

    remains_lem : IsRest lo e q (remains e ++ q)
    remains_lem = elim (Bool-cases (matches cur.value e.value && meets limit cur.slice e.slice)) [
      | inl cut ↦ rw cut (cut_lem (ground arith) (ground arith))
      | inr keep ↦ rw keep (kept_lem keep)
    ]

  -- A deletion keeps a queue in order, and takes away the pointers at the keys of the slice that
  -- match the one given; all else stays.
  pub del_entries_lem :
      (lo : ℕ) (q : List MapEntry)
      → InOrder limit top lo q
      → InOrder limit top lo (del_entries ops cur q)
        × ((p : ℕ)
            → p ≤ limit
            → value_at limit p (del_entries ops cur q) ≡ (
                if inside limit cur.slice p && matches cur.value (value_at limit p q)
                then 0
                else value_at limit p q))
  unfolding del_entries
  del_entries_lem lo [] o = (tt, λ p k. ground arith)
  del_entries_lem lo (e ∷ q) (le, ok, o) =
      let (o', v) = del_entries_lem (upper limit e.slice.end + 1) q o in
      let (o'', v') = remains_lem lo e (del_entries ops cur q) le ok o' in
      rw (del_entry-remains e ok) (o'', λ p k. rw (v' p k, v p k) (ground arith))
