-- ===== src/Map/Insertion.antt =====
-- `map_data_add` of mbbd/map.c in terms of numbers.
use mbb_devel.Prelude.{
  ℕ, ◌+◌, ◌≤◌, ◌<◌, ◌≡◌, refl, ap, arith, ◌∙◌, ◌⊎◌, inl, inr, true, false, Option, none, some, List,
  [], ◌∷◌,
}
use mbb_devel.Prelude.Tests.{ltb, ◌==◌, if◌then◌else◌, Bool-cases, Option-cases, ltb→lt}
use mbb_devel.Prelude.Int.{pos, minus_one}
use mbb_devel.Slice.{Slice, SliceOps, slice_cmp}
use mbb_devel.Slice.Laws.{KeyLaws, upper, slice_cmp_lem}
use mbb_devel.Slicer.Tree.{IsEntry}
use mbb_devel.Slicer.Partition.{meets}
use mbb_devel.Map.{
  MapEntry, MapQueue, Added, added, crossing, with_prev, keep_prev, map_data_split, add_at_tail,
  add_before, add_at, MapQueue, MapCross, entries, map_data_add,
}
use mbb_devel.Map.Queue.{InOrder, Apart, InOrder-le}
use mbb_devel.Map.Join.{
  TellsNext, JoinsNext, joined, SplitResult, split_lem, IsResult, tail_lem, head_lem, between_lem,
  joined_lem,
}

module _ (limit : ℕ) where
  abbrev pub InTheWay : Slice → MapEntry → List MapEntry → Type 0
  InTheWay s x [] = ⊥
  InTheWay s x (e ∷ q) = ((x ≡ e) × (meets limit s e.slice ≡ true)) ⊎ InTheWay s x q

  -- The link before the place ends below the new entry.
  abbrev pub PrevOk : Option MapEntry → MapEntry → Type 0
  PrevOk none cur = Unit
  PrevOk (some p) cur = upper limit p.slice.end < cur.slice.begin

module _ (limit top : ℕ) where
  -- What the search for a place promises: the place, when no entry from there on is in the way, or
  -- an entry that is.
  abbrev pub IsAddition : ℕ → MapEntry → Option MapEntry → List MapEntry → Added → Type 0
  IsAddition lo cur prev q (added q') =
      Apart limit cur.slice q × IsResult limit top lo cur (with_prev prev q) q'
  IsAddition lo cur prev q (crossing e) = InTheWay limit cur.slice e q

module _ {ops : SliceOps} {limit : ℕ} (laws : KeyLaws ops limit) (top : ℕ)
    (top_open : (top ≡ 0) ⊎ (top ≡ limit)) where
  Apart-above :
      (s : Slice) (lo : ℕ) (q : List MapEntry)
      → InOrder limit top lo q
      → upper limit s.end < lo
      → Apart limit s q
  Apart-above s lo [] o h = tt
  Apart-above s lo (e ∷ q) (le, ok, o) h =
      (ground arith, Apart-above s (upper limit e.slice.end + 1) q o (omega arith))

  keep_lem :
      (lo : ℕ) (cur p e : MapEntry) (q : List MapEntry) (r : Added)
      → InOrder limit top lo (p ∷ e ∷ q)
      → upper limit p.slice.end < cur.slice.begin
      → upper limit e.slice.end < cur.slice.begin
      → IsAddition limit top (upper limit p.slice.end + 1) cur (some e) q r
      → IsAddition limit top lo cur (some p) (e ∷ q) (keep_prev (some p) r)
  keep_lem lo cur p e q (added q') (lp, okp, o) h h' (a, (o', v)) =
      ((ground arith, a), ((lp, okp, o'), λ k b. ground (arith, v k b)))
  keep_lem lo cur p e q (crossing x) o h h' w = inr w

  skip_lem :
      (lo : ℕ) (cur e : MapEntry) (q : List MapEntry) (r : Added)
      → upper limit e.slice.end < cur.slice.begin
      → IsAddition limit top lo cur (some e) q r
      → IsAddition limit top lo cur none (e ∷ q) (keep_prev none r)
  skip_lem lo cur e q (added q') h (a, res) = ((ground arith, a), res)
  skip_lem lo cur e q (crossing x) h w = inr w

  first_safe :
      (v : ℕ) (e : MapEntry) (q : List MapEntry)
      → JoinsNext ops limit v (e ∷ q)
      → (TellsNext ops limit ⊎ ((v == e.value) ≡ false))
        × (TellsNext ops limit ⊎ ((e.value == v) ≡ false))
        × JoinsNext ops limit v q
  first_safe v e q (inl tells) = (inl tells, inl tells, inl tells)
  first_safe v e q (inr (o, os)) = (inr o, inr (ground arith), inr os)

  add_before_lem :
      (lo : ℕ) (cur e : MapEntry) (prev : Option MapEntry) (q : List MapEntry)
      → InOrder limit top lo (with_prev prev (e ∷ q))
      → lo ≤ cur.slice.begin
      → IsEntry limit top cur.slice
      → PrevOk limit prev cur
      → upper limit cur.slice.end < e.slice.begin
      → JoinsNext ops limit cur.value (with_prev prev (e ∷ q))
      → IsResult limit top lo cur (with_prev prev (e ∷ q)) (add_before ops cur prev e q)
  unfolding add_before
  add_before_lem lo cur e none q o l i b h j =
      head_lem laws top top_open lo cur e q l o i h (map_data_split ops cur e)
        (split_lem laws top top_open cur e h (ground arith) (first_safe cur.value e q j).0)
  add_before_lem lo cur e (some p) q o l i b h j =
      let (left, right, j') = first_safe cur.value p (e ∷ q) j in
      let (left', right', j'') = first_safe cur.value e q j' in
      elim (Option-cases (map_data_split ops cur e)) [
        | inl apart ↦
            rw (add_before, apart)
              (between_lem laws top top_open lo cur p e q o i b h (map_data_split ops p cur)
                (split_lem laws top top_open p cur b (ground arith) right))
        | inr (m, split) ↦
            let (same, v, next) : SplitResult cur e (some m) =
              rw split at (split_lem laws top top_open cur e h (ground arith) left') in
            let split' : map_data_split ops cur e ≡ some (joined cur e) = split ∙ ap some same in
            rw (add_before, split')
              (joined_lem laws top top_open lo cur p e q o i b h v next
                (map_data_split ops p (joined cur e))
                (split_lem laws top top_open p (joined cur e) b (ground arith) right))
      ]

  tail_result :
      (lo : ℕ) (cur : MapEntry) (prev : Option MapEntry)
      → InOrder limit top lo (with_prev prev [])
      → lo ≤ cur.slice.begin
      → IsEntry limit top cur.slice
      → PrevOk limit prev cur
      → JoinsNext ops limit cur.value (with_prev prev [])
      → IsResult limit top lo cur (with_prev prev []) (add_at_tail ops cur prev)
  unfolding add_at_tail
  tail_result lo cur none o l i b j = ((l, i, tt), λ p k. ground arith)
  tail_result lo cur (some t) o l i b j =
      tail_lem laws top top_open lo cur t o i b (map_data_split ops t cur)
        (split_lem laws top top_open t cur b (ground arith) (first_safe cur.value t [] j).1)

  cmp_lem :
      (a b : Slice)
      → IsEntry limit top a
      → IsEntry limit top b
      → slice_cmp ops a b ≡ (
          if ltb (upper limit a.end) b.begin
          then minus_one
          else if ltb (upper limit b.end) a.begin
          then pos 1
          else pos 0)
  cmp_lem a b h k = slice_cmp_lem laws a b (ground arith, ground arith) (ground arith, ground arith)

  behind :
      (lo : ℕ) (prev : Option MapEntry) (q : List MapEntry)
      → InOrder limit top lo (with_prev prev q)
      → InOrder limit top 0 q
  behind lo none q o = InOrder-le limit top 0 lo q (omega arith) o
  behind lo (some p) q (le, ok, o) =
      InOrder-le limit top 0 (upper limit p.slice.end + 1) q (omega arith) o

  step :
      (lo : ℕ) (cur : MapEntry) (prev : Option MapEntry) (e : MapEntry) (q : List MapEntry)
      → InOrder limit top lo (with_prev prev (e ∷ q))
      → upper limit e.slice.end < cur.slice.begin
      → PrevOk limit prev cur
      → ((lo' : ℕ)
          → InOrder limit top lo' (e ∷ q)
          → lo' ≤ cur.slice.begin
          → JoinsNext ops limit cur.value (e ∷ q)
          → IsAddition limit top lo' cur (some e) q (add_at ops cur (some e) q))
      → lo ≤ cur.slice.begin
      → JoinsNext ops limit cur.value (with_prev prev (e ∷ q))
      → IsAddition limit top lo cur prev (e ∷ q) (keep_prev prev (add_at ops cur (some e) q))
  step lo cur none e q o h b next l j =
      skip_lem lo cur e q (add_at ops cur (some e) q) h (next lo o l j)
  step lo cur (some p) e q (lp, okp, o) h b next l j =
      keep_lem lo cur p e q (add_at ops cur (some e) q) (lp, okp, o) b h
        (next (upper limit p.slice.end + 1) o (omega arith) (first_safe cur.value p (e ∷ q) j).2)

  -- The search for a place in a queue in order.
  pub add_at-IsAddition :
      (lo : ℕ) (cur : MapEntry) (prev : Option MapEntry) (q : List MapEntry)
      → InOrder limit top lo (with_prev prev q)
      → lo ≤ cur.slice.begin
      → IsEntry limit top cur.slice
      → PrevOk limit prev cur
      → JoinsNext ops limit cur.value (with_prev prev q)
      → IsAddition limit top lo cur prev q (add_at ops cur prev q)
  unfolding add_at
  add_at-IsAddition lo cur prev [] o l i b j = (tt, tail_result lo cur prev o l i b j)
  add_at-IsAddition lo cur prev (e ∷ q) o l i b j =
      let (le, ok, oq) : InOrder limit top 0 (e ∷ q) = behind lo prev (e ∷ q) o in
      elim (Bool-cases (ltb (upper limit cur.slice.end) e.slice.begin)) [
        | inl before ↦
            rw (cmp_lem cur.slice e.slice i ok, before)
              (
                (
                  ground arith,
                  Apart-above cur.slice (upper limit e.slice.end + 1) q oq (ground arith),
                ),
                add_before_lem lo cur e prev q o l i b (ltb→lt _ _ before) j,
              )
        | inr not_before ↦ elim (Bool-cases (ltb (upper limit e.slice.end) cur.slice.begin)) [
          | inl after ↦
              rw (cmp_lem cur.slice e.slice i ok, not_before, after)
                (step lo cur prev e q o (ltb→lt _ _ after) b
                  (λ lo' o' l' j'.
                    add_at-IsAddition lo' cur (some e) q o' l' i (ltb→lt _ _ after) j')
                  l j)
          | inr not_after ↦
              rw (cmp_lem cur.slice e.slice i ok, not_before, not_after) (inl (refl, ground arith))
        ]
      ]

-- What `map_data_add` promises, when no overlap was met before: the new queue, or the queue as it
-- was and a report of an entry that shares a key with the new one.
pub record Reports (limit top : ℕ) (cur : MapEntry) (d : MapQueue) (cross : MapCross)
    (r : MapQueue × MapCross) : Type 0 where
  pub free :
      r.1.found ≡ false
      → Apart limit cur.slice (entries d)
        × IsResult limit top 0 cur (entries d) (entries r.0)
        × (r.1 ≡ cross)
  pub blocked :
      r.1.found ≡ true
      → (r.0 ≡ d)
        × InTheWay limit cur.slice (record { slice = r.1.slice; value = r.1.value }) (entries d)

module _ {ops : SliceOps} {limit : ℕ} (laws : KeyLaws ops limit) (top : ℕ)
    (top_open : (top ≡ 0) ⊎ (top ≡ limit)) where
  -- The addition of an entry to a queue in order, while no overlap was reported. If none is
  -- reported, no entry shared a key with the new one, and the new queue is in order and has the
  -- pointer at the keys of the new slice and what it had at the others. If one is, the queue is as
  -- it was, and the report is an entry of it that shares a key with the new one.
  pub map_data_add-Reports :
      (cur : MapEntry) (d : MapQueue) (cross : MapCross)
      → InOrder limit top 0 (entries d)
      → IsEntry limit top cur.slice
      → JoinsNext ops limit cur.value (entries d)
      → cross.found ≡ false
      → Reports limit top cur d cross (map_data_add ops cur d cross)
  unfolding map_data_add
  map_data_add-Reports cur d cross o entry j new = simp (new) (
      pick (add_at ops cur none (entries d))
        (add_at-IsAddition laws top top_open 0 cur none (entries d) o (omega arith) entry tt j))
    where
      pick :
          (r : Added)
          → IsAddition limit top 0 cur none (entries d) r
          → Reports limit top cur d cross (elim r [
            | added q ↦ (some q, cross)
            | crossing e ↦ (
              d,
              record {
                slice = record { begin = ops.dup e.slice.begin; end = ops.dup e.slice.end };
                value = e.value;
                found = true;
              },
            )
          ])
      pick (added q) (a, res) = record { free = λ h. (a, res, refl); blocked = λ h. cc }
      pick (crossing e) w = record {
        free = λ h. cc;
        blocked = λ h. (refl, rw (laws.dup_same e.slice.begin, laws.dup_same e.slice.end) w);
      }
