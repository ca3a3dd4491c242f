-- ===== src/Slicer/Query.antt =====
-- The functions of mbbd/slicer.c that build a slicer, look into it, or visit its entries.
-- An iterator is the list of the entries that it has not passed; a user function that changes the
-- data in place returns the new data.
use mbb_devel.Prelude.{ℕ, ◌+◌, Option, none, some, List, [], ◌∷◌, ◌++◌}
use mbb_devel.Prelude.Tests.{if◌then◌else◌}
use mbb_devel.Prelude.Int.{ℤ, pos, is_zero, sub_ℕ, pos_part, neg_part}
use mbb_devel.Prelude.Lists.{drop, get_elem?}
use mbb_devel.Slice.{Slice, SliceOps, is_null, slice_cmp, slice_cmp_point}
use mbb_devel.Slicer.{Entry, Slicer, DataOps, Search, is_some, links_before}

unfoldable pub slicer_new : {D : Type 0} → Slicer D
slicer_new = record { queue = []; count = pos 0 }

-- `-n`.
abbrev pub neg_ℤ : ℤ → ℤ
neg_ℤ z = sub_ℕ (neg_part z) (pos_part z)

module _ {S D E : Type 0} (ops : SliceOps) (dops : DataOps S D E) where
  -- `if (p != NULL) p = dup(p)`.
  dup_key : ℕ → ℕ
  dup_key p = if is_null p then p else ops.dup p

  -- Only an empty slicer is initialised.
  unfoldable pub slicer_init : Option D → ℕ → ℕ → Slicer D → Slicer D
  unfolding dup_key
  slicer_init d begin end s = elim s.queue [
    | [] ↦ record s {
      queue =
          record {
            slice = record { begin = dup_key begin; end = dup_key end };
            content = if is_some d then dops.dup d else d;
          }
          ∷ [];
    }
    | _ ↦ s
  ]

unfoldable pub point_cmp_func : SliceOps → ℕ → Slice → ℤ
point_cmp_func ops point s = neg_ℤ (slice_cmp_point ops s point)

module _ {D : Type 0} where
  unfoldable pub slicer_count : Slicer D → ℤ
  slicer_count s = s.count

  -- The queue of the data found is freed when it is empty.
  abbrev pub or_null : List D → Option (List D)
  or_null [] = none
  or_null (d ∷ found) = some (d ∷ found)

  module _ (ops : SliceOps) where
    -- The data of the entry that the search returns.
    unfoldable pub entry_data : List (Entry D) → Option ℕ → Option D
    entry_data q none = none
    entry_data q (some i) = elim (get_elem? q i) [ none ↦ none | some e ↦ e.content ]

    unfoldable pub slicer_find : Search D → ℕ → Slicer D → Option D
    slicer_find search point s = entry_data s.queue (search (point_cmp_func ops point) s.queue)

    -- The loop of `slicer_search` along `next`: data is pushed at the tail.
    unfoldable pub search_next : Slice → List (Entry D) → List D → List D
    search_next slice [] found = found
    search_next slice (e ∷ q) found =
        let more =
          search_next slice q (elim e.content [ none ↦ found | some d ↦ found ++ d ∷ [] ]) in
        if is_zero (slice_cmp ops slice e.slice) then more else found

    -- The loop along `prev`: data is pushed at the head.
    unfoldable pub search_prev : Slice → List (Entry D) → List D → List D
    search_prev slice [] found = found
    search_prev slice (e ∷ before) found =
        let more =
          search_prev slice before (elim e.content [ none ↦ found | some d ↦ d ∷ found ]) in
        if is_zero (slice_cmp ops slice e.slice) then more else found

    -- Both loops, from the entry that the tree's search returns.
    unfoldable pub search_at : Slice → List (Entry D) → ℕ → Entry D → List D
    search_at slice q i e =
        let first : List D = elim e.content [ none ↦ [] | some d ↦ d ∷ [] ] in
        search_prev slice (links_before i q []) (search_next slice (drop (i + 1) q) first)

    -- From the result of the tree's search. The outer `none` is a failed assertion: no entry
    -- meets the slice.
    unfoldable pub search_from : Slice → List (Entry D) → Option ℕ → Option (Option (List D))
    search_from slice q none = none
    search_from slice q (some i) = elim (get_elem? q i) [
      | none ↦ none
      | some e ↦ some (or_null (search_at slice q i e))
    ]

    unfoldable pub slicer_search : Search D → ℕ → ℕ → Slicer D → Option (Option (List D))
    slicer_search lookup begin end s =
        let slice : Slice = record { begin = begin; end = end } in
        search_from slice s.queue (lookup (λ key. slice_cmp ops slice key) s.queue)

  -- What a visit with `func` makes of the queue and of `arg`. NULL data is passed over.
  unfoldable pub visit :
      {A : Type 0} → (D → Slice → A → D × A) → List (Entry D) → A → List (Entry D) × A
  visit func [] arg = ([], arg)
  visit func (e ∷ q) arg = elim e.content [
    | none ↦ (let rest = visit func q arg in (e ∷ rest.0, rest.1))
    | some d ↦
        (let r = func d e.slice arg in
          let rest = visit func q r.1 in (record e { content = some r.0 } ∷ rest.0, rest.1))
  ]

  unfoldable pub slicer_foreach :
      {A : Type 0} → (D → Slice → A → D × A) → Slicer D → A → Slicer D × A
  slicer_foreach func s arg = let r = visit func s.queue arg in (record s { queue = r.0 }, r.1)

  unfoldable pub slicer_iter_init : Slicer D → List (Entry D)
  slicer_iter_init s = s.queue

  -- FALSE is `none`.
  unfoldable pub slicer_iter_next : List (Entry D) → Option (Option D × Slice × List (Entry D))
  slicer_iter_next [] = none
  slicer_iter_next (e ∷ q) = some (e.content, e.slice, q)
