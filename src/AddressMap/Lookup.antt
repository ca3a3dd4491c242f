-- ===== src/AddressMap/Lookup.antt =====
-- Lookups in the table of units, against lookups in the map that it is made of.
use mbb_devel.Prelude.{
  ℕ, suc, ◌+◌, ◌^◌, ◌≤◌, ◌≡◌, refl, arith, inl, inr, Option, none, some, List, [], ◌∷◌, ◌∙◌,
}
use mbb_devel.Prelude.Tests.{leb, Bool-cases, if◌then◌else◌}
use mbb_devel.Prelude.Int.{ℤ, pos, is_zero}
use mbb_devel.Prelude.Lists.{length}
use mbb_devel.Inet.{ipv4_max}
use mbb_devel.Slice.{Slice}
use mbb_devel.Slice.Laws.{upper}
use mbb_devel.Slice.Keys.{to_ipv4, inet_ops, time_ops}
use mbb_devel.Slice.Keys.Instances.{inet_laws, time_laws, time_max}
use mbb_devel.Slicer.{Entry, Search}
use mbb_devel.Slicer.Partition.{Covers}
use mbb_devel.Slicer.Tree.{SearchLaws}
use mbb_devel.Slicer.Content.{content_at, slicer_find-at}
use mbb_devel.Map.{MapEntry, MapQueue, Map, entries, map_find}
use mbb_devel.Slicer.Query.{slicer_iter_init, slicer_count}
use mbb_devel.Map.Iter.{map_iter_init, map_data_iter_is_null}
use mbb_devel.Map.Queue.{InOrder, value_at}
use mbb_devel.Map.Find.{EachContent, IsMap, map_find-at}
use mbb_devel.Units.{InetPoolEntry}
use mbb_devel.AddressMap.{
  UmapDataEntry, UmapEntry, umap_get_data, umap_entries, umap_data_search, umap_init, mbb_umap_find,
  append_entry, mbb_umap_create, array_or_null, find_in,
}
use mbb_devel.AddressMap.Bsearch.{Rising, scan, scan_below, umap_bsearch-scan}
use mbb_devel.AddressMap.Chain.{owner_of, NotNull, chain-value_at}

module _ (heap : ℕ → InetPoolEntry) where
  abbrev pub result_at : ℤ → Option UmapEntry → Option ℕ
  result_at t none = none
  result_at t (some e) = umap_data_search e.chain t

  -- What the entry of one slice adds to the table.
  abbrev part_of : Slice → List MapEntry → List UmapEntry → List UmapEntry
  part_of slice queue array = append_entry heap slice (umap_get_data heap queue []) array

  entries-step :
      (s : Entry (List MapEntry)) (iter : List (Entry (List MapEntry)))
      → umap_entries heap (s ∷ iter) ≡ part_of s.slice (entries s.content) (umap_entries heap iter)
  unfolding umap_entries umap_get_data map_data_iter_is_null
  entries-step s iter = go s.content refl
    where
      go :
          (c : MapQueue)
          → s.content ≡ c
          → umap_entries heap (s ∷ iter) ≡ part_of s.slice (entries c) (umap_entries heap iter)
      go none e = rw (umap_entries, e) refl
      go (some []) e = rw (umap_entries, e) refl
      go (some (m ∷ q)) e = rw (umap_entries, e) refl

  Rising-le : (lo hi : ℕ) (a : List UmapEntry) → lo ≤ hi → Rising hi a → Rising lo a
  Rising-le lo hi [] h k = tt
  Rising-le lo hi (e ∷ a) h (le, ok, k) = (omega arith, ok, k)

  Rising-append_entry :
      (lo : ℕ) (slice : Slice) (chain : List UmapDataEntry) (a : List UmapEntry)
      → slice.begin ≡ lo
      → lo ≤ slice.end
      → slice.end ≤ ipv4_max
      → Rising (slice.end + 1) a
      → Rising lo (append_entry heap slice chain a)
  Rising-append_entry lo slice [] a s le ok h = Rising-le lo (slice.end + 1) a (omega arith) h
  Rising-append_entry lo slice (d ∷ chain) a s le ok h = (
    omega arith,
    omega arith,
    Rising-le (to_ipv4 slice.end + 1) (slice.end + 1) a (omega arith) h,
  )

  append_entry-scan :
      (lo ip : ℕ) (t : ℤ) (slice : Slice) (chain : List UmapDataEntry) (a : List UmapEntry)
      → slice.begin ≡ lo
      → lo ≤ slice.end
      → slice.end ≤ ipv4_max
      → Rising (slice.end + 1) a
      → lo ≤ ip
      → result_at t (scan ip (append_entry heap slice chain a))
        ≡ (if leb ip slice.end then umap_data_search chain t else result_at t (scan ip a))
  unfolding umap_data_search
  append_entry-scan lo ip t slice [] a s le ok h k = elim (Bool-cases (leb ip slice.end)) [
    | inl here ↦ rw (here, scan_below (slice.end + 1) ip a h (ground arith)) refl
    | inr later ↦ rw later refl
  ]
  append_entry-scan lo ip t slice (d ∷ chain) a s le ok h k =
      let small : to_ipv4 slice.end ≡ slice.end = omega arith in
      let small' : to_ipv4 slice.begin ≡ slice.begin = omega arith in
      rw (small, small') (ground arith)

  entries-Rising :
      (lo hi : ℕ) (q : List (Entry (List MapEntry)))
      → Covers ipv4_max ipv4_max lo hi q
      → Rising lo (umap_entries heap q)
  unfolding umap_entries
  entries-Rising lo hi [] h = tt
  entries-Rising lo hi (s ∷ q) (b, le, ok, h) = rw (entries-step s q) (
      Rising-append_entry lo s.slice (umap_get_data heap (entries s.content) [])
        (umap_entries heap q) b (ground arith) (ground arith)
        (Rising-le (s.slice.end + 1) (upper ipv4_max s.slice.end + 1) (umap_entries heap q)
          (ground arith) (entries-Rising (upper ipv4_max s.slice.end + 1) hi q h)))

  -- What the table has at an address and a time is what the slicer has there.
  entries-content_at :
      (lo hi ip t : ℕ) (q : List (Entry (List MapEntry)))
      → Covers ipv4_max ipv4_max lo hi q
      → EachContent (λ d. InOrder time_max 0 0 (entries d)) q
      → EachContent (λ d. NotNull (entries d)) q
      → lo ≤ ip
      → t ≤ time_max
      → result_at (pos t) (scan ip (umap_entries heap q))
        ≡ owner_of heap (value_at time_max t (entries (content_at ipv4_max ip q)))
  unfolding umap_entries
  entries-content_at lo hi ip t [] h o nn k k' = refl
  entries-content_at lo hi ip t (s ∷ q) (b, le, ok, h) (o, os) (nn, nns) k k' =
      let ends : upper ipv4_max s.slice.end ≡ s.slice.end = ground arith in
      let rest = entries-Rising (upper ipv4_max s.slice.end + 1) hi q h in
      let step =
        append_entry-scan lo ip (pos t) s.slice (umap_get_data heap (entries s.content) [])
          (umap_entries heap q) b (ground arith) (ground arith)
          (Rising-le (s.slice.end + 1) (upper ipv4_max s.slice.end + 1) (umap_entries heap q)
            (ground arith) rest)
          k in
      rw (entries-step s q) (
        step
        ∙ rw ends (elim (Bool-cases (leb ip s.slice.end)) [
          | inl here ↦
              rw here (chain-value_at heap 0 t (entries s.content) [] o nn tt (omega arith) k')
          | inr later ↦ rw later (
              entries-content_at (upper ipv4_max s.slice.end + 1) hi ip t q h os nns (ground arith)
                k')
        ]))

  length-append_entry :
      (slice : Slice) (chain : List UmapDataEntry) (a : List UmapEntry)
      → length (append_entry heap slice chain a) ≤ suc (length a)
  length-append_entry slice [] a = omega arith
  length-append_entry slice (d ∷ chain) a = omega arith

  entries_length : (q : List (Entry (List MapEntry))) → length (umap_entries heap q) ≤ length q
  unfolding umap_entries
  entries_length [] = omega arith
  entries_length (s ∷ q) = rw (entries-step s q) (
      omega (
        arith,
        length-append_entry s.slice (umap_get_data heap (entries s.content) [])
            (umap_entries heap q),
        entries_length q,
      ))

  -- The table is the one that the map is made into.
  created :
      (map : Map) (umap : List UmapEntry)
      → mbb_umap_create heap (some map) ≡ some umap
      → umap ≡ umap_entries heap map.queue
  unfolding mbb_umap_create umap_init map_iter_init slicer_iter_init slicer_count
  created map umap h = elim (Bool-cases (is_zero map.count)) [
    | inl empty ↦ absurd (ground arith)
    | inr full ↦ array (umap_entries heap map.queue) (ground arith)
  ]
    where
      array : (a : List UmapEntry) → array_or_null heap a ≡ some umap → umap ≡ a
      array [] e = cc
      array (x ∷ a) e = cc

  find_in-scan : (t : ℤ) (o : Option UmapEntry) → find_in (some o) t ≡ some (result_at t o)
  find_in-scan t none = refl
  find_in-scan t (some e) = refl

  -- A lookup in the table made of a map in order, which has at most 2 ^ 30 slices and no NULL among
  -- its pointers, at a time from 0 to 2 ^ 31 - 1, ends, and finds the owner of the entry that the
  -- map has at the address and time. (Later times are left out: the table compares them as they
  -- are, and the map by `time_cmp`, which wraps.)
  pub mbb_umap_find-map_find :
      (find : Search (List MapEntry))
      → SearchLaws find
      → (map : Map) (umap : List UmapEntry) (ip t : ℕ) → IsMap ipv4_max ipv4_max time_max 0 map
      → EachContent (λ d. NotNull (entries d)) map.queue
      → length map.queue ≤ 2 ^ 30
      → mbb_umap_create heap (some map) ≡ some umap
      → ip ≤ ipv4_max
      → t ≤ time_max
      → mbb_umap_find umap ip (pos t)
        ≡ some (owner_of heap (map_find inet_ops time_ops find ip t map))
  unfolding mbb_umap_find
  mbb_umap_find-map_find find laws map umap ip t is_map nn big h k k' =
      let table = umap_entries heap map.queue in
      let found =
        entries-content_at 0 (ipv4_max + 1) ip t map.queue is_map.partition is_map.queues nn
          (omega arith) k' in
      let searched =
        umap_bsearch-scan table 0 ip (entries-Rising 0 (ipv4_max + 1) map.queue is_map.partition)
          (omega (arith, entries_length map.queue)) in
      rw
        (
          created map umap h,
          mbb_umap_find,
          searched,
          map_find-at inet_laws time_laws ipv4_max 0 (inr refl) (inl refl) find laws map is_map ip t
              k k',
          slicer_find-at inet_laws ipv4_max (inr refl) find laws ip k map is_map.partition,
          ← found,
        )
        (find_in-scan (pos t) (scan ip table))
