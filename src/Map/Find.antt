-- ===== src/Map/Find.antt =====
-- A map as a function of two keys: its invariant, and `map_find` in terms of numbers.
use mbb_devel.Prelude.{
  refl, ℕ, ◌+◌, ◌≤◌, ◌<◌, ◌≡◌, sym, arith, ◌⊎◌, inl, inr, true, Option, none, some, List, [], ◌∷◌,
}
use mathlib.Core.Path.{subst}
use mbb_devel.Prelude.Tests.{leb, if◌then◌else◌, Bool-cases}
use mbb_devel.Prelude.Lists.{All, All-append}
use mbb_devel.Slice.{Slice, SliceOps}
use mbb_devel.Slice.Laws.{KeyLaws, upper}
use mbb_devel.Slicer.{Entry, Search}
use mbb_devel.Slicer.Tree.{SearchLaws}
use mbb_devel.Slicer.Partition.{
  Covers, IsPartition, meets, part_left, part_right, pieces, keep_part, change_all,
}
use mbb_devel.Slicer.Sweep.{Affected}
use mbb_devel.Slicer.Query.{slicer_find}
use mbb_devel.Slicer.Effect.{Changed}
use mbb_devel.Slicer.Content.{inside, content_at, slicer_find-at}
use mbb_devel.Map.{MapEntry, MapQueue, Map, entries, map_data_dup, map_find}
use mbb_devel.Map.Queue.{InOrder, value_at, find_value-at}

pub dup_same : (d : MapQueue) → map_data_dup d ≡ d
unfolding map_data_dup
dup_same none = refl
dup_same (some q) = refl

-- A property of the data of all entries.
abbrev pub EachContent : (MapQueue → Type 0) → List (Entry (List MapEntry)) → Type 0
EachContent P = All (λ e. P e.content)

-- The slicer is a partition, and each of its queues is in order.
pub record IsMap (limit top dlimit dtop : ℕ) (map : Map) : Type 0 where
  pub partition : IsPartition limit top map.queue
  pub queues : EachContent (λ d. InOrder dlimit dtop 0 (entries d)) map.queue

module _ (limit : ℕ) (P : MapQueue → Type 0) where
  content_at-has :
      (p : ℕ) (q : List (Entry (List MapEntry)))
      → P none
      → EachContent P q
      → P (content_at limit p q)
  content_at-has p [] n h = n
  content_at-has p (e ∷ q) n (h, hs) = elim (Bool-cases (leb p (upper limit e.slice.end))) [
    | inl here ↦ rw here h
    | inr later ↦ rw later (content_at-has p q n hs)
  ]

  keep_part-EachContent : (d : MapQueue) (s : Option Slice) → P d → EachContent P (keep_part d s)
  keep_part-EachContent d none h = tt
  keep_part-EachContent d (some s) h = (h, tt)

  -- A change whose function keeps the property where it acts keeps it everywhere.
  pub change_all-EachContent :
      (f : MapQueue → MapQueue) (new : Slice) (q : List (Entry (List MapEntry)))
      → EachContent P q
      → Affected limit new (λ d. P (f d)) q
      → EachContent P (change_all limit f new q)
  change_all-EachContent f new [] h k = tt
  change_all-EachContent f new (e ∷ q) (h, hs) (k, ks) =
      All-append (λ e'. P e'.content) (pieces limit f new e) (change_all limit f new q) here
        (change_all-EachContent f new q hs ks)
    where
      here : EachContent P (pieces limit f new e)
      here = elim (Bool-cases (meets limit new e.slice)) [
        | inl hit ↦ rw hit (
            All-append (λ e'. P e'.content) (keep_part e.content (part_left limit new e.slice)) _
              (keep_part-EachContent e.content (part_left limit new e.slice) h)
              (k hit, keep_part-EachContent e.content (part_right limit new e.slice) h))
        | inr miss ↦ rw miss (h, tt)
      ]

  -- The data at a key of the slice are those of an entry that meets it.
  affected-content_at :
      (top : ℕ) (new : Slice) (p lo hi : ℕ) (q : List (Entry (List MapEntry)))
      → Covers limit top lo hi q
      → lo ≤ p
      → p < hi
      → inside limit new p ≡ true
      → Affected limit new P q
      → P (content_at limit p q)
  affected-content_at top new p lo hi [] h k k' i a = absurd (omega arith)
  affected-content_at top new p lo hi (e ∷ q) (s, le, ok, h) k k' i (a, as') =
      elim (Bool-cases (leb p (upper limit e.slice.end))) [
        | inl here ↦ rw here (a (ground arith))
        | inr later ↦ rw later (
            affected-content_at top new p (upper limit e.slice.end + 1) hi q h (ground arith) k' i
              as')
      ]

pub Affected-map :
    (limit : ℕ) (new : Slice) (P Q : MapQueue → Type 0) (q : List (Entry (List MapEntry)))
    → ((d : MapQueue) → P d → Q d)
    → Affected limit new P q
    → Affected limit new Q q
Affected-map limit new P Q [] f h = tt
Affected-map limit new P Q (e ∷ q) f (h, hs) =
    (λ hit. f e.content (h hit), Affected-map limit new P Q q f hs)

-- The change of entries with `P` by a function that keeps their queues in order.
pub Changed-IsMap :
    (ops : SliceOps) (limit top dlimit dtop : ℕ) (search : Search (List MapEntry))
    (f : MapQueue → MapQueue) (P : MapQueue → Type 0) (new : Slice) (map map' : Map)
    → IsMap limit top dlimit dtop map
    → Changed ops limit top search f new map map'
    → Affected limit new P map.queue
    → ((d : MapQueue) → P d → InOrder dlimit dtop 0 (entries (f d)))
    → IsMap limit top dlimit dtop map'
Changed-IsMap ops limit top dlimit dtop search f P new map map' is_map changed affected keeps =
    record {
      partition = changed.partition;
      queues = subst (EachContent (λ d. InOrder dlimit dtop 0 (entries d))) (sym changed.entries) (
          change_all-EachContent limit (λ d. InOrder dlimit dtop 0 (entries d)) f new map.queue
            is_map.queues
            (Affected-map limit new P (λ d. InOrder dlimit dtop 0 (entries (f d))) map.queue keeps
              affected));
    }

module _ {ops dkey_ops : SliceOps} {limit dlimit : ℕ} (laws : KeyLaws ops limit)
    (dlaws : KeyLaws dkey_ops dlimit) (top dtop : ℕ) (top_open : (top ≡ 0) ⊎ (top ≡ limit))
    (dtop_open : (dtop ≡ 0) ⊎ (dtop ≡ dlimit)) (search : Search (List MapEntry))
    (search_laws : SearchLaws search) (map : Map) (is_map : IsMap limit top dlimit dtop map) where
  pub slicer_find-InOrder :
      (k : ℕ) → k ≤ limit → InOrder dlimit dtop 0 (entries (slicer_find ops search k map))
  slicer_find-InOrder k h =
      rw (slicer_find-at laws top top_open search search_laws k h map is_map.partition)
        (content_at-has limit (λ d. InOrder dlimit dtop 0 (entries d)) k map.queue tt is_map.queues)

  pub map_find-at :
      (k d : ℕ)
      → k ≤ limit
      → d ≤ dlimit
      → map_find ops dkey_ops search k d map
        ≡ value_at dlimit d (entries (slicer_find ops search k map))
  unfolding map_find
  map_find-at k d h h' =
      find_value-at dlaws dtop dtop_open d 0 (entries (slicer_find ops search k map)) h'
        (slicer_find-InOrder k h)

  pub slicer_find-affected :
      (P : MapQueue → Type 0) (new : Slice) (k : ℕ)
      → k ≤ limit
      → inside limit new k ≡ true
      → Affected limit new P map.queue
      → P (slicer_find ops search k map)
  slicer_find-affected P new k h i a =
      rw (slicer_find-at laws top top_open search search_laws k h map is_map.partition) (
        affected-content_at limit P top new k 0 (limit + 1) map.queue is_map.partition (omega arith)
          (omega arith) i a)

module _ {ops dkey_ops : SliceOps} {limit dlimit : ℕ} (laws : KeyLaws ops limit)
    (dlaws : KeyLaws dkey_ops dlimit) (top dtop : ℕ) (top_open : (top ≡ 0) ⊎ (top ≡ limit))
    (dtop_open : (dtop ≡ 0) ⊎ (dtop ≡ dlimit)) (search : Search (List MapEntry))
    (search_laws : SearchLaws search) where
  -- What a change makes of the pointer at two keys.
  pub Changed-map_find :
      (f : MapQueue → MapQueue) (new : Slice) (map map' : Map)
      → IsMap limit top dlimit dtop map
      → IsMap limit top dlimit dtop map'
      → Changed ops limit top search f new map map'
      → (k d : ℕ) → k ≤ limit
      → d ≤ dlimit
      → map_find ops dkey_ops search k d map' ≡ (
          if inside limit new k
          then value_at dlimit d (entries (f (slicer_find ops search k map)))
          else map_find ops dkey_ops search k d map)
  Changed-map_find f new map map' is_map is_map' changed k d h h' =
      rw
        (
          map_find-at laws dlaws top dtop top_open dtop_open search search_laws map' is_map' k d h
              h',
          map_find-at laws dlaws top dtop top_open dtop_open search search_laws map is_map k d h h',
          changed.found k h,
        )
        (elim (Bool-cases (inside limit new k)) [ inl i ↦ rw i | inr o ↦ rw o ])
