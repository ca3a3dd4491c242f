-- ===== src/AddressMap/Bsearch.antt =====
-- The binary search of mbbd/mbbinetmap.c, against a search of all entries from the front.
use mbb_devel.Prelude.{
  ℕ, zero, suc, ◌+◌, ◌/◌, ◌^◌, ◌≤◌, ◌<◌, ◌≡◌, refl, arith, inl, inr, Option, none, some, List,
  false, [], ◌∷◌,
}
use mbb_devel.Prelude.Tests.{ltb, leb, Bool-cases, if◌then◌else◌}
use mbb_devel.Prelude.Int.{pos, pred_ℤ}
use mbb_devel.Prelude.Lists.{length, get_elem?}
use mbb_devel.AddressMap.{UmapEntry, umap_probe, umap_bsearch_step, umap_bsearch_loop, umap_bsearch}

-- The ranges are not empty, in order, apart from each other, and begin at `lo` or above.
abbrev pub Rising : ℕ → List UmapEntry → Type 0
Rising lo [] = Unit
Rising lo (e ∷ q) = (lo ≤ e.min) × (e.min ≤ e.max) × Rising (e.max + 1) q

-- The first entry whose range holds the address.
abbrev pub scan : ℕ → List UmapEntry → Option UmapEntry
scan ip [] = none
scan ip (e ∷ q) = if ltb ip e.min then scan ip q else if ltb e.max ip then scan ip q else some e

get_elem?-some :
    {A : Type 0} (q : List A) (i : ℕ) → i < length q → (a : A) × (get_elem? q i ≡ some a)
get_elem?-some [] i h = absurd (omega arith)
get_elem?-some (x ∷ q) zero h = (x, refl)
get_elem?-some (x ∷ q) (suc i) h = get_elem?-some q i (omega arith)

-- The first `min` ranges end before the address.
abbrev Below : ℕ → ℕ → List UmapEntry → Type 0
Below ip zero q = Unit
Below ip (suc min) [] = Unit
Below ip (suc min) (e ∷ q) = (e.max < ip) × Below ip min q

-- The ranges from the one at `top` on begin behind the address.
abbrev Above : ℕ → ℕ → List UmapEntry → Type 0
Above ip top [] = Unit
Above ip zero (e ∷ q) = (ip < e.min) × Above ip zero q
Above ip (suc top) (e ∷ q) = Above ip top q

Rising-get :
    (lo i : ℕ) (q : List UmapEntry) (e : UmapEntry)
    → Rising lo q
    → get_elem? q i ≡ some e
    → (lo ≤ e.min) × (e.min ≤ e.max)
Rising-get lo i [] e h at = cc
Rising-get lo zero (x ∷ q) e (le, ok, h) at = ground arith
Rising-get lo (suc i) (x ∷ q) e (le, ok, h) at =
    let (le', ok') = Rising-get (x.max + 1) i q e h at in (omega arith, ok')

Below-get :
    (lo ip n : ℕ) (q : List UmapEntry) (e : UmapEntry)
    → Rising lo q
    → get_elem? q n ≡ some e
    → e.max < ip
    → Below ip (suc n) q
Below-get lo ip n [] e h at k = cc
Below-get lo ip zero (x ∷ q) e (le, ok, h) at k = (ground arith, tt)
Below-get lo ip (suc n) (x ∷ q) e (le, ok, h) at k =
    let (le', ok') = Rising-get (x.max + 1) n q e h at in
    (omega arith, Below-get (x.max + 1) ip n q e h at k)

Above-all : (lo ip : ℕ) (q : List UmapEntry) → Rising lo q → ip < lo → Above ip zero q
Above-all lo ip [] h k = tt
Above-all lo ip (e ∷ q) (le, ok, h) k = (omega arith, Above-all (e.max + 1) ip q h (omega arith))

Above-get :
    (lo ip n : ℕ) (q : List UmapEntry) (e : UmapEntry)
    → Rising lo q
    → get_elem? q n ≡ some e
    → ip < e.min
    → Above ip n q
Above-get lo ip n [] e h at k = tt
Above-get lo ip zero (x ∷ q) e (le, ok, h) at k =
    (ground arith, Above-all (x.max + 1) ip q h (ground arith))
Above-get lo ip (suc n) (x ∷ q) e (le, ok, h) at k = Above-get (x.max + 1) ip n q e h at k

Above-length : (ip : ℕ) (q : List UmapEntry) → Above ip (length q) q
Above-length ip [] = tt
Above-length ip (e ∷ q) = Above-length ip q

-- An empty window: no range holds the address.
scan_missed :
    (ip min top : ℕ) (q : List UmapEntry)
    → Below ip min q
    → Above ip top q
    → top ≤ min
    → scan ip q ≡ none
scan_missed ip min top [] b a h = refl
scan_missed ip zero zero (e ∷ q) b (a, as') h = ground (arith, scan_missed ip zero zero q tt as' h)
scan_missed ip zero (suc top) (e ∷ q) b a h = absurd (omega arith)
scan_missed ip (suc min) zero (e ∷ q) b (a, as') h =
    ground (arith, scan_missed ip zero zero q tt as' (omega arith))
scan_missed ip (suc min) (suc top) (e ∷ q) (b, bs) a h =
    ground (arith, scan_missed ip min top q bs a (omega arith))

pub scan_below : (lo ip : ℕ) (q : List UmapEntry) → Rising lo q → ip < lo → scan ip q ≡ none
scan_below lo ip q h k = scan_missed ip 0 0 q tt (Above-all lo ip q h k) (omega arith)

-- The range at an index is the only one that holds its addresses.
scan_hit :
    (lo ip n : ℕ) (q : List UmapEntry) (e : UmapEntry)
    → Rising lo q
    → get_elem? q n ≡ some e
    → e.min ≤ ip
    → ip ≤ e.max
    → scan ip q ≡ some e
scan_hit lo ip n [] e h at k k' = cc
scan_hit lo ip zero (x ∷ q) e (le, ok, h) at k k' = ground arith
scan_hit lo ip (suc n) (x ∷ q) e (le, ok, h) at k k' =
    let (le', ok') = Rising-get (x.max + 1) n q e h at in
    ground (arith, scan_hit (x.max + 1) ip n q e h at k k')

-- The index in the middle of a window that is not empty.
middle :
    (q : List UmapEntry) (min top : ℕ)
    → length q ≤ 2 ^ 30
    → suc top ≤ length q
    → min ≤ top
    → (leb (2 ^ 31) (min + top) ≡ false) × (min ≤ (min + top) / 2) × ((min + top) / 2 ≤ top)
middle q min top big le h = (ground arith, omega arith, omega arith)

-- The window from `min` to `max` shrinks, and the loop ends with what the scan finds.
loop-scan :
    (q : List UmapEntry) (lo ip fuel min top : ℕ)
    → Rising lo q
    → length q ≤ 2 ^ 30
    → top ≤ length q
    → 0 < fuel
    → top < min + fuel
    → Below ip min q
    → Above ip top q
    → umap_bsearch_loop q ip fuel min (pred_ℤ (pos top)) ≡ some (scan ip q)
unfolding umap_bsearch_loop umap_bsearch_step umap_probe
loop-scan q lo ip zero min top h big le z f b a = absurd (omega arith)
loop-scan q lo ip (suc fuel) min zero h big le z f b a =
    rw (scan_missed ip min zero q b a (omega arith)) refl
loop-scan q lo ip (suc fuel) min (suc top) h big le z f b a = elim (Bool-cases (ltb top min)) [
  | inl empty ↦
      rw
        (
          umap_bsearch_loop,
          umap_bsearch_step,
          empty,
          scan_missed ip min (suc top) q b a (ground arith),
        )
        refl
  | inr some_left ↦
      let (fits, ge, le') = middle q min top big le (ground arith) in
      let (e, at) = get_elem?-some q ((min + top) / 2) (omega arith) in
      rw (umap_bsearch_loop, umap_bsearch_step, some_left, fits, at)
        (elim (Bool-cases (ltb ip e.min)) [
          | inl less ↦
              rw (umap_probe, less)
                (loop-scan q lo ip fuel min ((min + top) / 2) h big (omega arith) (omega arith)
                  (omega arith) b (Above-get lo ip ((min + top) / 2) q e h at (ground arith)))
          | inr geq ↦ elim (Bool-cases (ltb e.max ip)) [
            | inl greater ↦
                rw (umap_probe, geq, greater)
                  (loop-scan q lo ip fuel (suc ((min + top) / 2)) (suc top) h big le (omega arith)
                    (omega arith) (Below-get lo ip ((min + top) / 2) q e h at (ground arith)) a)
            | inr leq ↦
                rw
                  (
                    umap_probe,
                    geq,
                    leq,
                    scan_hit lo ip ((min + top) / 2) q e h at (ground arith) (ground arith),
                  )
                  refl
          ]
        ])
]

-- The binary search of a sorted array of at most 2 ^ 30 ranges, which are apart from each other,
-- ends without a sum that leaves the gint and without an index behind the array, and finds the
-- entry that a search of all entries finds.
pub umap_bsearch-scan :
    (base : List UmapEntry) (lo ip : ℕ)
    → Rising lo base
    → length base ≤ 2 ^ 30
    → umap_bsearch base ip ≡ some (scan ip base)
unfolding umap_bsearch
umap_bsearch-scan base lo ip h big =
    loop-scan base lo ip (length base + 1) 0 (length base) h big (omega arith) (omega arith)
      (omega arith) tt (Above-length ip base)
