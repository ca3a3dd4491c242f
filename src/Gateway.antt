-- ===== src/Gateway.antt =====
-- mbbd/mbbgateway.c: the links of a gateway, one queue of time intervals for each link number.
-- A `struct mbb_gwlink *` is an address; the links themselves, which these functions only read,
-- are the heap. A hash table is an association list with at most one entry for a key.
pub mod Order
pub mod Insert
pub mod Lookup
pub mod Reorder
mod Tests
use mbb_devel.Prelude.{
  ℕ, ◌≡◌, Bool, true, false, Option, none, some, List, [], ◌∷◌, ◌++◌, not, ◌&&◌,
}
use mbb_devel.Prelude.Tests.{◌==◌, if◌then◌else◌}
use mbb_devel.Prelude.Int.{ℤ, is_neg, is_pos, is_zero}
use mbb_devel.Prelude.Lists.{length}
use mbb_devel.Times.{mbb_time_becmp, mbb_time_ebcmp, mbb_time_rcmp}

-- `struct mbb_gwlink`, without the gateway and the operator that it points to.
pub record GwLink : Type 0 where
  pub id : ℕ
  pub link : ℕ
  pub start : ℤ
  pub end : ℤ

abbrev pub Queues : Type 0
Queues = List (ℕ × List ℕ)

-- `struct mbb_gateway`: `ht` is NULL before the first link and after the last one.
pub record Gateway : Type 0 where
  pub id : ℕ
  pub name : List ℕ
  pub addr : ℕ
  pub ht : Option Queues

-- g_hash_table_lookup, g_hash_table_insert of a queue, and g_hash_table_remove.
unfoldable pub lookup : ℕ → Queues → Option (List ℕ)
lookup k [] = none
lookup k (r ∷ ht) = let rest = lookup k ht in if r.0 == k then some r.1 else rest

unfoldable pub store : ℕ → List ℕ → Queues → Queues
store k q [] = (k, q) ∷ []
store k q (r ∷ ht) = let rest = store k q ht in if r.0 == k then (k, q) ∷ ht else r ∷ rest

unfoldable pub erase : ℕ → Queues → Queues
erase k [] = []
erase k (r ∷ ht) = let rest = erase k ht in if r.0 == k then ht else r ∷ rest

-- The queue that `gw->ht` has for a link number.
unfoldable pub gw_queue : Gateway → ℕ → Option (List ℕ)
gw_queue gw k = elim gw.ht [ none ↦ none | some ht ↦ lookup k ht ]

-- What `gw_queue_insert_gl` makes of a queue: FALSE comes with the link that is in the way.
pub data Inserted : Type 0 where
  inserted : List ℕ → Inserted
  conflict : ℕ → Inserted

abbrev pub behind : ℕ → Inserted → Inserted
behind cur (inserted q) = inserted (cur ∷ q)
behind cur (conflict old) = conflict old

-- What is before and behind the first occurrence of a link: `g_queue_find`.
unfoldable pub cut_at : ℕ → List ℕ → Option (List ℕ × List ℕ)
cut_at gl [] = none
cut_at gl (cur ∷ q) =
    let rest = cut_at gl q in
    if cur == gl then some ([], q) else elim rest [ none ↦ none | some r ↦ some (cur ∷ r.0, r.1) ]

module _ (heap : ℕ → GwLink) where
  unfoldable pub can_add_at : ℕ → Bool → List ℕ → Bool
  can_add_at gl create [] = true
  can_add_at gl create (cur ∷ q) =
      let rest = can_add_at gl create q in
      if not create && (cur == gl)
      then rest
      else if is_neg (mbb_time_ebcmp (heap gl).end (heap cur).start)
      then true
      else if is_pos (mbb_time_becmp (heap gl).start (heap cur).end)
      then rest
      else false

  unfoldable pub mbb_gateway_can_add : Gateway → ℕ → Bool → Bool
  mbb_gateway_can_add gw gl create = elim (gw_queue gw (heap gl).link) [
    | none ↦ true
    | some q ↦ can_add_at gl create q
  ]

  unfoldable pub gw_queue_insert_gl : ℕ → List ℕ → Inserted
  gw_queue_insert_gl gl [] = inserted (gl ∷ [])
  gw_queue_insert_gl gl (cur ∷ q) =
      let rest = gw_queue_insert_gl gl q in
      if is_pos (mbb_time_becmp (heap gl).start (heap cur).end)
      then behind cur rest
      else if is_neg (mbb_time_ebcmp (heap gl).end (heap cur).start)
      then inserted (gl ∷ cur ∷ q)
      else conflict cur

  -- `gw_queue_insert_gl` without the link at its old place, which it gets back on a conflict.
  unfoldable pub reinsert : ℕ → List ℕ → List ℕ → List ℕ × Bool
  reinsert gl front back = elim (gw_queue_insert_gl gl (front ++ back)) [
    | inserted q ↦ (q, true)
    | conflict old ↦ (front ++ gl ∷ back, false)
  ]

  -- A queue of length 1 stays as it is.
  unfoldable pub reorder : ℕ → List ℕ → List ℕ × Bool
  reorder gl q = elim (cut_at gl q) [
    | none ↦ (q, false)
    | some r ↦ if length q == 1 then (q, true) else reinsert gl r.0 r.1
  ]

  unfoldable pub mbb_gateway_reorder_link : Gateway → ℕ → Gateway × Bool
  mbb_gateway_reorder_link gw gl = elim gw.ht [
    | none ↦ (gw, false)
    | some ht ↦ elim (lookup (heap gl).link ht) [
      | none ↦ (gw, false)
      | some q ↦
          (let r = reorder gl q in (record gw { ht = some (store (heap gl).link r.0 ht) }, r.1))
    ]
  ]

  -- The third component is `*old`.
  unfoldable pub mbb_gateway_add_link : Gateway → ℕ → Gateway × Bool × Option ℕ
  mbb_gateway_add_link gw gl =
      let k = (heap gl).link in
      let ht : Queues = elim gw.ht [ none ↦ [] | some ht ↦ ht ] in
      elim (lookup k ht) [
        | none ↦ (record gw { ht = some (store k (gl ∷ []) ht) }, true, none)
        | some q ↦ elim (gw_queue_insert_gl gl q) [
          | inserted q' ↦ (record gw { ht = some (store k q' ht) }, true, none)
          | conflict old ↦ (record gw { ht = some ht }, false, some old)
        ]
      ]

  -- The queue without the link, freed when it is empty; the table is freed when it is empty.
  unfoldable pub mbb_gateway_del_link : Gateway → ℕ → Gateway
  mbb_gateway_del_link gw gl =
      let k = (heap gl).link in
      elim gw.ht [
        | none ↦ gw
        | some ht ↦ elim (lookup k ht) [
          | none ↦ gw
          | some q ↦ elim (cut_at gl q) [
            | none ↦ gw
            | some r ↦ record gw { ht = drop_empty (shrink k (r.0 ++ r.1) ht) }
          ]
        ]
      ]
    where
      shrink : ℕ → List ℕ → Queues → Queues
      shrink k [] ht = erase k ht
      shrink k (cur ∷ q) ht = store k (cur ∷ q) ht

      drop_empty : Queues → Option Queues
      drop_empty [] = none
      drop_empty (r ∷ ht) = some (r ∷ ht)

  unfoldable pub get_link_at : ℤ → List ℕ → Option ℕ
  get_link_at t [] = none
  get_link_at t (gl ∷ q) =
      let tmp = mbb_time_rcmp t (heap gl).start (heap gl).end in
      let rest = get_link_at t q in
      if is_zero tmp then some gl else if is_neg tmp then none else rest

  unfoldable pub mbb_gateway_get_link : Gateway → ℕ → ℤ → Option ℕ
  mbb_gateway_get_link gw link t = elim (gw_queue gw link) [
    | none ↦ none
    | some q ↦ get_link_at t q
  ]

  -- `mbb_gateway_get_by_addr` is the argument `by_addr`.
  unfoldable pub mbb_gateway_find_link : (ℕ → Option Gateway) → ℕ → ℕ → ℤ → Option ℕ
  mbb_gateway_find_link by_addr ip link t = elim (by_addr ip) [
    | none ↦ none
    | some gw ↦ mbb_gateway_get_link gw link t
  ]

unfoldable pub mbb_gateway_nlink : Gateway → ℕ
mbb_gateway_nlink gw = elim gw.ht [ none ↦ 0 | some ht ↦ length ht ]

-- The links in the order in which `func` gets them.
unfoldable pub all_links : Queues → List ℕ
all_links [] = []
all_links (r ∷ ht) = r.1 ++ all_links ht

unfoldable pub visit_links : {A : Type 0} → (ℕ → A → A) → List ℕ → A → A
visit_links func [] arg = arg
visit_links func (gl ∷ q) arg = visit_links func q (func gl arg)

unfoldable pub mbb_gateway_link_foreach : {A : Type 0} → (ℕ → A → A) → Gateway → A → A
mbb_gateway_link_foreach func gw arg = elim gw.ht [
  | none ↦ arg
  | some ht ↦ visit_links func (all_links ht) arg
]
