-- ===== src/XmlTag/Order.antt =====
-- The sorting of children in lib/xmltag.c against the order of a comparison.
use mbb_devel.Prelude.{
  ℕ, zero, suc, ◌+◌, ◌≤◌, ◌<◌, ◌≡◌, refl, ap, arith, true, false, Option, none, some, List, [], ◌∷◌,
  ◌++◌, inl, inr,
}
use mathlib.Core.List.{Perm, perm_middle, append-nil}
use mathlib.Core.List.Perm
use mathlib.Core.Path.{subst}
use mbb_devel.Prelude.Tests.{Bool-cases}
use mbb_devel.Prelude.Int.{ℤ, is_pos}
use mbb_devel.Prelude.Lists.{All, length}
use mbb_devel.Prelude.Text.{Bytes}
use mbb_devel.Variant.{Variant, variant_get_string}
use mbb_devel.XmlTag.{
  XmlTag, Tags, no_tags, then_tag, xml_tag, tag_childs, to_list, of_list, lookup_child,
  insert_child, xml_tag_get_attr, xml_tag_get_child,
}
use mbb_devel.XmlTag.Chain.{lookup_child-insert}
use mbb_devel.XmlTag.Sort.{
  xml_tag_sort_merge, cut, xml_tag_sort_real, xml_tag_sort_with_data, values_cmp, xml_tag_attr_cmp,
  xml_tag_sort_by_attr,
}

-- What sorting needs of a comparison: `cmp a b > 0` is a total and transitive order backwards.
pub record IsOrder {A : Type 0} (cmp : A → A → ℤ) : Type 0 where
  pub total : (a b : A) → is_pos (cmp a b) ≡ true → is_pos (cmp b a) ≡ false
  pub trans :
      (a b c : A) → is_pos (cmp a b) ≡ false → is_pos (cmp b c) ≡ false → is_pos (cmp a c) ≡ false

module _ {A : Type 0} (cmp : A → A → ℤ) where
  abbrev Below : A → List A → Type 0
  Below x = All (λ y. is_pos (cmp x y) ≡ false)

  -- No element compares as greater than a later one.
  abbrev pub Ascending : List A → Type 0
  Ascending [] = Unit
  Ascending (x ∷ l) = Below x l × Ascending l

  merge-All :
      (P : A → Type 0) (l r : List A) → All P l → All P r → All P (xml_tag_sort_merge cmp l r)
  unfolding xml_tag_sort_merge
  merge-All P [] r h k = k
  merge-All P (x ∷ l) [] h k = h
  merge-All P (x ∷ l) (y ∷ r) (p, h) (q, k) = elim (Bool-cases (is_pos (cmp x y))) [
    | inl more ↦ rw more (q, merge-All P (x ∷ l) r (p, h) k)
    | inr less ↦ rw less (p, merge-All P l (y ∷ r) h (q, k))
  ]

  merge-perm : (l r : List A) → Perm (xml_tag_sort_merge cmp l r) (l ++ r)
  unfolding xml_tag_sort_merge
  merge-perm [] r = Perm.rfl
  merge-perm (x ∷ l) [] = rw (append-nil l) Perm.rfl
  merge-perm (x ∷ l) (y ∷ r) = elim (Bool-cases (is_pos (cmp x y))) [
    | inl more ↦
        rw more
          (Perm.trans (Perm.cons y (merge-perm (x ∷ l) r)) (Perm.symm (perm_middle (x ∷ l) r)))
    | inr less ↦ rw less (Perm.cons x (merge-perm l (y ∷ r)))
  ]

  module _ (order : IsOrder cmp) where
    Below-trans : (x y : A) (l : List A) → is_pos (cmp x y) ≡ false → Below y l → Below x l
    Below-trans x y [] le h = tt
    Below-trans x y (z ∷ l) le (h, hs) = (order.trans x y z le h, Below-trans x y l le hs)

    merge-Ascending :
        (l r : List A) → Ascending l → Ascending r → Ascending (xml_tag_sort_merge cmp l r)
    unfolding xml_tag_sort_merge
    merge-Ascending [] r h k = k
    merge-Ascending (x ∷ l) [] h k = h
    merge-Ascending (x ∷ l) (y ∷ r) (b, h) (c, k) = elim (Bool-cases (is_pos (cmp x y))) [
      | inl more ↦
          let le = order.total x y more in
          rw more (
            merge-All (λ z. is_pos (cmp y z) ≡ false) (x ∷ l) r (le, Below-trans y x l le b) c,
            merge-Ascending (x ∷ l) r (b, h) k,
          )
      | inr less ↦ rw less (
        merge-All (λ z. is_pos (cmp x z) ≡ false) l (y ∷ r) b (less, Below-trans x y r less c),
        merge-Ascending l (y ∷ r) h (c, k),
      )
    ]

module _ {A : Type 0} where
  cut-append : (fast slow : List A) → (cut fast slow).0 ++ (cut fast slow).1 ≡ slow
  unfolding cut
  cut-append fast [] = refl
  cut-append [] (x ∷ slow) = refl
  cut-append (a ∷ []) (x ∷ slow) = refl
  cut-append (a ∷ b ∷ fast) (x ∷ slow) = ap (λ l. x ∷ l) (cut-append fast slow)

  -- Both halves have elements.
  cut_lem :
      (fast slow : List A)
      → length fast + 2 ≤ length slow
      → (0 < length (cut fast slow).0)
        × (0 < length (cut fast slow).1)
        × (length (cut fast slow).0 + length (cut fast slow).1 ≡ length slow)
  unfolding cut
  cut_lem fast [] h = absurd (omega arith)
  cut_lem [] (x ∷ slow) h = omega arith
  cut_lem (a ∷ []) (x ∷ slow) h = omega arith
  cut_lem (a ∷ b ∷ fast) (x ∷ slow) h = omega (arith, cut_lem fast slow (omega arith))

module _ {A : Type 0} (cmp : A → A → ℤ) where
  -- The second list has the elements of the first one, in order.
  abbrev pub IsSort : List A → List A → Type 0
  IsSort l r = Ascending cmp r × Perm r l

  module _ (order : IsOrder cmp) where
    merged :
        (l : List A) (x y : A)
        → (a b : List A) → IsSort (cut l (x ∷ y ∷ l)).0 a
        → IsSort (cut l (x ∷ y ∷ l)).1 b
        → IsSort (x ∷ y ∷ l) (xml_tag_sort_merge cmp a b)
    merged l x y a b (s, p) (t, q) = (
      merge-Ascending cmp order a b s t,
      subst (Perm (xml_tag_sort_merge cmp a b)) (cut-append l (x ∷ y ∷ l))
          (Perm.trans (merge-perm cmp a b) (Perm.append p q)),
    )

    pub xml_tag_sort_real-IsSort :
        (f : ℕ) (l : List A)
        → 0 < f
        → length l ≤ f
        → (r : List A) × (xml_tag_sort_real cmp f l ≡ some r) × IsSort l r
    unfolding xml_tag_sort_real
    xml_tag_sort_real-IsSort zero l h k = absurd (omega arith)
    xml_tag_sort_real-IsSort (suc f) [] h k = ([], refl, (tt, Perm.rfl))
    xml_tag_sort_real-IsSort (suc f) (x ∷ []) h k = (x ∷ [], refl, ((tt, tt), Perm.rfl))
    xml_tag_sort_real-IsSort (suc f) (x ∷ y ∷ l) h k =
        let (some_left, some_right, whole) = cut_lem l (x ∷ y ∷ l) (omega arith) in
        let (a, ea, sa) =
          xml_tag_sort_real-IsSort f (cut l (x ∷ y ∷ l)).0 (omega arith) (omega arith) in
        let (b, eb, sb) =
          xml_tag_sort_real-IsSort f (cut l (x ∷ y ∷ l)).1 (omega arith) (omega arith) in
        (xml_tag_sort_merge cmp a b, rw (ea, eb) refl, merged l x y a b sa sb)

to_list-of_list : (l : List XmlTag) → to_list (of_list l) ≡ l
to_list-of_list [] = refl
to_list-of_list (t ∷ l) = ap (λ r. t ∷ r) (to_list-of_list l)

module _ (strcmp0 : Option Bytes → Option Bytes → ℤ) where
  attr_cmp-IsOrder : (attr : Bytes) → IsOrder strcmp0 → IsOrder (xml_tag_attr_cmp strcmp0 attr)
  unfolding xml_tag_attr_cmp values_cmp
  attr_cmp-IsOrder attr order = record {
    total = λ a b. total_at (xml_tag_get_attr a attr) (xml_tag_get_attr b attr);
    trans = λ a b c.
        trans_at (xml_tag_get_attr a attr) (xml_tag_get_attr b attr) (xml_tag_get_attr c attr);
  }
    where
      total_at :
          (a b : Option Variant)
          → is_pos (values_cmp strcmp0 a b) ≡ true
          → is_pos (values_cmp strcmp0 b a) ≡ false
      total_at none none h = refl
      total_at none (some v2) h = cc
      total_at (some v1) none h = refl
      total_at (some v1) (some v2) h = order.total (variant_get_string v1) (variant_get_string v2) h

      trans_at :
          (a b c : Option Variant)
          → is_pos (values_cmp strcmp0 a b) ≡ false
          → is_pos (values_cmp strcmp0 b c) ≡ false
          → is_pos (values_cmp strcmp0 a c) ≡ false
      trans_at none b none h k = refl
      trans_at none b (some v) h k = refl
      trans_at (some u) none c h k = cc
      trans_at (some u) (some v) none h k = cc
      trans_at (some u) (some v) (some w) h k =
          order.trans (variant_get_string u) (variant_get_string v) (variant_get_string w) h k

  -- Sorting the children of a name by an attribute succeeds, and the tag then has the same
  -- children of that name in the order of the attribute's values, tags without it first, if
  -- `g_strcmp0` is an order.
  pub xml_tag_sort_by_attr-IsSort :
      (tag : XmlTag) (name attr : Bytes)
      → IsOrder strcmp0
      → (tag' : XmlTag) × (xml_tag_sort_by_attr strcmp0 tag name attr ≡ some tag')
        × IsSort
            (xml_tag_attr_cmp strcmp0 attr)
            (to_list (xml_tag_get_child tag name))
            (to_list (xml_tag_get_child tag' name))
  unfolding xml_tag_sort_by_attr xml_tag_sort_with_data xml_tag_get_child xml_tag_sort_real
      insert_child
  xml_tag_sort_by_attr-IsSort (xml_tag n attrs body childs) name attr order =
      go (lookup_child name childs) refl
    where
      go :
          (ts : Tags)
          → lookup_child name childs ≡ ts
          → (tag' : XmlTag) × (xml_tag_sort_by_attr strcmp0 (xml_tag n attrs body childs) name attr
              ≡ some tag')
            × IsSort
                (xml_tag_attr_cmp strcmp0 attr)
                (to_list (lookup_child name childs))
                (to_list (lookup_child name (tag_childs tag')))
      go no_tags e = (xml_tag n attrs body childs, rw e refl, rw e (tt, Perm.rfl))
      go (then_tag t ts) e =
          let (r, sorted, is_sort) =
            xml_tag_sort_real-IsSort (xml_tag_attr_cmp strcmp0 attr) (attr_cmp-IsOrder attr order)
              (suc (length (to_list ts))) (t ∷ to_list ts) (omega arith) (omega arith) in
          (
            xml_tag n attrs body (insert_child name (of_list r) childs),
            rw (e, sorted) refl,
            rw (e, lookup_child-insert name (of_list r) childs, to_list-of_list r) is_sort,
          )
