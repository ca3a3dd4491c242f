-- ===== src/XmlTag/Values.antt =====
-- The arguments of a request, taken from its tag by `xml_tag_get_valuesv` of lib/xmltag.c, and the
-- choice of a list or a single value by `xml_tag_epath`.
use mbb_devel.Prelude.{
  ℕ, suc, ◌+◌, ◌≡◌, refl, ap, ◌∙◌, arith, ◌⊎◌, inl, inr, Bool, true, false, Option, none, some,
  List, [], ◌∷◌, ◌++◌,
}
use mbb_devel.Prelude.Tests.{◌==◌, if◌then◌else◌, Bool-cases, Option-cases}
use mbb_devel.Prelude.Int.{ℤ, pos, minus_one}
use mbb_devel.Prelude.Lists.{length}
use mbb_devel.Prelude.Text.{Bytes}
use mbb_devel.Variant.{Variant, variant_get_string}
use mbb_devel.XmlTag.{XmlTag}
use mbb_devel.XmlTag.Path.{
  xml_tag_path_body, xml_tag_path_attr, xml_tag_path, xml_tag_path_list, xml_tag_path_body_list,
  xml_tag_path_attr_list,
}

-- `struct xml_tag_var`, with the flag that comes with it. `conv` gives what it writes through its
-- pointer, of type `V`, or fails.
pub record XmlTagVar (V : Type 0) : Type 0 where
  pub path : Option Bytes
  pub name : Option Bytes
  pub conv : Option (Option Bytes → Option V)
  pub optional : Bool

-- What happens to the variable of an argument.
pub data Stored (V : Type 0) : Type 0 where
  untouched : Stored V
  text : Option Bytes → Stored V
  converted : V → Stored V

-- The values stored, the number returned, and the text that was not converted, for `argp`.
abbrev pub Values : Type 0 → Type 0
Values V = List (Stored V) × ℤ × Option (Option Bytes)

-- What one round of the loop comes to: a value, or the end with the text for `argp`.
pub data Round (V : Type 0) : Type 0 where
  stored : Stored V → Round V
  stopped : Option (Option Bytes) → Round V

module _ {V : Type 0} where
  abbrev pub then_store : Stored V → Values V → Values V
  then_store v (vs, ret, arg) = (v ∷ vs, ret, arg)

  unfoldable pub convert : XmlTagVar V → Option Bytes → Round V
  convert xtv str = elim xtv.conv [
    | none ↦ stored (text str)
    | some conv ↦ elim (conv str) [ none ↦ stopped (some str) | some v ↦ stored (converted v) ]
  ]

  unfoldable pub take_value : XmlTagVar V → Option Variant → Round V
  take_value xtv none = if xtv.optional then stored untouched else stopped none
  take_value xtv (some var) = convert xtv (variant_get_string var)

  -- What an argument gives that is not in the tag, or is there: it is stored, left alone where it is
  -- missing and optional, as a text where there is no conversion.
  abbrev pub IsTaken : XmlTagVar V → Option Variant → Stored V → Type 0
  IsTaken xtv none v = (xtv.optional ≡ true) × (v ≡ untouched)
  IsTaken xtv (some var) v =
      ((xtv.conv ≡ none) × (v ≡ text (variant_get_string var)))
      ⊎ ((conv : Option Bytes → Option V) × (x : V) × (xtv.conv ≡ some conv)
          × (conv (variant_get_string var) ≡ some x)
          × (v ≡ converted x))

  -- It is missing and not optional, or it is there and the conversion fails, whose text is given.
  abbrev pub IsRefused : XmlTagVar V → Option Variant → Option (Option Bytes) → Type 0
  IsRefused xtv none arg = (xtv.optional ≡ false) × (arg ≡ none)
  IsRefused xtv (some var) arg =
      (conv : Option Bytes → Option V) × (xtv.conv ≡ some conv)
      × (conv (variant_get_string var) ≡ none)
      × (arg ≡ some (variant_get_string var))

  abbrev IsRound : XmlTagVar V → Option Variant → Round V → Type 0
  IsRound xtv var (stored v) = IsTaken xtv var v
  IsRound xtv var (stopped arg) = IsRefused xtv var arg

  take_value-IsRound :
      (xtv : XmlTagVar V) (var : Option Variant) → IsRound xtv var (take_value xtv var)
  unfolding take_value convert
  take_value-IsRound xtv none = elim (Bool-cases xtv.optional) [
    | inl e ↦ rw (take_value, e) (refl, refl)
    | inr e ↦ rw (take_value, e) (refl, refl)
  ]
  take_value-IsRound xtv (some var) = elim (Option-cases xtv.conv) [
    | inl e ↦ rw (take_value, convert, e) (inl (refl, refl))
    | inr (conv, e) ↦ elim (Option-cases (conv (variant_get_string var))) [
      | inl u ↦ rw (take_value, convert, e, u) (conv, refl, u, refl)
      | inr (x, u) ↦ rw (take_value, convert, e, u) (inr (conv, x, refl, u, refl))
    ]
  ]

  module _ (strsplit : Bytes → List Bytes) (tag : XmlTag) where
    unfoldable pub get_var : XmlTagVar V → Option Variant
    get_var xtv = elim xtv.name [
      | none ↦ xml_tag_path_body strsplit tag xtv.path
      | some name ↦ xml_tag_path_attr strsplit tag xtv.path name
    ]

    -- The loop, with the number of the argument.
    unfoldable pub values_from : ℕ → List (XmlTagVar V) → Values V
    values_from index [] = ([], minus_one, none)
    values_from index (xtv ∷ vars) =
        let rest = values_from (suc index) vars in
        elim (take_value xtv (get_var xtv)) [
          | stored v ↦ then_store v rest
          | stopped arg ↦ ([], pos index, arg)
        ]

    unfoldable pub xml_tag_get_valuesv : List (XmlTagVar V) → Values V
    xml_tag_get_valuesv vars = values_from 0 vars

    -- Each of the arguments is stored.
    abbrev pub Stores : List (XmlTagVar V) → List (Stored V) → Type 0
    Stores [] [] = Unit
    Stores [] (v ∷ vs) = ⊥
    Stores (xtv ∷ vars) [] = ⊥
    Stores (xtv ∷ vars) (v ∷ vs) = IsTaken xtv (get_var xtv) v × Stores vars vs

    -- The outcome when counting from `index`: all arguments, or those before the first that stops.
    abbrev pub IsOutcome : ℕ → List (XmlTagVar V) → Values V → Type 0
    IsOutcome index vars r =
        ((vs : List (Stored V)) × Stores vars vs × (r ≡ (vs, minus_one, none)))
        ⊎ ((before : List (XmlTagVar V)) × (xtv : XmlTagVar V) × (after : List (XmlTagVar V))
            × (vs : List (Stored V)) × (arg : Option (Option Bytes)) × (vars
                ≡ before ++ xtv ∷ after)
            × Stores before vs
            × IsRefused xtv (get_var xtv) arg
            × (r ≡ (vs, pos (index + length before), arg)))

    further :
        (index : ℕ) (xtv : XmlTagVar V) (vars : List (XmlTagVar V)) (v : Stored V) (r : Values V)
        → IsTaken xtv (get_var xtv) v
        → IsOutcome (suc index) vars r
        → IsOutcome index (xtv ∷ vars) (then_store v r)
    further index xtv vars v r e (inl (vs, s, same)) = inl (v ∷ vs, (e, s), ap (then_store v) same)
    further index xtv vars v r e (inr (before, x, after, vs, arg, split, s, stop, same)) = inr (
      xtv ∷ before,
      x,
      after,
      v ∷ vs,
      arg,
      ap (λ l. xtv ∷ l) split,
      (e, s),
      stop,
      ap (then_store v) same ∙ ap (λ n. (v ∷ vs, pos n, arg)) (omega arith),
    )

    values_from-IsOutcome :
        (index : ℕ) (vars : List (XmlTagVar V)) → IsOutcome index vars (values_from index vars)
    unfolding values_from
    values_from-IsOutcome index [] = inl ([], tt, refl)
    values_from-IsOutcome index (xtv ∷ vars) =
        go (values_from (suc index) vars) (values_from-IsOutcome (suc index) vars)
          (take_value xtv (get_var xtv)) (take_value-IsRound xtv (get_var xtv))
      where
        go :
            (rest : Values V)
            → IsOutcome (suc index) vars rest
            → (r : Round V) → IsRound xtv (get_var xtv) r
            → IsOutcome index
                (xtv ∷ vars)
                (elim r [ stored v ↦ then_store v rest | stopped arg ↦ ([], pos index, arg) ])
        go rest later (stored v) e = further index xtv vars v rest e later
        go rest later (stopped arg) e =
            inr ([], xtv, vars, [], arg, refl, tt, e, ap (λ n. ([], pos n, arg)) (omega arith))

    -- Taking the arguments of a request: either -1 is returned, and each argument is stored, as its
    -- text or as what it converts to, where a missing one must be optional and leaves its variable
    -- alone; or the number of the first one is returned that is missing and not optional, or whose
    -- conversion fails, and those before it are stored. Only a failed conversion gives its text.
    pub xml_tag_get_valuesv-IsOutcome :
        (vars : List (XmlTagVar V)) → IsOutcome 0 vars (xml_tag_get_valuesv vars)
    unfolding xml_tag_get_valuesv
    xml_tag_get_valuesv-IsOutcome vars = values_from-IsOutcome 0 vars

-- A pointer to a tag, a value, or a list of them.
pub data Found : Type 0 where
  found_tag : Option XmlTag → Found
  found_tags : List XmlTag → Found
  found_value : Option Variant → Found
  found_values : List Variant → Found

-- `strsplit` splits at each slash, and `split_colon` at the first colon: no part of an empty text,
-- else one or two.
module _ (strsplit : Bytes → List Bytes) (split_colon : Bytes → List Bytes) where
  -- The choice by the field behind the colon.
  unfoldable pub epath_field : XmlTag → Bool → Bytes → List Bytes → Found
  epath_field tag true path [] = found_tag (xml_tag_path strsplit tag (some path))
  epath_field tag false path [] = found_tags (xml_tag_path_list strsplit tag path)
  epath_field tag true path ([] ∷ more) = found_value (xml_tag_path_body strsplit tag (some path))
  epath_field tag false path ([] ∷ more) = found_values (xml_tag_path_body_list strsplit tag path)
  epath_field tag true path ((c ∷ opt) ∷ more) =
      found_value (xml_tag_path_attr strsplit tag (some path) (c ∷ opt))
  epath_field tag false path ((c ∷ opt) ∷ more) =
      found_values (xml_tag_path_attr_list strsplit tag path (c ∷ opt))

  unfoldable pub epath_fields : XmlTag → Bool → List Bytes → Found
  epath_fields tag one [] = found_tag (some tag)
  epath_fields tag one (path ∷ fields) = epath_field tag one path fields

  unfoldable pub xml_tag_epath : XmlTag → Bytes → Found
  xml_tag_epath tag [] = epath_fields tag true (split_colon [])
  xml_tag_epath tag (c ∷ epath) =
      if c == b'*'
      then epath_fields tag false (split_colon epath)
      else epath_fields tag true (split_colon (c ∷ epath))
