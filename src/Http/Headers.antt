-- ===== src/Http/Headers.antt =====
-- Setting and getting headers of responses and of requests, mbbd/http.c.
use mbb_devel.Prelude.{
  ℕ, ◌≡◌, refl, sym, ap, ◌∙◌, arith, inl, inr, Bool, true, false, some, List, [], ◌∷◌, map,
}
use mbb_devel.Prelude.Tests.{if◌then◌else◌, Bool-cases}
use mbb_devel.Prelude.Text.{Bytes, codes}
use mbb_devel.Registry.{str_equal}
use mbb_devel.Registry.Tables.{str_equal_refl, str_equal→eq}
use mbb_devel.Http.{
  HttpHeader, HttpRequest, lower, strcase_equal, replace_header, lookup_header,
  http_request_get_header, http_request_add_header,
}

-- Comparing without case is comparing the lower case.
strcase-lower : (s t : Bytes) → strcase_equal s t ≡ str_equal (map lower s) (map lower t)
unfolding strcase_equal str_equal
strcase-lower [] [] = refl
strcase-lower [] (d ∷ t) = refl
strcase-lower (c ∷ s) [] = refl
strcase-lower (c ∷ s) (d ∷ t) = rw (strcase-lower s t) refl

strcase→eq : (s t : Bytes) → strcase_equal s t ≡ true → map lower s ≡ map lower t
strcase→eq s t h = str_equal→eq (map lower s) (map lower t) (sym (strcase-lower s t) ∙ h)

-- Names that are equal without case are equal to the same names.
same_case : (s t u : Bytes) → strcase_equal s t ≡ true → strcase_equal s u ≡ strcase_equal t u
same_case s t u h =
    strcase-lower s u
    ∙ ap (λ x. str_equal x (map lower u)) (strcase→eq s t h)
    ∙ sym (strcase-lower t u)

-- Names that differ are not equal to one name.
apart_case :
    (s t u : Bytes)
    → strcase_equal s t ≡ false
    → strcase_equal s u ≡ true
    → strcase_equal t u ≡ false
apart_case s t u h k = elim (Bool-cases (strcase_equal t u)) [
  | inr e ↦ e
  | inl e ↦
      let same : strcase_equal s t ≡ true =
        strcase-lower s t
        ∙ ap (λ x. str_equal x (map lower t)) (strcase→eq s u k ∙ sym (strcase→eq t u e))
        ∙ str_equal_refl (map lower t) in
      absurd (ground (arith, same, h))
]

lookup-replace :
    (h : HttpHeader) (name : Bytes) (ht : List HttpHeader)
    → lookup_header name (replace_header h ht)
      ≡ (if strcase_equal h.name name then some h.value else lookup_header name ht)
unfolding lookup_header replace_header
lookup-replace h name [] = refl
lookup-replace h name (g ∷ ht) = elim (Bool-cases (strcase_equal g.name h.name)) [
  | inl e ↦ rw (e, same_case g.name h.name name e) (replaced (strcase_equal h.name name))
  | inr e ↦ elim (Bool-cases (strcase_equal g.name name)) [
    | inl k ↦ rw (e, k, apart_case g.name h.name name e k) refl
    | inr k ↦ rw (e, k) (lookup-replace h name ht)
  ]
]
  where
    replaced :
        (b : Bool)
        → (if b then some h.value else lookup_header name ht)
          ≡ (if b then some h.value else if b then some g.value else lookup_header name ht)
    replaced true = refl
    replaced false = refl

-- A line that is split into a name and a value is accepted; afterwards the request has the value
-- under each spelling of the name, and the headers of other names are as before.
pub get_header-add_header :
    (strsplit : Bytes → Bytes → ℕ → List Bytes) (req : HttpRequest) (line name value : Bytes)
    → strsplit line (codes ": ") 2 ≡ name ∷ value ∷ []
    → (req' : HttpRequest) × (http_request_add_header strsplit req line ≡ some req')
      × ((other : Bytes)
          → http_request_get_header req' other
            ≡ (if strcase_equal name other then some value else http_request_get_header req other))
unfolding http_request_add_header http_request_get_header
get_header-add_header strsplit req line name value e = (
  record req { ht = replace_header (record { name = name; value = value }) req.ht },
  rw (http_request_add_header, e) refl,
  λ other. lookup-replace (record { name = name; value = value }) other req.ht,
)
