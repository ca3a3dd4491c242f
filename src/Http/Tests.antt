-- ===== src/Http/Tests.antt =====
-- Credentials under a code that changes nothing, and a header that replaces one.
use mbb_devel.Prelude.{ℕ, ◌≡◌, refl, arith, none, some, List, [], ◌∷◌}
use mbb_devel.Prelude.Text.{Bytes, codes}
use mbb_devel.Prelude.Tests.{if◌then◌else◌}
use mbb_devel.Http.{
  HttpRequest, http_method_get, strcase_equal, http_auth_basic, http_auth_parse,
  http_request_add_header, http_request_get_header,
}
use mbb_devel.Http.Basic.{http_auth_parse-http_auth_basic}
use mbb_devel.Http.Headers.{get_header-add_header}

abbrev same : Bytes → Bytes
same s = s

http_auth_parse-http_auth_basic_example :
    http_auth_parse same (http_auth_basic same (codes "ann") (some (codes "a:b")))
    ≡ some (codes "ann", some (codes "a:b"))
http_auth_parse-http_auth_basic_example =
    http_auth_parse-http_auth_basic same same (codes "ann") (some (codes "a:b")) refl (λ e. cc)
      ((λ e. omega arith), ((λ e. omega arith), ((λ e. omega arith), tt))) (λ e. cc)

abbrev one_header : HttpRequest
one_header = record {
  method = http_method_get;
  url = codes "/";
  body = none;
  ht = record { name = codes "host"; value = codes "a" } ∷ [];
}

-- The parts of one line.
abbrev split : Bytes → Bytes → ℕ → List Bytes
split s sep n = codes "Host" ∷ codes "b" ∷ []

get_header-add_header_example :
    (req' : HttpRequest) × (http_request_add_header split one_header (codes "Host: b") ≡ some req')
    × ((other : Bytes)
        → http_request_get_header req' other ≡ (
            if strcase_equal (codes "Host") other
            then some (codes "b")
            else http_request_get_header one_header other))
get_header-add_header_example =
    get_header-add_header split one_header (codes "Host: b") (codes "Host") (codes "b") refl
