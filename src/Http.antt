-- ===== src/Http.antt =====
-- mbbd/http.c and http.h: headers, responses and requests of the hypertext protocol. GLib's
-- splitting of a text at a separator (into at most a count of parts, 0 for no limit) and the
-- base64 code are parameters. Freeing is left out, and with it the trash of a response.
pub mod Headers
pub mod Basic
mod Tests
use mbb_devel.Prelude.{
  ℕ, ◌+◌, ◌-◌, Bool, true, false, Option, none, some, List, [], ◌∷◌, ◌++◌, ◌&&◌, ◌||◌, not,
}
use mbb_devel.Prelude.Tests.{leb, ◌==◌, if◌then◌else◌}
use mbb_devel.Prelude.Text.{Bytes, codes, decimal}
use mbb_devel.Prelude.Options.{◌>>=◌}
use mbb_devel.Registry.{str_equal}

-- HTTP_STATUS_OK.
abbrev pub http_status_ok : ℕ
http_status_ok = 200

-- `http_method_t`.
pub data HttpMethod : Type 0 where
  http_method_get : HttpMethod
  http_method_post : HttpMethod

-- `struct http_header`.
pub record HttpHeader : Type 0 where
  pub name : Bytes
  pub value : Bytes

-- `struct http_response`; NULL is `none`.
pub record HttpResponse : Type 0 where
  pub status : ℕ
  pub reason : Option Bytes
  pub body : Option Bytes
  pub headers : List HttpHeader

abbrev pub crlf : Bytes
crlf = codes "\r\n"

abbrev pub or_ok : ℕ → Option Bytes → Option Bytes
or_ok status none = if status == http_status_ok then some (codes "OK") else none
or_ok status (some reason) = some reason

unfoldable pub http_response_new : ℕ → Option Bytes → HttpResponse
http_response_new status reason = record {
  status = status;
  reason = or_ok status reason;
  body = none;
  headers = [];
}

unfoldable pub http_header_new : Bytes → Bytes → HttpHeader
http_header_new name value = record { name = name; value = value }

unfoldable pub headers_get_header : List HttpHeader → Bytes → Option HttpHeader
headers_get_header [] name = none
headers_get_header (h ∷ queue) name =
    let rest = headers_get_header queue name in if str_equal h.name name then some h else rest

-- `header->value = value` in the header that `headers_get_header` finds.
unfoldable pub set_found : List HttpHeader → Bytes → Bytes → List HttpHeader
set_found [] name value = []
set_found (h ∷ queue) name value =
    let rest = set_found queue name value in
    if str_equal h.name name then record h { value = value } ∷ queue else h ∷ rest

-- The queue after the call, and TRUE for a header that was there.
unfoldable pub headers_set_header : List HttpHeader → Bytes → Bytes → List HttpHeader × Bool
headers_set_header queue name value = elim (headers_get_header queue name) [
  | some h ↦ (set_found queue name value, true)
  | none ↦ (queue ++ http_header_new name value ∷ [], false)
]

unfoldable pub http_response_get_header : HttpResponse → Bytes → Option Bytes
http_response_get_header resp name = elim (headers_get_header resp.headers name) [
  | none ↦ none
  | some h ↦ some h.value
]

unfoldable pub http_response_set_header : HttpResponse → Bytes → Bytes → HttpResponse × Bool
http_response_set_header resp name value =
    let r = headers_set_header resp.headers name value in (record resp { headers = r.0 }, r.1)

unfoldable pub http_response_add_header : HttpResponse → Bytes → Bytes → HttpResponse
http_response_add_header resp name value = record resp {
  headers = resp.headers ++ http_header_new name value ∷ [];
}

-- The loop of `http_response_to_string`.
unfoldable pub header_lines : List HttpHeader → Bytes
header_lines [] = []
header_lines (h ∷ queue) = h.name ++ codes ": " ++ h.value ++ crlf ++ header_lines queue

abbrev pub or_number : ℕ → Option Bytes → Bytes
or_number status none = decimal status
or_number status (some reason) = reason

abbrev pub or_empty : Option Bytes → Bytes
or_empty none = []
or_empty (some body) = body

unfoldable pub http_response_to_string : HttpResponse → Bytes
http_response_to_string resp =
    codes "HTTP/1.0"
    ++ codes " "
    ++ decimal resp.status
    ++ codes " "
    ++ or_number resp.status resp.reason
    ++ crlf
    ++ header_lines resp.headers
    ++ crlf
    ++ or_empty resp.body

-- The lower case that `strcasecmp` compares by.
abbrev pub lower : ℕ → ℕ
lower c = if leb b'A' c && leb c b'Z' then c + 32 else c

-- `strcasecmp` is 0.
unfoldable pub strcase_equal : Bytes → Bytes → Bool
strcase_equal [] [] = true
strcase_equal [] (d ∷ t) = false
strcase_equal (c ∷ s) [] = false
strcase_equal (c ∷ s) (d ∷ t) = (lower c == lower d) && strcase_equal s t

-- `struct http_request`; its hash table of headers, by names without regard to case.
-- A search compares names by `g_strcase_equal`; the hash `g_strcase_hash`, which is that of the name
-- in lower case, is left out.
pub record HttpRequest : Type 0 where
  pub method : HttpMethod
  pub url : Bytes
  pub body : Option Bytes
  pub ht : List HttpHeader

-- `g_hash_table_replace`.
unfoldable pub replace_header : HttpHeader → List HttpHeader → List HttpHeader
replace_header h [] = h ∷ []
replace_header h (g ∷ ht) =
    let rest = replace_header h ht in if strcase_equal g.name h.name then h ∷ ht else g ∷ rest

unfoldable pub lookup_header : Bytes → List HttpHeader → Option Bytes
lookup_header name [] = none
lookup_header name (g ∷ ht) =
    let rest = lookup_header name ht in if strcase_equal g.name name then some g.value else rest

unfoldable pub http_request_get_header : HttpRequest → Bytes → Option Bytes
http_request_get_header req name = lookup_header name req.ht

module _ (strsplit : Bytes → Bytes → ℕ → List Bytes) where
  -- From the parts of the request line: the method and the text of the address.
  abbrev pub request_parts : List Bytes → Option (HttpMethod × Bytes)
  request_parts (verb ∷ url ∷ rest) =
      if str_equal verb (codes "POST")
      then some (http_method_post, url)
      else if str_equal verb (codes "GET")
      then some (http_method_get, url)
      else none
  request_parts _ = none

  -- NULL is `none`.
  unfoldable pub http_request_get_url : Bytes → Option (HttpMethod × Bytes)
  http_request_get_url request = request_parts (strsplit request (codes " ") 0)

  unfoldable pub http_request_new : Bytes → Option HttpRequest
  http_request_new request = do
    (meth, url) ← http_request_get_url request
    some (record { method = meth; url = url; body = none; ht = [] })

  -- From the parts of a line; FALSE is `none`.
  abbrev pub add_parts : HttpRequest → List Bytes → Option HttpRequest
  add_parts req (name ∷ value ∷ []) =
      some (record req { ht = replace_header (record { name = name; value = value }) req.ht })
  add_parts req _ = none

  unfoldable pub http_request_add_header : HttpRequest → Bytes → Option HttpRequest
  http_request_add_header req line = add_parts req (strsplit line (codes ": ") 2)

-- `name`, or `name:pass`.
abbrev pub credentials : Bytes → Option Bytes → Bytes
credentials name none = name
credentials name (some pass) = name ++ b':' ∷ pass

unfoldable pub http_auth_basic : (Bytes → Bytes) → Bytes → Option Bytes → Bytes
http_auth_basic encode name pass = codes "Basic " ++ encode (credentials name pass)

-- `data` without the prefix, where it begins with it.
unfoldable pub strip_prefix : Bytes → Bytes → Option Bytes
strip_prefix [] s = some s
strip_prefix (c ∷ p) [] = none
strip_prefix (c ∷ p) (d ∷ s) = let rest = strip_prefix p s in if c == d then rest else none

-- `strchr`: the text before the first colon, and what is behind it.
unfoldable pub split_colon : Bytes → Bytes × Option Bytes
split_colon [] = ([], none)
split_colon (c ∷ s) = let r = split_colon s in if c == b':' then ([], some s) else (c ∷ r.0, r.1)

-- An empty password is none.
abbrev pub or_no_pass : Option Bytes → Option Bytes
or_no_pass none = none
or_no_pass (some []) = none
or_no_pass (some (c ∷ s)) = some (c ∷ s)

-- From the text before the colon, if there is one.
abbrev pub user_pass : Bytes × Option Bytes → Option (Bytes × Option Bytes)
user_pass ([], some pass) = none
user_pass (user, rest) = some (user, or_no_pass rest)

-- `combo_len == 0` comes first.
abbrev pub parse_combo : Bytes → Option (Bytes × Option Bytes)
parse_combo [] = none
parse_combo (c ∷ s) = user_pass (split_colon (c ∷ s))

-- The user and the password. The source looks for the colon and copies the password with functions
-- on texts with a NUL at the end, which `g_base64_decode` does not promise to put behind its bytes;
-- `decode` gives the bytes up to the NUL that the source finds.
unfoldable pub http_auth_parse : (Bytes → Bytes) → Bytes → Option (Bytes × Option Bytes)
http_auth_parse decode text = do
  rest ← strip_prefix (codes "Basic ") text
  parse_combo (decode rest)
