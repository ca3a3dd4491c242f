-- ===== src/Http/Basic.antt =====
-- The credentials of basic authentication of mbbd/http.c, written and read back.
use mbb_devel.Prelude.{ℕ, ◌≡◌, ◌≢◌, refl, ap, ◌∙◌, arith, false, Option, none, some, [], ◌∷◌, ◌++◌}
use mbb_devel.Prelude.Tests.{◌==◌}
use mbb_devel.Prelude.Text.{Bytes, codes}
use mbb_devel.Prelude.Lists.{All}
use mbb_devel.Http.{
  credentials, http_auth_basic, strip_prefix, split_colon, or_no_pass, parse_combo, http_auth_parse,
}

strip-prefix : (p s : Bytes) → strip_prefix p (p ++ s) ≡ some s
unfolding strip_prefix
strip-prefix [] s = refl
strip-prefix (c ∷ p) s = ground (arith, strip-prefix p s)

abbrev pub HasNoColon : Bytes → Type 0
HasNoColon = All (λ c. c ≢ b':')

split-name : (name : Bytes) → HasNoColon name → split_colon name ≡ (name, none)
unfolding split_colon
split-name [] h = refl
split-name (c ∷ s) (h, hs) =
    let other : (c == b':') ≡ false = ground arith in rw (other, split-name s hs) refl

split-pass :
    (name pass : Bytes) → HasNoColon name → split_colon (name ++ b':' ∷ pass) ≡ (name, some pass)
unfolding split_colon
split-pass [] pass h = refl
split-pass (c ∷ s) pass (h, hs) =
    let other : (c == b':') ≡ false = ground arith in rw (other, split-pass s pass hs) refl

combo :
    (c : ℕ) (s : Bytes) (pass : Option Bytes)
    → HasNoColon (c ∷ s)
    → parse_combo (credentials (c ∷ s) pass) ≡ some (c ∷ s, or_no_pass pass)
combo c s none h = rw (split-name (c ∷ s) h) refl
combo c s (some pass) h = rw (split-pass (c ∷ s) pass h) refl

kept_pass : (pass : Option Bytes) → pass ≢ some [] → or_no_pass pass ≡ pass
kept_pass none h = refl
kept_pass (some []) h = absurd (h refl)
kept_pass (some (c ∷ s)) h = refl

-- The header of a user, whose name is not empty and has no colon, with no password or one that is
-- not empty, is read back as the name and the password that it was made of, when the base64 code
-- of the two decodes to what was encoded.
pub http_auth_parse-http_auth_basic :
    (encode decode : Bytes → Bytes) (name : Bytes) (pass : Option Bytes)
    → decode (encode (credentials name pass)) ≡ credentials name pass
    → name ≢ []
    → HasNoColon name
    → pass ≢ some []
    → http_auth_parse decode (http_auth_basic encode name pass) ≡ some (name, pass)
unfolding http_auth_parse http_auth_basic
http_auth_parse-http_auth_basic encode decode [] pass e ne h p = absurd (ne refl)
http_auth_parse-http_auth_basic encode decode (c ∷ s) pass e ne h p =
    rw (http_auth_parse, strip-prefix (codes "Basic ") (encode (credentials (c ∷ s) pass)), e)
      (combo c s pass h ∙ ap (λ o. some (c ∷ s, o)) (kept_pass pass p))
