-- ===== src/Server/Arguments/Variables.antt =====
-- The variables that a program is started with.
use ok.Base.{
  ℕ, List, [], ◌∷◌, ◌++◌, map, Bool, false, ◌&&◌, Option, some, ◌≡◌, refl, ap, ◌∙◌, ◌==◌,
  if◌then◌else◌, All,
}
use ok.Text.{Bytes, codes, equal}
use ok.Text.{upper}
use ok.Dict.{Dict, lookup, put, lookup-put}
use ok.Request.{Request}
use ok.Server.Site.{Connection}
use ok.Server.Arguments.{
  own_variables, auth_variables, copied_variable, fixed_variables, put_entries, http_name,
  http_variables, cgi_variables,
}

-- The value of the last entry with a name, or what was there before.
abbrev latest : Bytes → List (Bytes × Bytes) → Option Bytes → Option Bytes
latest j [] o = o
latest j ((name, value) ∷ rest) o = latest j rest (if equal name j then some value else o)

lookup-put_entries :
    (j : Bytes) (es : List (Bytes × Bytes)) (env : Dict)
    → lookup j (put_entries es env) ≡ latest j es (lookup j env)
unfolding put_entries
lookup-put_entries j [] env = refl
lookup-put_entries j ((name, value) ∷ rest) env =
    lookup-put_entries j rest (put name value env)
    ∙ ap (latest j rest) (lookup-put name j value env)

-- A name that does not begin with "H" is not one of a header's variable.
latest-http :
    (c : ℕ) (j : Bytes) (headers : Dict) (o : Option Bytes)
    → (b'H' == c) ≡ false
    → latest (c ∷ j) (http_variables headers) o ≡ o
unfolding http_variables http_name equal
latest-http c j [] o h = refl
latest-http c j ((name, value) ∷ headers) o h =
    ap (latest (c ∷ j) (http_variables headers)) (
      ap
        (λ (v : Bool).
          if v && equal (codes "TTP_" ++ map (λ c. upper (if c == b'-' then b'_' else c)) name) j
          then some value
          else o)
        h)
    ∙ latest-http c j headers o h

module _ (own : List Bytes) (port : ℕ) (c : Connection) (request : Request) where
  variable :
      (n : ℕ) (j value : Bytes)
      → (b'H' == n) ≡ false
      → ((o : Option Bytes) → latest (n ∷ j) (fixed_variables port c request) o ≡ some value)
      → lookup (n ∷ j) (cgi_variables own port c request) ≡ some value
  unfolding cgi_variables
  variable n j value h k =
      let env = copied_variable (codes "content-type") (codes "CONTENT_TYPE") request (
        copied_variable (codes "content-length") (codes "CONTENT_LENGTH") request
          (auth_variables request (own_variables own []))) in
      let fixed = put_entries (fixed_variables port c request) env in
      lookup-put_entries (n ∷ j) (http_variables request.headers) fixed
      ∙ latest-http n j request.headers (lookup (n ∷ j) fixed) h
      ∙ lookup-put_entries (n ∷ j) (fixed_variables port c request) env
      ∙ k (lookup (n ∷ j) env)

-- Every variable of the fixed list has its value when the program is started, whatever the
-- server's own environment and the headers of the request say.
pub cgi_variables-fixed :
    (own : List Bytes) (port : ℕ) (c : Connection) (request : Request)
    → All
        (λ e. lookup e.0 (cgi_variables own port c request) ≡ some e.1)
        (fixed_variables port c request)
unfolding fixed_variables equal
cgi_variables-fixed own port c request = (
  variable own port c request b'G' (codes "ATEWAY_INTERFACE") _ refl (λ o. refl),
  (
    variable own port c request b'P' (codes "ATH_INFO") _ refl (λ o. refl),
    (
      variable own port c request b'P' (codes "ATH_TRANSLATED") _ refl (λ o. refl),
      (
        variable own port c request b'Q' (codes "UERY_STRING") _ refl (λ o. refl),
        (
          variable own port c request b'R' (codes "EMOTE_ADDR") _ refl (λ o. refl),
          (
            variable own port c request b'R' (codes "EQUEST_METHOD") _ refl (λ o. refl),
            (
              variable own port c request b'R' (codes "EQUEST_URI") _ refl (λ o. refl),
              (
                variable own port c request b'S' (codes "CRIPT_NAME") _ refl (λ o. refl),
                (
                  variable own port c request b'S' (codes "ERVER_NAME") _ refl (λ o. refl),
                  (
                    variable own port c request b'S' (codes "ERVER_PORT") _ refl (λ o. refl),
                    (
                      variable own port c request b'S' (codes "ERVER_PROTOCOL") _ refl (λ o. refl),
                      (
                        variable own port c request b'S' (codes "ERVER_SOFTWARE") _ refl
                            (λ o. refl),
                        tt,
                      ),
                    ),
                  ),
                ),
              ),
            ),
          ),
        ),
      ),
    ),
  ),
)
