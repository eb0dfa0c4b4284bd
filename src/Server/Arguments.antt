-- ===== src/Server/Arguments.antt =====
-- What a program is started with: createCgiArgv and createCgiEnvp of srcs/Server.cpp.
pub mod Variables
use ok.Base.{
  ℕ, zero, suc, ◌+◌, ◌-◌, List, [], ◌∷◌, ◌++◌, map, Bool, true, false, not, Option, none, some,
  ◌&&◌, ◌==◌, if◌then◌else◌, take, drop, is_empty, length,
}
use ok.Base.Int.{ℤ, pos, negsuc}
use ok.Text.{Bytes, codes, crlf, equal, find, find_from, slice, lower, upper}
use ok.Dict.{Dict, lookup, put}
use ok.Utils.Number.{atoi, itos}
use ok.Result.{Result, done, thrown, failed, null_pointer, stuck, Act}
use ok.Request.{Request}
use ok.Response.{Response, set_headers, set_body, length_text}
use ok.Server.Site.{
  Environment, Site, Connection, Status, cgi_ready, cgi_ing, send_ready, set_status, respond,
}
use ok.Server.Answer.{status_response}

-- createCgiArgv
unfoldable pub create_cgi_argv : Connection → List Bytes
create_cgi_argv c = c.cgi_program_path ∷ c.target_uri ∷ []

-- The variables of the server's own environment; a text with no "=" is passed over.
unfoldable pub own_variables : List Bytes → Dict → Dict
unfolding find put
own_variables [] env = env
own_variables (text ∷ texts) env = own_variables texts (elim (find (b'=' ∷ []) text) [
  | none ↦ env
  | some found ↦ put (take found text) (drop (suc found) text) env
])

-- The space is searched for in the header's name.
unfoldable pub auth_variables : Request → Dict → Dict
unfolding lookup find put
auth_variables request env = elim (lookup (codes "authorization") request.headers) [
  | none ↦ env
  | some value ↦ elim (find (b' ' ∷ []) (codes "authorization")) [
    | none ↦ env
    | some found ↦ put (codes "REMOTE_USER") (drop (suc found) value) (
        put (codes "REMOTE_IDENT") (drop (suc found) value)
          (put (codes "AUTH_TYPE") (take found value) env))
  ]
]

unfoldable pub copied_variable : Bytes → Bytes → Request → Dict → Dict
unfolding lookup put
copied_variable header name request env = elim (lookup header request.headers) [
  | none ↦ env
  | some value ↦ put name value env
]

-- The rest of the fixed variables, in the order in which they are set.
unfoldable pub fixed_variables : ℕ → Connection → Request → List (Bytes × Bytes)
unfolding itos
fixed_variables port c request =
    (codes "GATEWAY_INTERFACE", codes "CGI/1.1")
    ∷ (codes "PATH_INFO", request.uri)
    ∷ (codes "PATH_TRANSLATED", c.target_uri)
    ∷ (codes "QUERY_STRING", request.query)
    ∷ (codes "REMOTE_ADDR", c.client_ip)
    ∷ (codes "REQUEST_METHOD", request.method)
    ∷ (codes "REQUEST_URI", request.uri)
    ∷ (codes "SCRIPT_NAME", request.file_name)
    ∷ (codes "SERVER_NAME", c.server_name)
    ∷ (codes "SERVER_PORT", itos (pos port))
    ∷ (codes "SERVER_PROTOCOL", codes "HTTP/1.1")
    ∷ (codes "SERVER_SOFTWARE", codes "webserv/1.0")
    ∷ []

unfoldable pub put_entries : List (Bytes × Bytes) → Dict → Dict
unfolding put
put_entries [] env = env
put_entries ((name, value) ∷ rest) env = put_entries rest (put name value env)

-- HTTP_ and the header's name in upper case, with "_" for "-".
unfoldable pub http_name : Bytes → Bytes
unfolding upper
http_name name = codes "HTTP_" ++ map (λ c. upper (if c == b'-' then b'_' else c)) name

unfoldable pub http_variables : Dict → List (Bytes × Bytes)
unfolding http_name
http_variables headers = map (λ e. (http_name e.0, e.1)) headers

unfoldable pub cgi_variables : List Bytes → ℕ → Connection → Request → Dict
unfolding own_variables auth_variables copied_variable fixed_variables put_entries http_variables
cgi_variables own port c request = put_entries (http_variables request.headers) (
    put_entries (fixed_variables port c request) (
      copied_variable (codes "content-type") (codes "CONTENT_TYPE") request (
        copied_variable (codes "content-length") (codes "CONTENT_LENGTH") request
          (auth_variables request (own_variables own [])))))

-- createCgiEnvp; the allocation does not fail.
unfoldable pub create_cgi_envp : List Bytes → ℕ → Connection → Request → List Bytes
unfolding cgi_variables
create_cgi_envp own port c request =
    map (λ e. e.0 ++ (b'=' ∷ e.1)) (cgi_variables own port c request)
