-- ===== src/Server/Answer.antt =====
-- The responses that Server::createResponseStatusCode, createResponseErrorPage and createResponse200
-- of srcs/Server.cpp make, and those of srcs/Server_execute*.cpp.
pub mod Sized
use ok.Base.{
  ℕ, ◌+◌, ◌-◌, ◌/◌, List, [], ◌∷◌, ◌++◌, Bool, false, ◌&&◌, ◌||◌, not, Option, none, some, leb,
  ◌==◌, if◌then◌else◌, is_empty,
}
use ok.Text.{Bytes, codes, equal}
use ok.Dict.{Dict, put}
use ok.Request.{Request}
use ok.Config.{LocationPath}
use ok.Response.{
  Response, new_response, set_headers, set_body, length_text, make_status_page, is_known,
  copy_headers,
}
use ok.Utils.Replace.{slash}
use ok.Server.Site.{Environment}

abbrev content_length : Bytes
content_length = codes "Content-Length"

-- The headers that an error page and a sent file start with.
unfoldable pub page_start : Environment → ℕ → Response
unfolding new_response set_headers
page_start env code = set_headers (codes "Content-Language") (codes "en-US") (
    set_headers (codes "Content-Type") (codes "text/html") (
      set_headers (codes "Date") env.now
        (set_headers (codes "Server") (codes "webserv") (new_response code []))))

unfoldable pub plain_start : Environment → ℕ → Response
unfolding new_response set_headers
plain_start env code =
    set_headers (codes "Date") env.now
      (set_headers (codes "Server") (codes "YKK_webserv") (new_response code []))

-- `targetUri` is read, or ./default_error.html in its place if it has no content.
unfoldable pub error_page_response : Environment → Bytes → ℕ → Response
unfolding page_start set_headers
error_page_response env target code =
    let found = env.content target in
    let body = if is_empty found then env.default_page else found in
    set_headers content_length (length_text body) (set_body body (page_start env code))

abbrev pub method_of : Option Request → Bytes
method_of none = []
method_of (some r) = r.method

-- Only solveRequest throws 301, and then there is a request.
abbrev pub redirect_target : Option Request → Bytes
redirect_target none = []
redirect_target (some r) = r.directory ++ (slash ++ (r.file_name ++ slash))

-- The headers that 401, 301 and 5xx have besides.
unfoldable pub extra_headers : Option Request → ℕ → Response → Response
unfolding set_headers
extra_headers request code response =
    let basic = codes "Basic realm=\"Access to the auth source\"" in
    let r1 =
      if code == 401 then set_headers (codes "WWW-Authenticate") basic response else response in
    let r2 =
      if code == 301 then set_headers (codes "Location") (redirect_target request) r1 else r1 in
    if leb 500 code then set_headers (codes "Retry-After") (codes "60") r2 else r2

unfoldable pub page_headers : Bytes → ℕ → Response → Response
unfolding set_headers
page_headers page code response =
    if code == 205
    then set_body [] (set_headers content_length (codes "0") response)
    else set_body page (
        set_headers content_length (length_text page)
          (set_headers (codes "Content-Type") (codes "text/html") response))

unfoldable pub plain_response : Environment → Option Request → ℕ → Response
unfolding plain_start make_status_page page_headers extra_headers
plain_response env request code =
    extra_headers request code
      (page_headers (make_status_page code (method_of request)) code (plain_start env code))

-- `mErrorPage` is used for 404 alone; a code that is not in the status map becomes 0.
unfoldable pub status_response : Environment → Bytes → Option Request → ℕ → Response
unfolding error_page_response plain_response is_known
status_response env error_page request code =
    if code == 404 && not (is_empty error_page)
    then error_page_response env error_page code
    else plain_response env request (if is_known code then code else 0)

unfoldable pub response_200 : Environment → Request → Bytes → Response
unfolding page_start set_headers
response_200 env request target =
    let body = env.content target in
    let response =
      set_headers content_length (length_text body) (set_body body (page_start env 200)) in
    if equal request.method (codes "GET")
    then set_headers (codes "Last-Modified") (env.modified_at target) response
    else response

abbrev is_hidden : Bytes → Bool
is_hidden [] = false
is_hidden (c ∷ name) = c == b'.'

unfoldable pub entry_links : Bytes → List Bytes → Bytes
entry_links url [] = []
entry_links url (name ∷ names) =
    let rest = entry_links url names in
    if is_hidden name
    then rest
    else codes "<a href=\"http://localhost:8000"
      ++ (url ++ (name ++ (codes "\">" ++ (name ++ (codes "</a><br>\n" ++ rest)))))

-- The names come from `opendir` and `readdir`; solveRequest has opened the folder before.
unfoldable pub make_autoindex_html : Environment → Bytes → Bytes
unfolding entry_links
make_autoindex_html env url =
    codes "<html>\n<head><title>Index of "
    ++ (url
        ++ (codes "</title></head><body>\n<h1>Index of "
            ++ (url
                ++ (codes "</h1><hr><pre>\n"
                    ++ (entry_links url (env.entries (env.cwd ++ url))
                        ++ codes "</pre></hr></body>\n</html>\n")))))

-- executeAutoindex
unfoldable pub autoindex_response : Environment → Bytes → Response
unfolding new_response set_headers make_autoindex_html
autoindex_response env path =
    let page = make_autoindex_html env path in
    set_headers content_length (length_text page) (
      set_headers (codes "Date") env.now (
        set_headers (codes "Connection") (codes "keep-alive") (
          set_headers (codes "Content-Type") (codes "text/html")
            (set_headers (codes "Server") (codes "webserv") (new_response 200 page)))))

-- executeHead keeps three headers of the answer to GET, and no body.
abbrev is_kept : Bytes → Bool
is_kept key = equal key (codes "Date") || (equal key (codes "Server") || equal key content_length)

unfoldable pub kept_headers : Dict → Dict
unfolding put
kept_headers [] = []
kept_headers ((key, value) ∷ m) =
    let rest = kept_headers m in if is_kept key then put key value rest else rest

unfoldable pub head_response : Response → Response
unfolding kept_headers copy_headers
head_response response = copy_headers (kept_headers response.headers) (set_body [] response)

-- executeOptions: the methods of the location, a space between them.
unfoldable pub allow_value : List Bytes → Bytes
allow_value [] = []
allow_value (x ∷ []) = x
allow_value (x ∷ y ∷ xs) = x ++ (b' ' ∷ allow_value (y ∷ xs))

unfoldable pub options_response : Environment → LocationPath → Response
unfolding new_response set_headers allow_value
options_response env location = set_headers (codes "Allow") (allow_value location.method) (
    set_headers (codes "Server") (codes "webserv")
      (set_headers (codes "Date") env.now (new_response 200 [])))
