-- ===== src/Server/Execute.antt =====
-- The execute methods of srcs/Server_execute*.cpp, and the tests of srcs/Server.cpp that
-- solveRequest makes before it calls one of them.
pub mod Credentials
use ok.Base.{
  suc, ◌+◌, ◌-◌, ◌/◌, [], ◌∷◌, ◌++◌, Bool, true, false, ◌&&◌, not, Option, none, some, ltb, ◌==◌,
  if◌then◌else◌, take, drop, any, length,
}
use ok.Text.{Bytes, codes, equal, find}
use ok.Result.{Result, done, thrown, failed, Act, ◌>>◌, modify}
use ok.Request.{Request}
use ok.Config.{LocationPath}
use ok.FilePath.{get_size}
use ok.Response.{Response, new_response, set_headers, length_text}
use ok.Result.{null_pointer}
use ok.Utils.Replace.{replace_all_modified, slash, double_slash}
use ok.Server.Site.{
  Environment, Site, send_ready, Opened, opened, refused, wrote, removed, enoent, eisdir,
  is_file_path, is_dir_path, access, set_status, respond, change,
}
use ok.Server.Answer.{response_200, autoindex_response, head_response, options_response}

unfoldable pub execute_autoindex : Environment → Bytes → Act Site (Unit {0})
unfolding autoindex_response
execute_autoindex env path =
    modify (λ site. set_status send_ready (respond (autoindex_response env path) site))

unfoldable pub execute_get : Environment → Request → Bytes → Act Site (Unit {0})
unfolding access response_200
execute_get env request target site =
    if (access env target).0
    then (respond (response_200 env request target) site, done tt)
    else (site, thrown 404)

abbrev pub beheaded : Option Response → Site → Site × Result (Unit {0})
beheaded none site = (site, failed null_pointer)
beheaded (some response) site = (respond (head_response response) site, done tt)

unfoldable pub execute_head : Environment → Request → Bytes → Act Site (Unit {0})
unfolding execute_get head_response
execute_head env request target =
    execute_get env request target >> (λ site. beheaded site.connection.response site)

unfoldable pub execute_post : Request → Act Site (Unit {0})
unfolding new_response
execute_post request = modify (respond (new_response 200 request.body))

-- `if (back() == '/') pop_back()`
unfoldable pub drop_slash : Bytes → Bytes
drop_slash [] = []
drop_slash (c ∷ []) = if c == b'/' then [] else c ∷ []
drop_slash (c ∷ d ∷ s) = c ∷ drop_slash (d ∷ s)

-- The headers at the end of executePut; without a response there is no object to set them on.
unfoldable pub put_headers : Environment → Bool → Option Response → Act Site (Unit {0})
unfolding set_headers
put_headers env clear none site = (site, failed null_pointer)
put_headers env clear (some response) site =
    let dated =
      set_headers (codes "Server") (codes "webserv")
        (set_headers (codes "Date") env.now response) in
    let sized = set_headers (codes "Content-Language") (codes "en-US") (
      set_headers (codes "Content-Type") (codes "text/html")
        (set_headers (codes "Content-Length") (length_text dated.body) dated)) in
    (respond (if clear then sized else dated) site, done tt)

unfoldable pub created_response : Request → Bytes → Response
unfolding new_response set_headers replace_all_modified
created_response request target =
    set_headers (codes "Content-Location") (replace_all_modified target double_slash slash)
      (new_response 201 request.body)

-- The two calls of open, and `write`. An open that fails sets errno and the next one leaves it, so
-- that the headers under `errno == 0` are only set on a file that was there, and Location never is.
unfoldable pub put_opened : Environment → Request → Bytes → Opened → Act Site (Unit {0})
unfolding new_response created_response put_headers
put_opened env request target opened site =
    put_headers env true (some (new_response 200 request.body))
      (change (wrote target request.body) site)
put_opened env request target (refused errno) site =
    if errno == eisdir
    then put_headers env false (some (new_response 204 [])) site
    else if errno == enoent
    then put_headers env false (some (created_response request site.connection.target_uri))
        (if env.can_create target then change (wrote target request.body) site else site)
    else put_headers env false site.connection.response site

unfoldable pub execute_put : Environment → Request → Bytes → Act Site (Unit {0})
unfolding drop_slash put_opened
execute_put env request given =
    put_opened env request (drop_slash given) (env.open_to_write (drop_slash given))

unfoldable pub execute_delete : Environment → Request → Bytes → Act Site (Unit {0})
unfolding access is_file_path is_dir_path response_200 new_response
execute_delete env request target site =
    let gone = respond (new_response 204 []) site in
    if (access env target).0
    then if is_file_path env target
      then (change (removed target) (respond (response_200 env request target) site), done tt)
      else if is_dir_path env target
      then (gone, done tt)
      else (site, done tt)
    else (gone, done tt)

unfoldable pub execute_options : Environment → LocationPath → Act Site (Unit {0})
unfolding options_response
execute_options env location = modify (respond (options_response env location))

unfoldable pub is_valid_method : Request → LocationPath → Bool
unfolding equal
is_valid_method request location = any (equal request.method) location.method

unfoldable pub has_auth_module : LocationPath → Bool
unfolding get_size
has_auth_module location = not (get_size location.auth_basic_user_file == 0)

unfoldable pub found_in : Bytes → Bytes → Bool
unfolding find
found_in pattern text = elim (find pattern text) [ none ↦ false | some i ↦ true ]

-- The credentials are base64 text, which is looked up in .htpasswd with a line end behind it.
unfoldable pub is_right_credentials : Environment → Bytes → Result Bool
unfolding equal find found_in
is_right_credentials env authorization = elim (find (b' ' ∷ []) authorization) [
  | none ↦ done false
  | some found ↦
      let credentials = drop (suc found) authorization ++ codes "\n" in
      if not (equal (take found authorization) (codes "Basic"))
      then done false
      else elim env.htpasswd [ none ↦ thrown 500 | some text ↦ done (found_in credentials text) ]
]

-- `mClientMaxBodySize`, where 0 is no limit.
unfoldable pub is_too_large : LocationPath → Request → Bool
is_too_large location request =
    ltb location.client_max_body_size (length request.body)
    && not (location.client_max_body_size == 0)
