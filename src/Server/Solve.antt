-- ===== src/Server/Solve.antt =====
-- Server::solveRequest of srcs/Server.cpp: from a complete request to the response.
pub mod Changes
pub mod Checks
pub mod Rights
pub mod Effects
pub mod Answers
pub mod Files
pub mod Responds
use ok.Base.{
  suc, ◌+◌, List, [], ◌∷◌, ◌++◌, Bool, true, false, ◌&&◌, not, Option, none, some, ◌==◌,
  if◌then◌else◌, drop, any,
}
use ok.Text.{Bytes, codes, npos, equal, find, find_last}
use ok.Dict.{lookup}
use ok.Result.{done, thrown, failed, out_of_range, Act, and_then, ◌>>◌, modify}
use ok.Request.{Request, directory_uri, file_uri, file_to_create, cgi_program, file_to_delete}
use ok.Config.{LocationPath, ServerBlock}
use ok.Config.Select.{select_server_block, select_location_path}
use ok.FilePath.{FilePath, get_path}
use ok.Utils.Replace.{replace_all_modified, slash, double_slash}
use ok.Server.Site.{
  Environment, Site, Status, cgi_ready, send_ready, enoent, is_file_path, is_dir_path, access,
  set_status, respond,
}
use ok.Server.Answer.{response_200}
use ok.Server.Receive.{substr}
use ok.Server.Execute.{
  execute_autoindex, execute_get, execute_head, execute_post, execute_put, execute_delete,
  execute_options, is_valid_method, has_auth_module, is_right_credentials, is_too_large,
}

-- The server name asked for: the host header, or "localhost".
unfoldable pub wanted_name : Request → Bytes
unfolding lookup
wanted_name request = elim (lookup (codes "host") request.headers) [
  | none ↦ codes "localhost"
  | some name ↦ name
]

unfoldable pub relative_path : Request → Bytes
relative_path request = request.directory ++ (slash ++ request.file_name)

unfoldable pub target_of : Environment → LocationPath → Request → Bytes
unfolding relative_path get_path
target_of env location request = env.cwd ++ (get_path location.root ++ relative_path request)

-- The last program whose path contains what follows the first dot of the file name.
unfoldable pub find_program : Bytes → List Bytes → Bytes → Bytes
unfolding find
find_program suffix [] program = program
find_program suffix (x ∷ xs) program =
    find_program suffix xs (elim (find suffix x) [ none ↦ program | some i ↦ x ])

unfoldable pub program_of : LocationPath → Bytes → Bytes → Bytes
unfolding find find_program
program_of location file_name program = elim (find (b'.' ∷ []) file_name) [
  | none ↦ program
  | some found ↦ find_program (drop (suc found) file_name) location.cgi_program_path program
]

-- A file name that ends in one of the block's extensions makes the request one for a program.
unfoldable pub mark_cgi : ServerBlock → Request → Request
unfolding find_last equal
mark_cgi block request = elim (find_last b'.' request.file_name) [
  | none ↦ request
  | some dot ↦
      if any (λ e. equal e (drop dot request.file_name)) block.cgi_extension
      then record request { uri_type = cgi_program }
      else request
]

-- The connection and the error page are set up for the location.
unfoldable pub placed : Environment → ServerBlock → LocationPath → Request → Bytes → Site → Site
unfolding target_of program_of mark_cgi
placed env block location request page site =
    let c = site.connection in
    record site {
      error_page = page;
      connection = record c {
        request = some (mark_cgi block request);
        target_uri = target_of env location request;
        server_name = block.server_name;
        cgi_program_path = program_of location request.file_name c.cgi_program_path;
      };
    }

-- `substr(1)` takes the slash off the error page's path.
unfoldable pub set_up : Environment → ServerBlock → LocationPath → Request → Act Site (Unit {0})
unfolding placed get_path
set_up env block location request site =
    and_then (site, substr (get_path location.error_page) 1 npos)
      (λ page s. (placed env block location request page s, done tt))

abbrev pub checked : Bool → Act Site (Unit {0})
checked true site = (site, done tt)
checked false site = (site, thrown 403)

-- 405, 401 and 403.
unfoldable pub check_rights : Environment → LocationPath → Request → Act Site (Unit {0})
unfolding is_valid_method has_auth_module is_right_credentials lookup
check_rights env location request site =
    if not (is_valid_method request location)
    then (site, thrown 405)
    else if has_auth_module location
    then elim (lookup (codes "authorization") request.headers) [
      | none ↦ (site, thrown 401)
      | some given ↦ and_then (site, is_right_credentials env given) checked
    ]
    else (site, done tt)

-- 413
unfoldable pub check_size : LocationPath → Request → Act Site (Unit {0})
unfolding is_too_large
check_size location request site =
    if is_too_large location request then (site, thrown 413) else (site, done tt)

-- A program is run after executeGet, executeHead and executePost; a file is sent.
unfoldable pub work_status : Request → Status
work_status request = elim request.uri_type [ file_uri ↦ send_ready | _ ↦ cgi_ready ]

-- The index page that is there, and `none` if no page is.
unfoldable pub find_index : Environment → Bytes → List FilePath → Option Bytes
unfolding is_file_path access get_path
find_index env folder [] = none
find_index env folder (page ∷ pages) =
    let path = folder ++ (slash ++ get_path page) in
    let rest = find_index env folder pages in
    if is_file_path env path && (access env path).0 then some path else rest

unfoldable pub solve_directory : Environment → LocationPath → Request → Act Site (Unit {0})
unfolding target_of relative_path access execute_options find_index response_200 execute_autoindex
    replace_all_modified get_path
solve_directory env location request site =
    if not (access env (target_of env location request)).0
    then (site, thrown 404)
    else if equal request.method (codes "OPTIONS")
    then (execute_options env location >> modify (set_status send_ready)) site
    else elim (find_index env (env.cwd ++ (get_path location.root ++ request.directory))
        location.index_pages) [
          | some page ↦
              (set_status send_ready (respond (response_200 env request page) site), done tt)
          | none ↦
              if location.auto_index
              then (execute_autoindex env (
                      replace_all_modified (get_path location.root ++ relative_path request)
                        double_slash slash)
                    >> modify (set_status send_ready))
                  site
              else (site, thrown 404)
        ]

-- The methods of a file or a program, with what comes before executePost.
unfoldable pub solve_method :
    Environment → LocationPath → Request → Bytes → Act Site (Unit {0}) → Act Site (Unit {0})
unfolding execute_get execute_head execute_post execute_delete execute_options work_status equal
solve_method env location request target before_post site =
    if equal request.method (codes "GET")
    then (execute_get env request target >> modify (set_status (work_status request))) site
    else if equal request.method (codes "HEAD")
    then (execute_head env request target >> modify (set_status (work_status request))) site
    else if equal request.method (codes "POST")
    then (before_post >> execute_post request >> modify (set_status (work_status request))) site
    else if equal request.method (codes "DELETE")
    then (execute_delete env request target >> modify (set_status send_ready)) site
    else if equal request.method (codes "OPTIONS")
    then (execute_options env location >> modify (set_status send_ready)) site
    else (site, thrown 405)

abbrev pub nothing : Act Site (Unit {0})
nothing site = (site, done tt)

-- A path that cannot be opened is 404 only if errno says that it is not there.
unfoldable pub solve_file : Environment → LocationPath → Request → Bytes → Act Site (Unit {0})
unfolding check_size access solve_method is_dir_path is_file_path
solve_file env location request target = check_size location request >> (λ site.
    if (access env target).0
    then if is_dir_path env target && not (is_file_path env target)
      then (site, thrown 301)
      else solve_method env location request target (check_size location request) site
    else if (access env target).1 == enoent
    then (site, thrown 404)
    else (site, done tt))

unfoldable pub solve_work : Environment → LocationPath → Request → Bytes → Act Site (Unit {0})
unfolding access is_dir_path is_file_path solve_method solve_file
solve_work env location request target site =
    if (access env target).0 && (is_dir_path env target && not (is_file_path env target))
    then (site, thrown 301)
    else elim request.uri_type [
      | cgi_program ↦ solve_method env location request target nothing site
      | _ ↦ solve_file env location request target site
    ]

-- The branches on mURItype.
unfoldable pub dispatch : Environment → LocationPath → Request → Bytes → Act Site (Unit {0})
unfolding check_size execute_put execute_delete solve_directory solve_work
dispatch env location request target = elim request.uri_type [
  | file_to_create ↦
      check_size location request
      >> execute_put env request target
      >> modify (set_status send_ready)
  | file_to_delete ↦ execute_delete env request target >> modify (set_status send_ready)
  | directory_uri ↦ check_size location request >> solve_directory env location request
  | _ ↦ check_size location request >> solve_work env location request target
]

unfoldable pub solve_at : Environment → ServerBlock → LocationPath → Request → Act Site (Unit {0})
unfolding set_up mark_cgi check_rights dispatch target_of
solve_at env block location request =
    let marked = mark_cgi block request in
    set_up env block location request
    >> check_rights env location marked
    >> dispatch env location marked (target_of env location request)

-- Where a list of blocks or locations is empty, the code steps back from its beginning; the
-- configuration never leaves one empty.
unfoldable pub solve_request : Environment → List ServerBlock → Request → Act Site (Unit {0})
unfolding wanted_name relative_path select_server_block select_location_path solve_at
solve_request env blocks request site = elim (select_server_block blocks (wanted_name request)) [
  | none ↦ (site, failed out_of_range)
  | some block ↦ elim (select_location_path block.location_paths (relative_path request)) [
    | none ↦ (site, failed out_of_range)
    | some location ↦ solve_at env block location request site
  ]
]
