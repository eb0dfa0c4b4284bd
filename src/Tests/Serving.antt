-- ===== src/Tests/Serving.antt =====
-- Serving a request: Server/Solve, Server/Answer and Server/Run.
use ok.Base.{[], ◌∷◌, ◌++◌, true, false, none, some, ◌≡◌, ◌↔◌, ◌⊎◌, refl, ◌==◌, if◌then◌else◌}
use ok.Text.{Bytes, codes, equal}
use ok.Config.{LocationPath, ServerBlock}
use ok.Response.{IsSized}
use ok.Config.{default_location_path, default_server_block}
use ok.Base.Int.{pos}
use ok.Config.{Listener}
use ok.Result.{done}
use ok.Request.{Request, file_uri, on_header, new_request, file_to_create}
use ok.Server.Site.{Environment, Site, regular, missing, refused, enoent, new_connection}
use ok.Server.Execute.{is_right_credentials}
use ok.Server.Execute.Credentials.{is_right_credentials_iff}
use ok.Server.Solve.{solve_at, mark_cgi, target_of}
use ok.Server.Solve.Changes.{Effect}
use ok.Server.Solve.Rights.{HasRights, solve_at-Effect}
use ok.Server.Run.{Loop, get_unuse_connection_fd}
use ok.Server.Run.Connections.{IsKeyed, get_unuse_connection_fd-none}
use ok.Response.{Response, IsSized}

-- A file system with one file.
abbrev one_file : Environment
one_file = record {
  cwd = codes "/srv";
  now = codes "now";
  stat = λ path. if equal path (codes "/srv/www/a.txt") then regular else missing enoent;
  opens = λ path. true;
  content = λ path. if equal path (codes "/srv/www/a.txt") then codes "hello" else [];
  default_page = codes "error";
  modified_at = λ path. codes "then";
  htpasswd = some (codes "dXNlcjpwYXNz\n");
  open_to_write = λ path. refused enoent;
  can_create = λ path. true;
  entries = λ path. [];
}

abbrev www : ServerBlock
www = record default_server_block {
  location_paths =
      record default_location_path { root = record { segments = codes "www" ∷ [] } } ∷ [];
}

abbrev get_a : Request
get_a = record new_request { method = codes "GET"; uri_type = file_uri; file_name = codes "a.txt" }

abbrev site : Site
site = record { connection = new_connection 5 [] 80 0; error_page = []; changes = [] }

abbrev server : Listener
server = record { port = 80; host = []; server_blocks = www ∷ [] }

abbrev www_location : LocationPath
www_location = record default_location_path { root = record { segments = codes "www" ∷ [] } }

-- An upload to a location that asks for no credentials.
abbrev put_b : Request
put_b = record new_request {
  method = codes "PUT";
  uri_type = file_to_create;
  file_name = codes "b.txt";
  body = codes "new";
}

solve_at-Effect_example :
    let result = solve_at one_file www www_location put_b site in
    (result.0.changes ≡ [])
    ⊎ (HasRights one_file www_location (mark_cgi www put_b)
        × Effect www_location
            (mark_cgi www put_b)
            (target_of one_file www_location put_b)
            []
            result)
solve_at-Effect_example = solve_at-Effect one_file www www_location put_b site

-- The last header line of a request.
abbrev almost_read : Request
almost_read = record get_a { phase = on_header }

abbrev loop : Loop
loop = record {
  socket = 3;
  port = 80;
  server_blocks = www ∷ [];
  error_page = [];
  connections = (5, new_connection 5 [] 80 0) ∷ [];
  read_fds = λ n. true;
  read_copy_fds = λ n. n == 3;
  write_fds = λ n. false;
  write_copy_fds = λ n. false;
  max_fd = 5;
  total_clients = pos 1;
}

five-IsKeyed : IsKeyed ((5, new_connection 5 [] 80 0) ∷ [])
unfolding new_connection
five-IsKeyed = (refl, tt)

-- A connection that was last used at 0 is still not found at 100.
get_unuse_connection_fd-none_example :
    get_unuse_connection_fd 100 (λ n. false) ((5, new_connection 5 [] 80 0) ∷ []) ≡ none
get_unuse_connection_fd-none_example =
    get_unuse_connection_fd-none 100 (λ n. false) ((5, new_connection 5 [] 80 0) ∷ []) five-IsKeyed

-- Credentials that are empty are accepted.
is_right_credentials_iff_example :
    (is_right_credentials one_file (codes "Basic " ++ []) ≡ done true)
    ↔ ((before after : Bytes) × (codes "dXNlcjpwYXNz\n" ≡ before ++ (([] ++ codes "\n") ++ after)))
is_right_credentials_iff_example =
    is_right_credentials_iff one_file (codes "dXNlcjpwYXNz\n") [] refl
