-- ===== src/Server/Serve/Works.antt =====
-- Doing the work of a request leaves a connection's socket as it is.
use ok.Base.{if_holds, ◌++◌, ◌&&◌, not, Option, none, some, refl, ◌==◌, if◌then◌else◌}
use ok.Text.{Bytes, codes, equal}
use ok.Result.{Result, done, thrown, Act, and_then, modify}
use ok.Request.{Request, cgi_program, directory_uri, file_to_create, file_to_delete}
use ok.Config.{LocationPath}
use ok.FilePath.{get_path}
use ok.Server.Site.{
  Environment, Site, access, set_status, respond, enoent, is_file_path, is_dir_path,
}
use ok.Server.Answer.{response_200}
use ok.Request.{UriType}
use ok.Server.Site.{send_ready}
use ok.Server.Solve.{work_status}
use ok.Utils.Replace.{replace_all_modified, slash, double_slash}
use ok.Server.Execute.{
  execute_autoindex, execute_get, execute_head, execute_post, execute_put, execute_delete,
  execute_options, drop_slash,
}
use ok.Server.Solve.{
  check_size, solve_directory, find_index, solve_method, nothing, solve_file, solve_work, dispatch,
  target_of, relative_path,
}
use ok.Server.Serve.Sockets.{
  StaysOn, KeepsSocket, then-StaysOn, execute_get-KeepsSocket, execute_head-KeepsSocket,
  put_opened-KeepsSocket, execute_delete-KeepsSocket, check_size-KeepsSocket, with_status,
}

module _ (env : Environment) where
  solve_directory-KeepsSocket :
      (location : LocationPath) (request : Request)
      → KeepsSocket (solve_directory env location request)
  unfolding solve_directory execute_options execute_autoindex
  solve_directory-KeepsSocket location request site =
      if_holds (StaysOn site.connection.socket)
        (not (access env (target_of env location request)).0) (λ _. refl)
        (λ _.
          if_holds (StaysOn site.connection.socket) (equal request.method (codes "OPTIONS"))
            (λ _. refl)
            (λ _. by_page (
              find_index env (env.cwd ++ (get_path location.root ++ request.directory))
                location.index_pages)))
    where
      by_page :
          (o : Option Bytes)
          → StaysOn site.connection.socket (elim o as (λ _. Site × Result (Unit {0})) [
            | some page ↦
                (set_status send_ready (respond (response_200 env request page) site), done tt)
            | none ↦
                if location.auto_index
                then and_then
                    (execute_autoindex env
                      (replace_all_modified
                        (get_path location.root ++ relative_path request)
                        double_slash
                        slash)
                      site)
                    (λ _. modify (set_status send_ready))
                else (site, thrown 404)
          ])
      by_page (some page) = refl
      by_page none =
          if_holds (StaysOn site.connection.socket) location.auto_index (λ _. refl) (λ _. refl)

  solve_method-KeepsSocket :
      (location : LocationPath) (request : Request) (target : Bytes)
      (before_post : Act Site (Unit {0}))
      → KeepsSocket before_post
      → KeepsSocket (solve_method env location request target before_post)
  unfolding solve_method execute_post execute_options
  solve_method-KeepsSocket location request target before_post b site =
      let s = site.connection.socket in
      if_holds (StaysOn s) (equal request.method (codes "GET"))
        (λ _.
          with_status env s (execute_get env request target site) (work_status request)
            (execute_get-KeepsSocket env request target site))
        (λ _.
          if_holds (StaysOn s) (equal request.method (codes "HEAD"))
            (λ _.
              with_status env s (execute_head env request target site) (work_status request)
                (execute_head-KeepsSocket env request target site))
            (λ _.
              if_holds (StaysOn s) (equal request.method (codes "POST"))
                (λ _.
                  with_status env s (and_then (before_post site) (λ _. execute_post request))
                    (work_status request)
                    (then-StaysOn s (before_post site) (execute_post request) (b site) (λ t. refl)))
                (λ _.
                  if_holds (StaysOn s) (equal request.method (codes "DELETE"))
                    (λ _.
                      with_status env s (execute_delete env request target site) send_ready
                        (execute_delete-KeepsSocket env request target site))
                    (λ _.
                      if_holds (StaysOn s) (equal request.method (codes "OPTIONS")) (λ _. refl)
                        (λ _. refl)))))

  solve_file-KeepsSocket :
      (location : LocationPath) (request : Request) (target : Bytes)
      → KeepsSocket (solve_file env location request target)
  unfolding solve_file
  solve_file-KeepsSocket location request target site =
      then-StaysOn site.connection.socket (check_size location request site) _
        (check_size-KeepsSocket env location request site)
        (λ t.
          if_holds (StaysOn t.connection.socket) (access env target).0
            (λ _.
              if_holds (StaysOn t.connection.socket)
                (is_dir_path env target && not (is_file_path env target)) (λ _. refl)
                (λ _.
                  solve_method-KeepsSocket location request target (check_size location request)
                    (check_size-KeepsSocket env location request) t))
            (λ _.
              if_holds (StaysOn t.connection.socket) ((access env target).1 == enoent) (λ _. refl)
                (λ _. refl)))

  solve_work-KeepsSocket :
      (location : LocationPath) (request : Request) (target : Bytes)
      → KeepsSocket (solve_work env location request target)
  unfolding solve_work
  solve_work-KeepsSocket location request target site =
      if_holds (StaysOn site.connection.socket)
        ((access env target).0 && (is_dir_path env target && not (is_file_path env target)))
        (λ _. refl) (λ _. by_type request.uri_type)
    where
      by_type :
          (u : UriType)
          → StaysOn site.connection.socket (elim u as (λ _. Site × Result (Unit {0})) [
            | cgi_program ↦ solve_method env location request target nothing site
            | _ ↦ solve_file env location request target site
          ])
      by_type cgi_program =
          solve_method-KeepsSocket location request target nothing (λ t. refl) site
      by_type _ = solve_file-KeepsSocket location request target site

  pub dispatch-KeepsSocket :
      (location : LocationPath) (request : Request) (target : Bytes)
      → KeepsSocket (dispatch env location request target)
  unfolding dispatch execute_put
  dispatch-KeepsSocket location request target site = by_type request.uri_type
    where
      sized :
          (k : Act Site (Unit {0}))
          → KeepsSocket k
          → StaysOn site.connection.socket (and_then (check_size location request site) (λ _. k))
      sized k h =
          then-StaysOn site.connection.socket (check_size location request site) k
            (check_size-KeepsSocket env location request site) h

      by_type :
          (u : UriType)
          → StaysOn site.connection.socket (
              elim u as (λ _. Site → Site × Result (Unit {0})) [
                | file_to_create ↦ λ s.
                    and_then
                      (and_then
                        (check_size location request s)
                        (λ _. execute_put env request target))
                      (λ _. modify (set_status send_ready))
                | file_to_delete ↦ λ s.
                    and_then
                      (execute_delete env request target s)
                      (λ _. modify (set_status send_ready))
                | directory_uri ↦ λ s.
                    and_then
                      (check_size location request s)
                      (λ _. solve_directory env location request)
                | _ ↦ λ s.
                    and_then
                      (check_size location request s)
                      (λ _. solve_work env location request target)
              ]
                site)
      by_type file_to_create = with_status env site.connection.socket _ send_ready (
          sized (execute_put env request target) (
            put_opened-KeepsSocket env request (drop_slash target)
              (env.open_to_write (drop_slash target))))
      by_type file_to_delete =
          with_status env site.connection.socket (execute_delete env request target site) send_ready
            (execute_delete-KeepsSocket env request target site)
      by_type directory_uri =
          sized (solve_directory env location request)
            (solve_directory-KeepsSocket location request)
      by_type _ =
          sized (solve_work env location request target)
            (solve_work-KeepsSocket location request target)
