-- ===== src/Server/Serve/Requests.antt =====
-- Reading a request, answering it and running a program leave a connection's socket as it is.
use ok.Base.{if_holds, ℕ, List, Bool, true, false, not, Option, none, some, ◌≡◌, refl}
use ok.Text.{Bytes, codes}
use ok.Result.{Result, done, thrown, failed, Act, and_then}
use ok.Request.{Request, cgi_program, complete}
use ok.Config.{LocationPath, ServerBlock}
use ok.FilePath.{get_path}
use ok.Config.Select.{select_server_block, select_location_path}
use ok.Server.Receive.{substr, Input, recv_request}
use ok.Server.Site.{Environment, Site, set_status}
use ok.Request.{UriType}
use ok.Server.Site.{send_ready}
use ok.Server.Solve.{placed}
use ok.Dict.{lookup}
use ok.Text.{npos}
use ok.Request.{Phase}
use ok.Result.{out_of_range}
use ok.Server.Execute.{is_valid_method, has_auth_module, is_right_credentials}
use ok.Server.Solve.{
  set_up, check_rights, checked, dispatch, solve_at, solve_request, mark_cgi, target_of,
  wanted_name, relative_path,
}
use ok.Server.Run.{caught, solve_complete, with_request, received, run_recv_and_solve, run_execute}
use ok.Server.Serve.Sockets.{StaysOn, KeepsSocket, then-StaysOn}
use ok.Server.Serve.Works.{dispatch-KeepsSocket}

module _ (env : Environment) where
  check_rights-KeepsSocket :
      (location : LocationPath) (request : Request)
      → KeepsSocket (check_rights env location request)
  unfolding check_rights
  check_rights-KeepsSocket location request site =
      if_holds (StaysOn site.connection.socket) (not (is_valid_method request location)) (λ _. refl)
        (λ _.
          if_holds (StaysOn site.connection.socket) (has_auth_module location)
            (λ _. given (lookup (codes "authorization") request.headers)) (λ _. refl))
    where
      answered : (m : Result Bool) → StaysOn site.connection.socket (and_then (site, m) checked)
      answered (done true) = refl
      answered (done false) = refl
      answered (thrown n) = refl
      answered (failed f) = refl

      given :
          (o : Option Bytes)
          → StaysOn site.connection.socket (elim o as (λ _. Site × Result (Unit {0})) [
            | none ↦ (site, thrown 401)
            | some given ↦ and_then (site, is_right_credentials env given) checked
          ])
      given none = refl
      given (some v) = answered (is_right_credentials env v)

  set_up-KeepsSocket :
      (block : ServerBlock) (location : LocationPath) (request : Request)
      → KeepsSocket (set_up env block location request)
  unfolding set_up placed
  set_up-KeepsSocket block location request site = go (substr (get_path location.error_page) 1 npos)
    where
      go :
          (m : Result Bytes)
          → StaysOn site.connection.socket
              (and_then (site, m) (λ page s. (placed env block location request page s, done tt)))
      go (done page) = refl
      go (thrown n) = refl
      go (failed f) = refl

  solve_at-KeepsSocket :
      (block : ServerBlock) (location : LocationPath) (request : Request)
      → KeepsSocket (solve_at env block location request)
  unfolding solve_at
  solve_at-KeepsSocket block location request site =
      let marked = mark_cgi block request in
      let s = site.connection.socket in
      then-StaysOn s
        (and_then (set_up env block location request site) (λ _. check_rights env location marked))
        (dispatch env location marked (target_of env location request))
        (then-StaysOn s (set_up env block location request site) (check_rights env location marked)
          (set_up-KeepsSocket block location request site)
          (check_rights-KeepsSocket location marked))
        (dispatch-KeepsSocket env location marked (target_of env location request))

  pub solve_request-KeepsSocket :
      (blocks : List ServerBlock) (request : Request)
      → KeepsSocket (solve_request env blocks request)
  unfolding solve_request
  solve_request-KeepsSocket blocks request site =
      by_block (select_server_block blocks (wanted_name request))
    where
      by_location :
          (block : ServerBlock) (o : Option LocationPath)
          → StaysOn site.connection.socket (elim o as (λ _. Site × Result (Unit {0})) [
            | none ↦ (site, failed out_of_range)
            | some location ↦ solve_at env block location request site
          ])
      by_location block none = refl
      by_location block (some l) = solve_at-KeepsSocket block l request site

      by_block :
          (o : Option ServerBlock)
          → StaysOn site.connection.socket (elim o as (λ _. Site × Result (Unit {0})) [
            | none ↦ (site, failed out_of_range)
            | some block ↦
                elim (select_location_path block.location_paths (relative_path request)) [
                  | none ↦ (site, failed out_of_range)
                  | some location ↦ solve_at env block location request site
                ]
          ])
      by_block none = refl
      by_block (some b) =
          by_location b (select_location_path b.location_paths (relative_path request))

  caught-socket :
      (s : ℕ) (m : Site × Result (Unit {0})) → StaysOn s m → (caught env m).connection.socket ≡ s
  unfolding caught
  caught-socket s (site, done a) h = h
  caught-socket s (site, thrown n) h = h
  caught-socket s (site, failed f) h = h

  solve_complete-socket :
      (blocks : List ServerBlock) (r : Request) (site : Site)
      → (solve_complete env blocks r site).connection.socket ≡ site.connection.socket
  unfolding solve_complete
  solve_complete-socket blocks r site = by_phase r.phase
    where
      by_phase :
          (p : Phase)
          → (elim p as (λ _. Site) [
            | complete ↦ caught env (solve_request env blocks r site)
            | _ ↦ site
          ]).connection.socket
            ≡ site.connection.socket
      by_phase complete =
          caught-socket site.connection.socket (solve_request env blocks r site)
            (solve_request-KeepsSocket blocks r site)
      by_phase _ = refl

  -- Neither reading from a connection nor running its program changes its socket.
  pub run_recv_and_solve-KeepsSocket :
      (input : Input) (blocks : List ServerBlock) (r : Request)
      → KeepsSocket (run_recv_and_solve env input blocks r)
  unfolding run_recv_and_solve
  run_recv_and_solve-KeepsSocket input blocks r site = go (recv_request input r)
    where
      go : (m : Request × Result Bool) → StaysOn site.connection.socket (received env blocks site m)
      go (r, done b) = solve_complete-socket blocks r (with_request r site)
      go (r, thrown n) = caught-socket site.connection.socket (with_request r site, thrown n) refl
      go (r, failed f) = refl

  pub run_execute-socket :
      (act : Act Site (Unit {0})) (r : Request) (site : Site)
      → KeepsSocket act
      → (run_execute env act r site).connection.socket ≡ site.connection.socket
  unfolding run_execute
  run_execute-socket act r site h = by_type r.uri_type
    where
      by_type :
          (u : UriType)
          → (elim u as (λ _. Site) [
            | cgi_program ↦ caught env (act site)
            | _ ↦ set_status send_ready site
          ]).connection.socket
            ≡ site.connection.socket
      by_type cgi_program = caught-socket site.connection.socket (act site) (h site)
      by_type _ = refl
