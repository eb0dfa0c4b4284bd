-- ===== src/Server/Solve/Effects.antt =====
-- Which files solveRequest changes, and for whom.
use ok.Base.{
  if_holds, ◌++◌, ◌&&◌, not, Option, none, some, ◌≡◌, inl, inr, refl, ◌==◌, if◌then◌else◌,
}
use ok.Text.{Bytes, codes, equal}
use ok.Result.{done, thrown, Act, and_then, ◌>>◌, modify}
use ok.Request.{
  Request, UriType, directory_uri, file_uri, file_to_create, cgi_program, file_to_delete,
}
use ok.Config.{LocationPath}
use ok.FilePath.{get_path}
use ok.Utils.Replace.{replace_all_modified, slash, double_slash}
use ok.Server.Site.{
  Environment, Site, send_ready, enoent, is_file_path, is_dir_path, access, set_status, respond,
}
use ok.Server.Answer.{response_200}
use ok.Server.Execute.{
  execute_autoindex, execute_get, execute_head, execute_post, execute_put, execute_delete,
  execute_options, drop_slash,
}
use ok.Server.Solve.{
  target_of, check_size, work_status, find_index, solve_directory, solve_method, solve_file,
  solve_work, dispatch, relative_path,
}
use ok.Server.Solve.{nothing}
use ok.Server.Solve.Changes.{
  Effect, Quiet, then-Quiet, execute_get-Quiet, execute_head-Quiet, check_size-Quiet,
  with_status-Effect, after_size, execute_delete-Effect, put_opened-Effect,
}

module _ (env : Environment) (location : LocationPath) (request : Request) (target : Bytes) where
  solve_method-Effect :
      (before_post : Act Site (Unit {0})) (site : Site)
      → ((s : Site) → Quiet s.changes (before_post s))
      → Effect location request target site.changes
          (solve_method env location request target before_post site)
  unfolding solve_method execute_post execute_options
  solve_method-Effect before_post site h =
      let E = Effect location request target site.changes in
      let status = with_status-Effect env location request target site.changes in
      if_holds E (equal request.method (codes "GET"))
        (λ _.
          status (execute_get env request target site) (work_status request)
            (inl (execute_get-Quiet env request target site)))
        (λ _.
          if_holds E (equal request.method (codes "HEAD"))
            (λ _.
              status (execute_head env request target site) (work_status request)
                (inl (execute_head-Quiet env request target site)))
            (λ _.
              if_holds E (equal request.method (codes "POST"))
                (λ _.
                  status (and_then (before_post site) (λ _. execute_post request))
                    (work_status request)
                    (inl (
                      then-Quiet site.changes (before_post site) (execute_post request) (h site)
                        (λ s. refl))))
                (λ _.
                  if_holds E (equal request.method (codes "DELETE"))
                    (λ e.
                      status (execute_delete env request target site) send_ready
                        (execute_delete-Effect env location request target site (inr e)))
                    (λ _.
                      if_holds E (equal request.method (codes "OPTIONS")) (λ _. inl refl)
                        (λ _. inl refl)))))

  solve_directory-Quiet :
      (site : Site) → Quiet site.changes (solve_directory env location request site)
  unfolding solve_directory execute_options execute_autoindex
  solve_directory-Quiet site =
      if_holds (Quiet site.changes) (not (access env (target_of env location request)).0)
        (λ _. refl)
        (λ _.
          if_holds (Quiet site.changes) (equal request.method (codes "OPTIONS")) (λ _. refl)
            (λ _. index (
              find_index env (env.cwd ++ (get_path location.root ++ request.directory))
                location.index_pages)))
    where
      index :
          (page : Option Bytes)
          → Quiet site.changes (elim page [
            | some p ↦ (set_status send_ready (respond (response_200 env request p) site), done tt)
            | none ↦
                if location.auto_index
                then (execute_autoindex env (
                        replace_all_modified
                          (get_path location.root ++ relative_path request)
                          double_slash
                          slash)
                      >> modify (set_status send_ready))
                    site
                else (site, thrown 404)
          ])
      index (some p) = refl
      index none = if_holds (Quiet site.changes) location.auto_index (λ _. refl) (λ _. refl)

  solve_file-Effect :
      (site : Site)
      → Effect location request target site.changes (solve_file env location request target site)
  unfolding solve_file
  solve_file-Effect site = after_size env location request target site _ (λ _.
      if_holds (Effect location request target site.changes) (access env target).0
        (λ _.
          if_holds (Effect location request target site.changes)
            (is_dir_path env target && not (is_file_path env target)) (λ _. inl refl)
            (λ _.
              solve_method-Effect (check_size location request) site
                (check_size-Quiet location request)))
        (λ _.
          if_holds (Effect location request target site.changes) ((access env target).1 == enoent)
            (λ _. inl refl) (λ _. inl refl)))

  solve_work-Effect :
      (site : Site)
      → Effect location request target site.changes (solve_work env location request target site)
  unfolding solve_work
  solve_work-Effect site =
      if_holds (Effect location request target site.changes)
        ((access env target).0 && (is_dir_path env target && not (is_file_path env target)))
        (λ _. inl refl) (λ _. by_type request.uri_type)
    where
      by_type :
          (t : UriType)
          → Effect location request target site.changes (elim t [
            | cgi_program ↦ solve_method env location request target nothing site
            | _ ↦ solve_file env location request target site
          ])
      by_type cgi_program = solve_method-Effect nothing site (λ s. refl)
      by_type file_uri = solve_file-Effect site
      by_type directory_uri = solve_file-Effect site
      by_type file_to_create = solve_file-Effect site
      by_type file_to_delete = solve_file-Effect site

  pub dispatch-Effect :
      (site : Site)
      → Effect location request target site.changes (dispatch env location request target site)
  unfolding dispatch execute_put
  dispatch-Effect site = by_type request.uri_type refl
    where
      work : Effect location request target site.changes (
          and_then (check_size location request site) (λ _. solve_work env location request target))
      work =
          after_size env location request target site (solve_work env location request target)
            (λ _. solve_work-Effect site)

      by_type :
          (t : UriType)
          → request.uri_type ≡ t
          → Effect location request target site.changes (
              elim t as (λ _. Act Site (Unit {0})) [
                | file_to_create ↦
                    check_size location request
                    >> execute_put env request target
                    >> modify (set_status send_ready)
                | file_to_delete ↦
                    execute_delete env request target >> modify (set_status send_ready)
                | directory_uri ↦
                    check_size location request >> solve_directory env location request
                | _ ↦ check_size location request >> solve_work env location request target
              ]
                site)
      by_type file_to_create e =
          with_status-Effect env location request target site.changes
            (and_then (check_size location request site) (λ _. execute_put env request target))
            send_ready
            (after_size env location request target site (execute_put env request target) (λ g.
              put_opened-Effect env location request target (env.open_to_write (drop_slash target))
                site e g))
      by_type file_to_delete e =
          with_status-Effect env location request target site.changes
            (execute_delete env request target site) send_ready
            (execute_delete-Effect env location request target site (inl e))
      by_type directory_uri e =
          after_size env location request target site (solve_directory env location request)
            (λ _. inl (solve_directory-Quiet site))
      by_type file_uri e = work
      by_type cgi_program e = work
