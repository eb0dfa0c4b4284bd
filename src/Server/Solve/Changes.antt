-- ===== src/Server/Solve/Changes.antt =====
-- What each execute method does to the files.
use ok.Base.{
  if_holds, List, ◌∷◌, Bool, true, false, Option, none, some, ◌≡◌, ◌⊎◌, inl, inr, refl, ◌∙◌, ◌==◌,
  if◌then◌else◌,
}
use ok.Text.{Bytes, codes, equal}
use ok.Result.{Result, done, thrown, failed, Act, and_then, modify}
use ok.Request.{Request, file_to_create, file_to_delete}
use ok.Config.{LocationPath}
use ok.Response.{Response, set_headers}
use ok.Server.Site.{
  Environment, Site, Status, Opened, opened, refused, Change, wrote, removed, enoent, eisdir,
  is_file_path, is_dir_path, access, set_status, respond, change,
}
use ok.Server.Execute.{
  execute_get, execute_head, put_opened, execute_delete, is_too_large, drop_slash, put_headers,
  created_response,
}
use ok.Server.Solve.{check_size}

-- What a request with this target does to the files: nothing, or it writes its body to the target,
-- which only a request that creates a file and is small enough does, or it removes the target, which
-- only DELETE does.
abbrev pub Effect : LocationPath → Request → Bytes → List Change → Site × Result (Unit {0}) → Type 0
Effect location request target old m =
    (m.0.changes ≡ old)
    ⊎ (((m.0.changes ≡ wrote (drop_slash target) request.body ∷ old)
          × (request.uri_type ≡ file_to_create)
          × (is_too_large location request ≡ false))
        ⊎ ((m.0.changes ≡ removed target ∷ old)
            × ((request.uri_type ≡ file_to_delete)
                ⊎ (equal request.method (codes "DELETE") ≡ true))))

abbrev pub Quiet : List Change → Site × Result (Unit {0}) → Type 0
Quiet old m = m.0.changes ≡ old

with_status-changes :
    (m : Site × Result (Unit {0})) (status : Status)
    → (and_then m (λ _. modify (set_status status))).0.changes ≡ m.0.changes
with_status-changes (site, done x) status = refl
with_status-changes (site, thrown n) status = refl
with_status-changes (site, failed f) status = refl

pub then-Quiet :
    (old : List Change) (m : Site × Result (Unit {0})) (k : Act Site (Unit {0}))
    → Quiet old m
    → ((s : Site) → Quiet s.changes (k s))
    → Quiet old (and_then m (λ _. k))
then-Quiet old (site, done x) k h f = f site ∙ h
then-Quiet old (site, thrown n) k h f = h
then-Quiet old (site, failed e) k h f = h

pub execute_get-Quiet :
    (env : Environment) (request : Request) (target : Bytes) (site : Site)
    → Quiet site.changes (execute_get env request target site)
unfolding execute_get
execute_get-Quiet env request target site =
    if_holds (Quiet site.changes) (access env target).0 (λ _. refl) (λ _. refl)

pub execute_head-Quiet :
    (env : Environment) (request : Request) (target : Bytes) (site : Site)
    → Quiet site.changes (execute_head env request target site)
unfolding execute_head execute_get
execute_head-Quiet env request target site = go (access env target).0 refl
  where
    go :
        (v : Bool)
        → (access env target).0 ≡ v
        → Quiet site.changes (execute_head env request target site)
    go true e = rw e refl
    go false e = rw e refl

pub check_size-Quiet :
    (location : LocationPath) (request : Request) (site : Site)
    → Quiet site.changes (check_size location request site)
unfolding check_size
check_size-Quiet location request site =
    if_holds (Quiet site.changes) (is_too_large location request) (λ _. refl) (λ _. refl)

module _ (env : Environment) (location : LocationPath) (request : Request) (target : Bytes) where
  pub with_status-Effect :
      (old : List Change) (m : Site × Result (Unit {0})) (status : Status)
      → Effect location request target old m
      → Effect location request target old (and_then m (λ _. modify (set_status status)))
  with_status-Effect old m status (inl h) = inl (with_status-changes m status ∙ h)
  with_status-Effect old m status (inr (inl (h, g, k))) =
      inr (inl (with_status-changes m status ∙ h, g, k))
  with_status-Effect old m status (inr (inr (h, g))) =
      inr (inr (with_status-changes m status ∙ h, g))

  pub after_size :
      (site : Site) (k : Act Site (Unit {0}))
      → (is_too_large location request ≡ false
          → Effect location request target site.changes (k site))
      → Effect location request target site.changes
          (and_then (check_size location request site) (λ _. k))
  unfolding check_size
  after_size site k f =
      if_holds
        (λ (m : Site × Result (Unit {0})).
          Effect location request target site.changes (and_then m (λ _. k)))
        (is_too_large location request) (λ _. inl refl) f

  put_headers-Quiet :
      (clear : Bool) (o : Option Response) (site : Site)
      → Quiet site.changes (put_headers env clear o site)
  unfolding put_headers
  put_headers-Quiet clear none site = refl
  put_headers-Quiet clear (some r) site = refl

  created-Effect :
      (r : Response) (v : Bool) (site : Site)
      → request.uri_type ≡ file_to_create
      → is_too_large location request ≡ false
      → Effect location request target site.changes (
        respond r (if v then change (wrote (drop_slash target) request.body) site else site),
        done tt,
      )
  created-Effect r true site h g = inr (inl (refl, h, g))
  created-Effect r false site h g = inl refl

  pub put_opened-Effect :
      (o : Opened) (site : Site)
      → request.uri_type ≡ file_to_create
      → is_too_large location request ≡ false
      → Effect location request target site.changes
          (put_opened env request (drop_slash target) o site)
  unfolding put_opened put_headers
  put_opened-Effect opened site h g = inr (inl (refl, h, g))
  put_opened-Effect (refused errno) site h g =
      if_holds (Effect location request target site.changes) (errno == eisdir) (λ _. inl refl)
        (λ _.
          if_holds (Effect location request target site.changes) (errno == enoent)
            (λ _.
              created-Effect
                (set_headers (codes "Server") (codes "webserv") (
                  set_headers (codes "Date") env.now
                    (created_response request site.connection.target_uri)))
                (env.can_create (drop_slash target)) site h g)
            (λ _. inl (put_headers-Quiet false site.connection.response site)))

  pub execute_delete-Effect :
      (site : Site)
      → (request.uri_type ≡ file_to_delete) ⊎ (equal request.method (codes "DELETE") ≡ true)
      → Effect location request target site.changes (execute_delete env request target site)
  unfolding execute_delete
  execute_delete-Effect site h =
      if_holds (Effect location request target site.changes) (access env target).0
        (λ _.
          if_holds (Effect location request target site.changes) (is_file_path env target)
            (λ _. inr (inr (refl, h)))
            (λ _.
              if_holds (Effect location request target site.changes) (is_dir_path env target)
                (λ _. inl refl) (λ _. inl refl)))
        (λ _. inl refl)
