-- ===== src/Server/Serve/Sockets.antt =====
-- Answering a request leaves a connection's socket as it is.
use ok.Base.{if_holds, ℕ, Bool, false, Option, none, some, ◌≡◌, refl, ◌∙◌, ◌==◌}
use ok.Text.{Bytes}
use ok.Result.{Result, done, thrown, failed, Act, and_then, modify}
use ok.Request.{Request}
use ok.Config.{LocationPath}
use ok.Response.{Response}
use ok.Server.Site.{
  Environment, Site, Status, Opened, opened, refused, access, set_status, eisdir, enoent,
  is_file_path, is_dir_path,
}
use ok.Server.Execute.{
  execute_get, execute_head, beheaded, put_headers, put_opened, execute_delete, is_too_large,
}
use ok.Server.Solve.{check_size}

-- A result in which the connection stands on the socket.
abbrev pub StaysOn : {A : Type 0} → ℕ → Site × Result A → Type 0
StaysOn s m = m.0.connection.socket ≡ s

-- An action that leaves the socket.
abbrev pub KeepsSocket : {A : Type 0} → Act Site A → Type 0
KeepsSocket k = (site : Site) → StaysOn site.connection.socket (k site)

pub then-StaysOn :
    (s : ℕ) (m : Site × Result (Unit {0})) (k : Act Site (Unit {0}))
    → StaysOn s m
    → KeepsSocket k
    → StaysOn s (and_then m (λ _. k))
then-StaysOn s (site, done a) k h f = f site ∙ h
then-StaysOn s (site, thrown n) k h f = h
then-StaysOn s (site, failed e) k h f = h

module _ (env : Environment) where
  pub execute_get-KeepsSocket :
      (request : Request) (target : Bytes) → KeepsSocket (execute_get env request target)
  unfolding execute_get
  execute_get-KeepsSocket request target site =
      if_holds (StaysOn site.connection.socket) (access env target).0 (λ _. refl) (λ _. refl)

  beheaded-StaysOn :
      (o : Option Response) (site : Site) → StaysOn site.connection.socket (beheaded o site)
  beheaded-StaysOn none site = refl
  beheaded-StaysOn (some r) site = refl

  pub execute_head-KeepsSocket :
      (request : Request) (target : Bytes) → KeepsSocket (execute_head env request target)
  unfolding execute_head
  execute_head-KeepsSocket request target site =
      then-StaysOn site.connection.socket (execute_get env request target site)
        (λ t. beheaded t.connection.response t) (execute_get-KeepsSocket request target site)
        (λ t. beheaded-StaysOn t.connection.response t)

  put_headers-StaysOn :
      (clear : Bool) (o : Option Response) (site : Site)
      → StaysOn site.connection.socket (put_headers env clear o site)
  unfolding put_headers
  put_headers-StaysOn clear none site = refl
  put_headers-StaysOn clear (some r) site = refl

  pub put_opened-KeepsSocket :
      (request : Request) (target : Bytes) (o : Opened)
      → KeepsSocket (put_opened env request target o)
  unfolding put_opened put_headers
  put_opened-KeepsSocket request target opened site = refl
  put_opened-KeepsSocket request target (refused errno) site =
      if_holds (StaysOn site.connection.socket) (errno == eisdir) (λ _. refl)
        (λ _.
          if_holds (StaysOn site.connection.socket) (errno == enoent)
            (λ _.
              if_holds (λ (t : Site). t.connection.socket ≡ site.connection.socket)
                (env.can_create target) (λ _. refl) (λ _. refl))
            (λ _. put_headers-StaysOn false site.connection.response site))

  pub execute_delete-KeepsSocket :
      (request : Request) (target : Bytes) → KeepsSocket (execute_delete env request target)
  unfolding execute_delete
  execute_delete-KeepsSocket request target site =
      if_holds (StaysOn site.connection.socket) (access env target).0
        (λ _.
          if_holds (StaysOn site.connection.socket) (is_file_path env target) (λ _. refl)
            (λ _.
              if_holds (StaysOn site.connection.socket) (is_dir_path env target) (λ _. refl)
                (λ _. refl)))
        (λ _. refl)

  pub check_size-KeepsSocket :
      (location : LocationPath) (request : Request) → KeepsSocket (check_size location request)
  unfolding check_size
  check_size-KeepsSocket location request site =
      if_holds (StaysOn site.connection.socket) (is_too_large location request) (λ _. refl)
        (λ _. refl)

  pub with_status :
      (s : ℕ) (m : Site × Result (Unit {0})) (status : Status)
      → StaysOn s m
      → StaysOn s (and_then m (λ _. modify (set_status status)))
  with_status s m status h = then-StaysOn s m (modify (set_status status)) h (λ t. refl)
