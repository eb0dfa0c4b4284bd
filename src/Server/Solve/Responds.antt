-- ===== src/Server/Solve/Responds.antt =====
-- Each execute method leaves a response, or throws.
use ok.Base.{if_holds, ℕ, [], Bool, true, false, some, ◌≡◌, ◌⊎◌, refl, arith, ◌==◌}
use ok.Text.{Bytes}
use ok.Result.{Result, done, thrown, failed, Act, and_then, modify}
use ok.Request.{Request}
use ok.Config.{LocationPath}
use ok.Response.{Response, new_response}
use ok.Server.Site.{
  Environment, Site, Status, cgi_ready, send_ready, Opened, opened, refused, enoent, eisdir,
  is_file_path, is_dir_path, access, set_status,
}
use ok.Server.Answer.{response_200, head_response}
use ok.Server.Execute.{
  execute_get, execute_head, execute_post, put_opened, execute_put, execute_delete, is_too_large,
  drop_slash, put_headers,
}
use ok.Server.Solve.{check_size, work_status}

-- The answer is in the connection, and the run loop goes on with it.
abbrev pub HasAnswer : Site → Type 0
HasAnswer site =
    ((response : Response) × (site.connection.response ≡ some response))
    × ((site.connection.status ≡ send_ready) ⊎ (site.connection.status ≡ cgi_ready))

abbrev pub Responds : Site × Result (Unit {0}) → Type 0
Responds (site, done x) = (response : Response) × (site.connection.response ≡ some response)
Responds (site, thrown n) = Unit {0}
Responds (site, failed f) = ⊥

-- A request that is served has an answer; one that is refused throws a status code, from which the
-- caller makes the answer. No exception is thrown.
abbrev pub IsAnswered : Site × Result (Unit {0}) → Type 0
IsAnswered (site, done x) = HasAnswer site
IsAnswered (site, thrown n) = Unit {0}
IsAnswered (site, failed f) = ⊥

-- An open that fails says that the path is not there, or that it is a directory.
abbrev pub IsPlain : Environment → Type 0
IsPlain env =
    ((path : Bytes) → (access env path).0 ≡ false → (access env path).1 ≡ enoent)
    × ((path : Bytes) (errno : ℕ)
        → env.open_to_write path ≡ refused errno
        → (errno ≡ eisdir) ⊎ (errno ≡ enoent))

pub with_status :
    (m : Site × Result (Unit {0})) (status : Status)
    → (status ≡ send_ready) ⊎ (status ≡ cgi_ready)
    → Responds m
    → IsAnswered (and_then m (λ _. modify (set_status status)))
with_status (site, done x) status e h = (h, e)
with_status (site, thrown n) status e h = tt
with_status (site, failed f) status e h = h

pub work_status_cases :
    (request : Request) → (work_status request ≡ send_ready) ⊎ (work_status request ≡ cgi_ready)
unfolding work_status
work_status_cases request = ground arith

pub execute_get-Responds :
    (env : Environment) (request : Request) (target : Bytes) (site : Site)
    → Responds (execute_get env request target site)
unfolding execute_get
execute_get-Responds env request target site =
    if_holds Responds (access env target).0 (λ _. (response_200 env request target, refl)) (λ _. tt)

pub execute_head-Responds :
    (env : Environment) (request : Request) (target : Bytes) (site : Site)
    → Responds (execute_head env request target site)
unfolding execute_head execute_get
execute_head-Responds env request target site = go (access env target).0 refl
  where
    go : (v : Bool) → (access env target).0 ≡ v → Responds (execute_head env request target site)
    go true e = rw e (head_response (response_200 env request target), refl)
    go false e = rw e tt

put_opened-Responds :
    (env : Environment) (request : Request) (target : Bytes) (o : Opened) (site : Site)
    → ((errno : ℕ) → o ≡ refused errno → (errno ≡ eisdir) ⊎ (errno ≡ enoent))
    → Responds (put_opened env request target o site)
unfolding put_opened put_headers
put_opened-Responds env request target opened site h = (_, refl)
put_opened-Responds env request target (refused errno) site h =
    if_holds Responds (errno == eisdir) (λ _. (_, refl))
      (λ f.
        if_holds Responds (errno == enoent) (λ _. (_, refl))
          (λ g. absurd (neither errno f g (h errno refl))))
  where
    neither :
        (n : ℕ) → (n == eisdir) ≡ false → (n == enoent) ≡ false → (n ≡ eisdir) ⊎ (n ≡ enoent) → ⊥
    neither n f g e = ground arith

pub execute_put-Responds :
    (env : Environment)
    → IsPlain env
    → (request : Request) (target : Bytes) (site : Site)
    → Responds (execute_put env request target site)
unfolding execute_put
execute_put-Responds env plain request target site =
    put_opened-Responds env request (drop_slash target) (env.open_to_write (drop_slash target)) site
      (plain.1 (drop_slash target))

pub no_both : {v : Bool} → v ≡ false → v ≡ true → ⊥
no_both e f = ground arith

access_kind :
    (env : Environment) (target : Bytes)
    → (access env target).0 ≡ true
    → is_file_path env target ≡ false
    → is_dir_path env target ≡ true
unfolding access is_file_path is_dir_path
access_kind env target h e = ground arith

pub execute_delete-Responds :
    (env : Environment) (request : Request) (target : Bytes) (site : Site)
    → Responds (execute_delete env request target site)
unfolding execute_delete
execute_delete-Responds env request target site =
    if_holds Responds (access env target).0
      (λ h.
        if_holds Responds (is_file_path env target) (λ _. (response_200 env request target, refl))
          (λ e.
            if_holds Responds (is_dir_path env target) (λ _. (new_response 204 [], refl))
              (λ f. absurd (no_both f (access_kind env target h e)))))
      (λ _. (new_response 204 [], refl))

-- A check only throws or goes on.
abbrev pub IsCheck : Site × Result (Unit {0}) → Type 0
IsCheck (site, done x) = Unit {0}
IsCheck (site, thrown n) = Unit {0}
IsCheck (site, failed f) = ⊥

pub after_check :
    (m : Site × Result (Unit {0})) (k : Act Site (Unit {0}))
    → IsCheck m
    → ((s : Site) → IsAnswered (k s))
    → IsAnswered (and_then m (λ _. k))
after_check (site, done x) k h f = f site
after_check (site, thrown n) k h f = tt
after_check (site, failed e) k h f = h

pub check_size-IsCheck :
    (location : LocationPath) (request : Request) (site : Site)
    → IsCheck (check_size location request site)
unfolding check_size
check_size-IsCheck location request site =
    if_holds IsCheck (is_too_large location request) (λ _. tt) (λ _. tt)

pub then-Responds :
    (m : Site × Result (Unit {0})) (k : Act Site (Unit {0}))
    → IsCheck m
    → ((s : Site) → Responds (k s))
    → Responds (and_then m (λ _. k))
then-Responds (site, done x) k h f = f site
then-Responds (site, thrown n) k h f = tt
then-Responds (site, failed e) k h f = h

pub execute_post-Responds : (request : Request) (site : Site) → Responds (execute_post request site)
unfolding execute_post
execute_post-Responds request site = (new_response 200 request.body, refl)
