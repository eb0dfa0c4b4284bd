-- ===== src/Server/Solve/Checks.antt =====
-- The checks in front of the branches of solveRequest throw a status code or go on.
use ok.Base.{
  if_holds, ℕ, suc, ◌≤◌, [], ◌∷◌, ◌++◌, Bool, true, false, not, Option, none, some, ◌≡◌, refl,
  arith, ltb, if◌then◌else◌, take, drop, length,
}
use ok.Text.{Bytes, codes, npos, equal, find, slice}
use ok.Dict.{lookup}
use ok.Result.{Result, done, thrown, failed, out_of_range, Act, and_then}
use ok.Request.{Request}
use ok.Config.{LocationPath, ServerBlock}
use ok.FilePath.{get_path}
use ok.Server.Site.{Environment, Site}
use ok.Server.Execute.{found_in, is_valid_method, has_auth_module, is_right_credentials}
use ok.Server.Solve.{checked, placed, set_up, check_rights}
use ok.FilePath.RoundTrip.{get_path_bound}
use ok.Server.Solve.Responds.{no_both, IsCheck}

abbrev IsChecked : Result Bool → Type 0
IsChecked (failed f) = ⊥
IsChecked _ = Unit {0}

is_right_credentials-IsChecked :
    (env : Environment) (given : Bytes) → IsChecked (is_right_credentials env given)
unfolding is_right_credentials
is_right_credentials-IsChecked env given = by_space (find (b' ' ∷ []) given)
  where
    by_text :
        (credentials : Bytes) (t : Option Bytes)
        → IsChecked (elim t [ none ↦ thrown 500 | some text ↦ done (found_in credentials text) ])
    by_text credentials none = tt
    by_text credentials (some text) = tt

    by_space :
        (found : Option ℕ)
        → IsChecked (elim found [
          | none ↦ done false
          | some found ↦
              let credentials = drop (suc found) given ++ codes "\n" in
              if not (equal (take found given) (codes "Basic"))
              then done false
              else elim env.htpasswd [
                | none ↦ thrown 500
                | some text ↦ done (found_in credentials text)
              ]
        ])
    by_space none = tt
    by_space (some found) =
        if_holds IsChecked (not (equal (take found given) (codes "Basic"))) (λ _. tt)
          (λ _. by_text (drop (suc found) given ++ codes "\n") env.htpasswd)

checked-IsCheck :
    (site : Site) (r : Result Bool) → IsChecked r → IsCheck (and_then (site, r) checked)
checked-IsCheck site (done true) h = tt
checked-IsCheck site (done false) h = tt
checked-IsCheck site (thrown n) h = tt
checked-IsCheck site (failed f) h = absurd h

pub check_rights-IsCheck :
    (env : Environment) (location : LocationPath) (request : Request) (site : Site)
    → IsCheck (check_rights env location request site)
unfolding check_rights
check_rights-IsCheck env location request site =
    if_holds IsCheck (not (is_valid_method request location)) (λ _. tt)
      (λ _.
        if_holds IsCheck (has_auth_module location)
          (λ _. by_header (lookup (codes "authorization") request.headers)) (λ _. tt))
  where
    by_header :
        (h : Option Bytes)
        → IsCheck (elim h [
          | none ↦ (site, thrown 401)
          | some given ↦ and_then (site, is_right_credentials env given) checked
        ])
    by_header none = tt
    by_header (some given) =
        checked-IsCheck site (is_right_credentials env given)
          (is_right_credentials-IsChecked env given)

no_lower : (n : ℕ) → 1 ≤ n → ltb n 1 ≡ false
no_lower n h = ground arith

pub set_up-IsCheck :
    (env : Environment) (block : ServerBlock) (location : LocationPath) (request : Request)
    (site : Site)
    → IsCheck (set_up env block location request site)
unfolding set_up
set_up-IsCheck env block location request site =
    go (ltb (length (get_path location.error_page)) 1)
      (no_lower (length (get_path location.error_page)) (get_path_bound location.error_page))
      (slice (get_path location.error_page) 1 npos)
  where
    go :
        (v : Bool)
        → v ≡ false
        → (page : Bytes)
        → IsCheck (
            and_then
              (site, if v then failed out_of_range else done page)
              (λ page s. (placed env block location request page s, done tt)))
    go true e page = absurd (no_both e refl)
    go false e page = tt

pub then-IsCheck :
    (m : Site × Result (Unit {0})) (k : Act Site (Unit {0}))
    → IsCheck m
    → ((s : Site) → IsCheck (k s))
    → IsCheck (and_then m (λ _. k))
then-IsCheck (site, done x) k h f = f site
then-IsCheck (site, thrown n) k h f = tt
then-IsCheck (site, failed e) k h f = h
