-- ===== src/Server/Solve/Rights.antt =====
-- Who may have files changed by solveRequest.
use ok.Base.{
  if_holds, List, Bool, true, false, not, Option, none, some, ◌≡◌, ◌⊎◌, inl, inr, refl, subst,
  arith, ltb, if◌then◌else◌, length,
}
use ok.Text.{Bytes, codes, npos, slice}
use ok.Dict.{lookup}
use ok.Result.{Result, done, thrown, failed, out_of_range, and_then}
use ok.Request.{Request}
use ok.Config.{LocationPath, ServerBlock}
use ok.FilePath.{get_path}
use ok.Server.Site.{Environment, Site, Change}
use ok.Server.Execute.{is_valid_method, has_auth_module, is_right_credentials}
use ok.Server.Solve.{target_of, mark_cgi, set_up, check_rights, dispatch, solve_at}
use ok.Server.Solve.{checked, placed}
use ok.Server.Solve.Changes.{Effect}
use ok.Server.Solve.Effects.{dispatch-Effect}

-- The location lists the method, and it asks for no credentials or the request has right ones.
abbrev pub HasRights : Environment → LocationPath → Request → Type 0
HasRights env location request =
    (is_valid_method request location ≡ true)
    × ((has_auth_module location ≡ false)
        ⊎ ((given : Bytes) × (lookup (codes "authorization") request.headers ≡ some given)
            × (is_right_credentials env given ≡ done true)))

module _ (env : Environment) (block : ServerBlock) (location : LocationPath)
    (request : Request) where
  -- No file has been changed, and where the checks go on, the rights are there.
  abbrev Allowed : List Change → Site × Result (Unit {0}) → Type 0
  Allowed old (site, done x) = (site.changes ≡ old) × HasRights env location request
  Allowed old (site, thrown n) = site.changes ≡ old
  Allowed old (site, failed f) = site.changes ≡ old

  -- The effect of the target, by a request that has the rights.
  abbrev Entitled : Bytes → List Change → Site × Result (Unit {0}) → Type 0
  Entitled target old m =
      (m.0.changes ≡ old) ⊎ (HasRights env location request × Effect location request target old m)

  check_rights-Allowed :
      (site : Site) → Allowed site.changes (check_rights env location request site)
  unfolding check_rights
  check_rights-Allowed site =
      if_holds (Allowed site.changes) (not (is_valid_method request location)) (λ _. refl)
        (λ e.
          if_holds (Allowed site.changes) (has_auth_module location)
            (λ _. by_header (valid e) (lookup (codes "authorization") request.headers) refl)
            (λ f. (refl, (valid e, inl f))))
    where
      valid :
          not (is_valid_method request location) ≡ false → is_valid_method request location ≡ true
      valid e = flip (is_valid_method request location) e
        where
          flip : (v : Bool) → not v ≡ false → v ≡ true
          flip v e = ground arith

      by_result :
          is_valid_method request location ≡ true
          → (given : Bytes) → lookup (codes "authorization") request.headers ≡ some given
          → (r : Result Bool) → is_right_credentials env given ≡ r
          → Allowed site.changes (and_then (site, r) checked)
      by_result v given h (done true) e = (refl, (v, inr (given, h, e)))
      by_result v given h (done false) e = refl
      by_result v given h (thrown n) e = refl
      by_result v given h (failed f) e = refl

      by_header :
          is_valid_method request location ≡ true
          → (o : Option Bytes) → lookup (codes "authorization") request.headers ≡ o
          → Allowed site.changes (elim o [
            | none ↦ (site, thrown 401)
            | some given ↦ and_then (site, is_right_credentials env given) checked
          ])
      by_header v none h = refl
      by_header v (some given) h = by_result v given h (is_right_credentials env given) refl

  then-Allowed :
      (old : List Change) (m : Site × Result (Unit {0}))
      → m.0.changes ≡ old
      → Allowed old (and_then m (λ _. check_rights env location request))
  then-Allowed old (site, done x) h =
      subst (λ o. Allowed o (check_rights env location request site)) h (check_rights-Allowed site)
  then-Allowed old (site, thrown n) h = h
  then-Allowed old (site, failed f) h = h

  then-Entitled :
      (target : Bytes) (old : List Change) (m : Site × Result (Unit {0}))
      → Allowed old m
      → Entitled target old (and_then m (λ _. dispatch env location request target))
  then-Entitled target old (site, done x) (h, g) = inr (
    g,
    subst (λ o. Effect location request target o (dispatch env location request target site)) h
        (dispatch-Effect env location request target site),
  )
  then-Entitled target old (site, thrown n) h = inl h
  then-Entitled target old (site, failed f) h = inl h

-- For the block and the location that are chosen, a request changes no file, or it has a method that
-- the location lists and the credentials that the location asks for, and then it changes none but
-- its target: it writes its body there, if it is one that creates a file and is not too large, or it
-- removes the target, if it is one that deletes a file or has the method DELETE.
pub solve_at-Effect :
    (env : Environment) (block : ServerBlock) (location : LocationPath) (request : Request)
    (site : Site)
    → let marked = mark_cgi block request in
      let target = target_of env location request in
      let result = solve_at env block location request site in
      (result.0.changes ≡ site.changes)
      ⊎ (HasRights env location marked × Effect location marked target site.changes result)
unfolding solve_at
solve_at-Effect env block location request site =
    let marked = mark_cgi block request in
    then-Entitled env block location marked (target_of env location request) site.changes
      (and_then (set_up env block location request site) (λ _. check_rights env location marked))
      (then-Allowed env block location marked site.changes (set_up env block location request site)
        (set_up-changes (ltb (length (get_path location.error_page)) 1)
          (slice (get_path location.error_page) 1 npos)))
  where
    set_up-changes :
        (v : Bool) (page : Bytes)
        → (and_then
            (site, if v then failed out_of_range else done page)
            (λ page s. (placed env block location request page s, done tt))).0.changes
          ≡ site.changes
    set_up-changes true page = refl
    set_up-changes false page = refl
