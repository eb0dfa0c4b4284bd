-- ===== src/Server/Execute/Credentials.antt =====
-- Which credentials isRightCredentials of srcs/Server.cpp accepts.
use ok.Base.{[], ◌∷◌, ◌++◌, Bool, true, false, none, some, ◌≡◌, ◌↔◌, refl, sym, ap, ◌∙◌, arith}
use ok.Text.{Bytes, codes, equal, starts_with, find}
use ok.Text.Find.{starts_with-append}
use ok.Result.{Result, done, thrown}
use ok.Server.Site.{Environment}
use ok.Server.Execute.{is_right_credentials, found_in}

starts_with_sound : (p s : Bytes) → starts_with p s ≡ true → (rest : Bytes) × (s ≡ p ++ rest)
unfolding starts_with
starts_with_sound [] s h = (s, refl)
starts_with_sound (x ∷ p) [] h = absurd (ground arith)
starts_with_sound (x ∷ p) (c ∷ s) h = go (starts_with_sound p s (ground arith))
  where
    go : (rest : Bytes) × (s ≡ p ++ rest) → (rest : Bytes) × (c ∷ s ≡ x ∷ (p ++ rest))
    go (rest, e) = (rest, ground arith)

find_start : (p s : Bytes) → starts_with p s ≡ true → find p s ≡ some 0
unfolding find
find_start p [] h = rw h refl
find_start p (c ∷ s) h = rw h refl

found_in-append : (p before after : Bytes) → found_in p (before ++ (p ++ after)) ≡ true
unfolding found_in find
found_in-append p [] after =
    ap (λ o. elim o as (λ _. Bool) [ none ↦ false | some i ↦ true ])
      (find_start p (p ++ after) (starts_with-append p after))
found_in-append p (c ∷ before) after = ground (arith, found_in-append p before after)

found_in_sound :
    (p s : Bytes) → found_in p s ≡ true → (before after : Bytes) × (s ≡ before ++ (p ++ after))
unfolding found_in find
found_in_sound p [] h = go (starts_with_sound p [] (ground arith))
  where
    go : (rest : Bytes) × ([] ≡ p ++ rest) → (before after : Bytes) × ([] ≡ before ++ (p ++ after))
    go (rest, e) = ([], rest, e)
found_in_sound p (c ∷ s) h = go (starts_with p (c ∷ s)) refl (found_in_sound p s)
  where
    go :
        (v : Bool)
        → starts_with p (c ∷ s) ≡ v
        → (found_in p s ≡ true → (before after : Bytes) × (s ≡ before ++ (p ++ after)))
        → (before after : Bytes) × (c ∷ s ≡ before ++ (p ++ after))
    go true e IH = let (rest, f) = starts_with_sound p (c ∷ s) e in ([], rest, f)
    go false e IH =
        let (before, after, f) = IH (ground arith) in (c ∷ before, after, ap (λ t. c ∷ t) f)

done_true : {v : Bool} → ◌≡◌ {A = Result Bool} (done v) (done true) → v ≡ true
done_true e = cc

-- Credentials behind "Basic " are accepted exactly when .htpasswd has them with a line end behind
-- them, anywhere in the text.
pub is_right_credentials_iff :
    (env : Environment) (text credentials : Bytes)
    → env.htpasswd ≡ some text
    → (is_right_credentials env (codes "Basic " ++ credentials) ≡ done true)
      ↔ ((before after : Bytes) × (text ≡ before ++ ((credentials ++ codes "\n") ++ after)))
unfolding is_right_credentials find starts_with equal
is_right_credentials_iff env text credentials h = (forward, backward)
  where
    accepted :
        is_right_credentials env (codes "Basic " ++ credentials)
        ≡ done (found_in (credentials ++ codes "\n") text)
    accepted =
        ap
          (λ o. elim o as (λ _. Result Bool) [
            | none ↦ thrown 500
            | some t ↦ done (found_in (credentials ++ codes "\n") t)
          ])
          h

    forward :
        is_right_credentials env (codes "Basic " ++ credentials) ≡ done true
        → (before after : Bytes) × (text ≡ before ++ ((credentials ++ codes "\n") ++ after))
    forward e = found_in_sound (credentials ++ codes "\n") text (done_true (sym accepted ∙ e))

    backward :
        ((before after : Bytes) × (text ≡ before ++ ((credentials ++ codes "\n") ++ after)))
        → is_right_credentials env (codes "Basic " ++ credentials) ≡ done true
    backward (before, after, e) =
        accepted
        ∙ ap done (
            ap (found_in (credentials ++ codes "\n")) e
            ∙ found_in-append (credentials ++ codes "\n") before after)
