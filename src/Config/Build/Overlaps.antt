-- ===== src/Config/Build/Overlaps.antt =====
-- What isOverlapedServer of srcs/ServerManager.cpp finds.
use ok.Base.{
  ℕ, List, [], ◌∷◌, ◌++◌, Bool, true, false, ◌&&◌, ◌||◌, ◌≡◌, ◌↔◌, ◌⊎◌, inl, inr, refl, sym, ap,
  subst, ◌∙◌, arith, ◌==◌, ==_iff, if◌then◌else◌, any,
}
use ok.Text.{Bytes, equal}
use ok.Text.Find.{equal_iff}
use ok.FilePath.{get_size}
use ok.Config.{ConfigFile}
use ok.Config.Build.{
  OverlapedValue, overlaped_value, same_value, overlaped_loop, is_overlaped_server,
}

-- The values of the settings that stand for a server itself, without a location path.
abbrev with_own : Bool → OverlapedValue → List OverlapedValue → List OverlapedValue
with_own true v vs = v ∷ vs
with_own false v vs = vs

unfoldable pub own_values : List ConfigFile → List OverlapedValue
unfolding get_size
own_values [] = []
own_values (config ∷ configs) =
    with_own (get_size config.location_path == 0) (overlaped_value config) (own_values configs)

abbrev pub Member : OverlapedValue → List OverlapedValue → Type 0
Member v [] = ⊥
Member v (w ∷ ws) = (w ≡ v) ⊎ Member v ws

abbrev pub HasDuplicate : List OverlapedValue → Type 0
HasDuplicate [] = ⊥
HasDuplicate (v ∷ vs) = Member v vs ⊎ HasDuplicate vs

pair_paths :
    {h h' n n' : Bytes} {p p' : ℕ}
    → h ≡ h'
    → p ≡ p'
    → n ≡ n'
    → ◌≡◌ {A = OverlapedValue} (h, p, n) (h', p', n')
pair_paths e f g i = (e i, f i, g i)

same_value_iff : (v w : OverlapedValue) → (same_value v w ≡ true) ↔ (v ≡ w)
unfolding same_value
same_value_iff (h, p, n) (h', p', n') = (forward, backward)
  where
    forward :
        (equal h h' && (p == p' && equal n n')) ≡ true
        → ◌≡◌ {A = OverlapedValue} (h, p, n) (h', p', n')
    forward e =
        pair_paths ((equal_iff h h').0 (ground arith)) (ground arith)
          ((equal_iff n n').0 (ground arith))

    backward :
        ◌≡◌ {A = OverlapedValue} (h, p, n) (h', p', n')
        → (equal h h' && (p == p' && equal n n')) ≡ true
    backward e =
        all_true ((equal_iff h h').1 (ap (λ v. v.0) e)) ((==_iff p p').1 (ap (λ v. v.1) e))
          ((equal_iff n n').1 (ap (λ v. v.2) e))
      where
        all_true : {a b c : Bool} → a ≡ true → b ≡ true → c ≡ true → (a && (b && c)) ≡ true
        all_true e f g = ground arith

or_false : (a b : Bool) → a ≡ false → (a || b) ≡ b
or_false a b e = ground arith

or_left : (a b : Bool) → a ≡ true → (a || b) ≡ true
or_left a b e = ground arith

or_right : (a b : Bool) → b ≡ true → (a || b) ≡ true
or_right a b e = ground arith

if_or : (a b : Bool) → ((if a then true else b) ≡ true) ↔ ((a ≡ true) ⊎ (b ≡ true))
if_or true b = (λ e. inl refl, λ e. refl)
if_or false b = (λ e. inr e, λ e. ground arith)

any_same :
    (v : OverlapedValue) (l : List OverlapedValue)
    → (any (λ s. same_value s v) l ≡ true) ↔ Member v l
any_same v [] = (λ e. absurd (cc e), λ m. absurd m)
any_same v (w ∷ l) = (forward (any_same v l).0, backward (any_same v l).1)
  where
    forward :
        (any (λ s. same_value s v) l ≡ true → Member v l)
        → (same_value w v || any (λ s. same_value s v) l) ≡ true
        → (w ≡ v) ⊎ Member v l
    forward IH e = go (same_value w v) refl
      where
        go : (b : Bool) → same_value w v ≡ b → (w ≡ v) ⊎ Member v l
        go true f = inl ((same_value_iff w v).0 f)
        go false f = inr (IH (sym (or_false (same_value w v) (any (λ s. same_value s v) l) f) ∙ e))

    backward :
        (Member v l → any (λ s. same_value s v) l ≡ true)
        → (w ≡ v) ⊎ Member v l
        → (same_value w v || any (λ s. same_value s v) l) ≡ true
    backward IH (inl e) =
        or_left (same_value w v) (any (λ s. same_value s v) l) ((same_value_iff w v).1 e)
    backward IH (inr m) = or_right (same_value w v) (any (λ s. same_value s v) l) (IH m)

Member-append :
    (v w : OverlapedValue) (l : List OverlapedValue)
    → Member v (l ++ (w ∷ [])) ↔ (Member v l ⊎ (w ≡ v))
Member-append v w [] = (to, from)
  where
    to : (w ≡ v) ⊎ ⊥ → ⊥ ⊎ (w ≡ v)
    to (inl e) = inr e
    to (inr b) = absurd b

    from : ⊥ ⊎ (w ≡ v) → (w ≡ v) ⊎ ⊥
    from (inl b) = absurd b
    from (inr e) = inl e
Member-append v w (x ∷ l) = (to (Member-append v w l).0, from (Member-append v w l).1)
  where
    to :
        (Member v (l ++ (w ∷ [])) → Member v l ⊎ (w ≡ v))
        → (x ≡ v) ⊎ Member v (l ++ (w ∷ []))
        → ((x ≡ v) ⊎ Member v l) ⊎ (w ≡ v)
    to IH (inl e) = inl (inl e)
    to IH (inr m) = elim (IH m) [ inl k ↦ inl (inr k) | inr e ↦ inr e ]

    from :
        (Member v l ⊎ (w ≡ v) → Member v (l ++ (w ∷ [])))
        → ((x ≡ v) ⊎ Member v l) ⊎ (w ≡ v)
        → (x ≡ v) ⊎ Member v (l ++ (w ∷ []))
    from IH (inl (inl e)) = inl e
    from IH (inl (inr m)) = inr (IH (inl m))
    from IH (inr e) = inr (IH (inr e))

-- A value of the rest is in the list that has been gathered, or two values of the rest are equal.
abbrev Clash : List OverlapedValue → List OverlapedValue → Type 0
Clash l vs = ((v : OverlapedValue) × Member v l × Member v vs) ⊎ HasDuplicate vs

-- One more value: what it clashes with.
Clash-cons :
    (w : OverlapedValue) (l vs : List OverlapedValue)
    → Clash l (w ∷ vs) ↔ (Member w l ⊎ Clash (l ++ (w ∷ [])) vs)
Clash-cons w l vs = (to, from)
  where
    to : Clash l (w ∷ vs) → Member w l ⊎ Clash (l ++ (w ∷ [])) vs
    to (inl (v, m, inl e)) = inl (subst (λ u. Member u l) (sym e) m)
    to (inl (v, m, inr k)) = inr (inl (v, (Member-append v w l).1 (inl m), k))
    to (inr (inl m)) = inr (inl (w, (Member-append w w l).1 (inr refl), m))
    to (inr (inr d)) = inr (inr d)

    from : Member w l ⊎ Clash (l ++ (w ∷ [])) vs → Clash l (w ∷ vs)
    from (inl m) = inl (w, m, inl refl)
    from (inr (inl (v, m, k))) = elim ((Member-append v w l).0 m) [
      | inl n ↦ inl (v, n, inr k)
      | inr e ↦ inr (inl (subst (λ u. Member u vs) (sym e) k))
    ]
    from (inr (inr d)) = inr (inr d)

overlaped_loop_iff :
    (configs : List ConfigFile) (l : List OverlapedValue)
    → (overlaped_loop configs l ≡ true) ↔ Clash l (own_values configs)
unfolding overlaped_loop own_values
overlaped_loop_iff [] l = (λ e. absurd (cc e), none_left)
  where
    none_left : Clash l [] → overlaped_loop [] l ≡ true
    none_left (inl (v, m, k)) = absurd k
    none_left (inr d) = absurd d
overlaped_loop_iff (config ∷ configs) l =
    by_own (get_size config.location_path == 0) (overlaped_loop_iff configs)
  where
    by_own :
        (own : Bool)
        → ((m : List OverlapedValue)
            → (overlaped_loop configs m ≡ true) ↔ Clash m (own_values configs))
        → ((if own && any (λ s. same_value s (overlaped_value config)) l
              then true
              else overlaped_loop configs (if own then l ++ (overlaped_value config ∷ []) else l))
            ≡ true)
          ↔ Clash l (with_own own (overlaped_value config) (own_values configs))
    by_own false IH = IH l
    by_own true IH =
        let w = overlaped_value config in
        let vs = own_values configs in
        let a = any (λ s. same_value s w) l in
        let b = overlaped_loop configs (l ++ (w ∷ [])) in
        (
          λ e. (Clash-cons w l vs).1 (elim ((if_or a b).0 e) [
            | inl f ↦ inl ((any_same w l).0 f)
            | inr f ↦ inr ((IH (l ++ (w ∷ []))).0 f)
          ]),
          λ c. (if_or a b).1 (elim ((Clash-cons w l vs).0 c) [
            | inl m ↦ inl ((any_same w l).1 m)
            | inr k ↦ inr ((IH (l ++ (w ∷ []))).1 k)
          ]),
        )

-- The settings are refused exactly when two of those that have no location path agree in host, port
-- and server name.
pub is_overlaped_server_iff :
    (configs : List ConfigFile)
    → (is_overlaped_server configs ≡ true) ↔ HasDuplicate (own_values configs)
unfolding is_overlaped_server
is_overlaped_server_iff configs = (forward, λ d. (overlaped_loop_iff configs []).1 (inr d))
  where
    forward : overlaped_loop configs [] ≡ true → HasDuplicate (own_values configs)
    forward e = by_clash ((overlaped_loop_iff configs []).0 e)
      where
        by_clash : Clash [] (own_values configs) → HasDuplicate (own_values configs)
        by_clash (inl (v, m, k)) = absurd m
        by_clash (inr d) = d
