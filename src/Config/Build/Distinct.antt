-- ===== src/Config/Build/Distinct.antt =====
-- The servers that the settings make have different addresses: no two have the same host and port.
use ok.Base.{
  ℕ, zero, suc, List, [], ◌∷◌, ◌++◌, Bool, true, false, ◌&&◌, Option, none, some, ◌≡◌, inl, inr,
  refl, sym, ap, subst, ◌∙◌, arith, ◌==◌, ==_iff, get_elem?, set, All, All-append, Option-cases,
}
use ok.Text.{equal}
use ok.Text.Find.{equal_iff}
use mathlib.Core.List.{reverse}
use ok.Config.{LocationPath, ServerBlock, Listener, ConfigFile}
use ok.Config.Build.Filled.{All-set}
use ok.Config.Build.{
  index_of, get_idx_server, get_idx_server_block, get_idx_location_path, listener_of, extend_server,
  add_config, set_servers_loop, set_servers_value,
}

abbrev pub SameAddress : Listener → Listener → Type 0
SameAddress s t = (s.port ≡ t.port) × (s.host ≡ t.host)

-- Every later server has another address.
abbrev pub AreDistinct : List Listener → Type 0
AreDistinct [] = Unit
AreDistinct (s ∷ ss) = All (λ t. ¬ SameAddress s t) ss × AreDistinct ss

abbrev at_address : ConfigFile → Listener → Bool
at_address config s = s.port == config.port && equal s.host config.host

AreDistinct-append :
    (ss : List Listener) (s : Listener)
    → AreDistinct ss
    → All (λ t. ¬ SameAddress t s) ss
    → AreDistinct (ss ++ (s ∷ []))
AreDistinct-append [] s h k = (tt, tt)
AreDistinct-append (t ∷ ss) s h k =
    (All-append (λ u. ¬ SameAddress t u) ss (s ∷ []) h.0 (k.0, tt), AreDistinct-append ss s h.1 k.1)

-- Where the search finds nothing, no server has the address.
index_of-none :
    (config : ConfigFile) (ss : List Listener)
    → index_of (at_address config) ss ≡ none
    → All (λ t. ¬ SameAddress t (listener_of config)) ss
unfolding index_of listener_of
index_of-none config [] h = tt
index_of-none config (s ∷ ss) h =
    go (at_address config s) refl (index_of (at_address config) ss) refl (index_of-none config ss)
  where
    other : at_address config s ≡ false → ¬ SameAddress s (listener_of config)
    other e (p, q) = ground (arith, ==_iff s.port config.port, equal_iff s.host config.host)

    go :
        (v : Bool)
        → at_address config s ≡ v
        → (o : Option (ℕ × Listener)) → index_of (at_address config) ss ≡ o
        → (index_of (at_address config) ss ≡ none
            → All (λ t. ¬ SameAddress t (listener_of config)) ss)
        → All (λ t. ¬ SameAddress t (listener_of config)) (s ∷ ss)
    go true e o f IH = absurd (cc (rw (e, index_of) at h))
    go false e none f IH = (other e, IH f)
    go false e (some found) f IH = absurd (cc (rw (e, f, index_of) at h))

All-get {ℓ κ} :
    {A : Type ℓ} (P : A → Type κ) (xs : List A) (i : ℕ) (x : A)
    → All P xs
    → get_elem? xs i ≡ some x
    → P x
All-get P [] i x h e = absurd (cc e)
All-get P (y ∷ xs) zero x h e = let f : y ≡ x = cc e in subst P f h.0
All-get P (y ∷ xs) (suc i) x h e = All-get P xs i x h.1 e

All-turn {ℓ κ} :
    {A : Type ℓ} (P Q : A → Type κ) (xs : List A) → All P xs → ((x : A) → P x → Q x) → All Q xs
All-turn P Q [] h k = tt
All-turn P Q (x ∷ xs) h k = (k x h.0, All-turn P Q xs h.1 k)

index_of-get {ℓ} :
    {A : Type ℓ} (p : A → Bool) (xs : List A) (i : ℕ) (x : A)
    → index_of p xs ≡ some (i, x)
    → get_elem? xs i ≡ some x
unfolding index_of
index_of-get p [] i x h = absurd (cc h)
index_of-get {A = A} p (y ∷ xs) i x h = go (p y) refl (index_of p xs) refl (index_of-get p xs)
  where
    go :
        (v : Bool)
        → p y ≡ v
        → (o : Option (ℕ × A)) → index_of p xs ≡ o
        → ((i : ℕ) (x : A) → index_of p xs ≡ some (i, x) → get_elem? xs i ≡ some x)
        → get_elem? (y ∷ xs) i ≡ some x
    go true e o f IH =
        let g : ◌≡◌ {A = Option (ℕ × A)} (some (0, y)) (some (i, x)) = rw (e, index_of) at h in
        let j : 0 ≡ i = cc g in
        let k : y ≡ x = cc g in subst (λ n. get_elem? (y ∷ xs) n ≡ some x) j (ap some k)
    go false e none f IH = absurd (cc (rw (e, f, index_of) at h))
    go false e (some (n, z)) f IH =
        let g : ◌≡◌ {A = Option (ℕ × A)} (some (suc n, z)) (some (i, x)) =
          rw (e, f, index_of) at h in
        let j : suc n ≡ i = cc g in
        let k : z ≡ x = cc g in subst (λ n. get_elem? (y ∷ xs) n ≡ some x) j (IH n z f ∙ ap some k)

AreDistinct-set :
    (ss : List Listener) (i : ℕ) (s t : Listener)
    → get_elem? ss i ≡ some s
    → SameAddress t s
    → AreDistinct ss
    → AreDistinct (set ss i t)
AreDistinct-set [] i s t e a h = absurd (cc e)
AreDistinct-set (x ∷ ss) zero s t e (p, q) h =
    let f : x ≡ s = cc e in
    (
      All-turn (λ u. ¬ SameAddress x u) (λ u. ¬ SameAddress t u) ss h.0
          (λ u k c. k (ap (λ s. s.port) f ∙ sym p ∙ c.0, ap (λ s. s.host) f ∙ sym q ∙ c.1)),
      h.1,
    )
AreDistinct-set (x ∷ ss) (suc i) s t e (p, q) h = (
  All-set (λ u. ¬ SameAddress x u) ss i t h.0
      (λ c. All-get (λ u. ¬ SameAddress x u) ss i s h.0 e (c.0 ∙ p, c.1 ∙ q)),
  AreDistinct-set ss i s t e (p, q) h.1,
)

-- A further setting leaves the address of its server.
extend_server_address :
    (config : ConfigFile) (s t : Listener) → extend_server config s ≡ some t → SameAddress t s
unfolding extend_server
extend_server_address config s t h =
    go (get_idx_server_block s.server_blocks config.server_name) refl
  where
    at_location :
        (found : ℕ × ServerBlock) (o : Option (ℕ × LocationPath))
        → get_idx_server_block s.server_blocks config.server_name ≡ some found
        → get_idx_location_path (found.1).location_paths config.location_path ≡ o
        → SameAddress t s
    at_location found none e f =
        let g = rw (e, f, extend_server) at h in (ground arith, ground arith)
    at_location found (some taken) e f = absurd (cc (rw (e, f, extend_server) at h))

    go :
        (o : Option (ℕ × ServerBlock))
        → get_idx_server_block s.server_blocks config.server_name ≡ o
        → SameAddress t s
    go none e = let g = rw (e, extend_server) at h in (ground arith, ground arith)
    go (some found) e =
        at_location found (get_idx_location_path (found.1).location_paths config.location_path) e
          refl

add_config-AreDistinct :
    (config : ConfigFile) (ss more : List Listener)
    → AreDistinct ss
    → add_config config ss ≡ some more
    → AreDistinct more
unfolding add_config get_idx_server
add_config-AreDistinct config ss more h e = go (index_of (at_address config) ss) refl
  where
    extended :
        (i : ℕ) (s : Listener) (o : Option Listener)
        → index_of (at_address config) ss ≡ some (i, s)
        → extend_server config s ≡ o
        → AreDistinct more
    extended i s none f g = absurd (cc (rw (f, g, add_config, get_idx_server) at e))
    extended i s (some t) f g =
        let k : ◌≡◌ {A = Option (List Listener)} (some (set ss i t)) (some more) =
          rw (f, g, add_config, get_idx_server) at e in
        let l : set ss i t ≡ more = cc k in
        subst AreDistinct l (
          AreDistinct-set ss i s t (index_of-get (at_address config) ss i s f)
            (extend_server_address config s t g) h)

    go : (o : Option (ℕ × Listener)) → index_of (at_address config) ss ≡ o → AreDistinct more
    go none f =
        let k : ◌≡◌ {A = Option (List Listener)} (some (ss ++ (listener_of config ∷ [])))
            (some more) =
          rw (f, add_config, get_idx_server) at e in
        let l : ss ++ (listener_of config ∷ []) ≡ more = cc k in
        subst AreDistinct l
          (AreDistinct-append ss (listener_of config) h (index_of-none config ss f))
    go (some (i, s)) f = extended i s (extend_server config s) f refl

set_servers_loop-AreDistinct :
    (configs : List ConfigFile) (ss : List Listener)
    → AreDistinct ss
    → AreDistinct (set_servers_loop configs ss).0
unfolding set_servers_loop
set_servers_loop-AreDistinct [] ss h = h
set_servers_loop-AreDistinct (config ∷ configs) ss h = elim (Option-cases (add_config config ss)) [
  | inl e ↦ rw (e, set_servers_loop) h
  | inr (more, e) ↦
      rw (e, set_servers_loop)
        (set_servers_loop-AreDistinct configs more (add_config-AreDistinct config ss more h e))
]

-- No two of the servers that are made from the settings have the same port and the same host.
pub set_servers_value-AreDistinct :
    (configs : List ConfigFile) → AreDistinct (set_servers_value configs).0
unfolding set_servers_value
set_servers_value-AreDistinct configs = set_servers_loop-AreDistinct (reverse configs) [] tt
