-- ===== src/Config/Build/Filled.antt =====
-- The servers that the settings make have no empty list, so that a search in them finds something.
use ok.Base.{
  ℕ, zero, suc, List, [], ◌∷◌, ◌++◌, Bool, true, false, ◌&&◌, Option, none, some, ◌≡◌, refl, subst,
  ◌==◌, set, is_empty, All, All-append,
}
use ok.Text.{equal}
use mathlib.Core.List.{reverse}
use ok.Config.{LocationPath, ServerBlock, Listener, ConfigFile}
use ok.Config.Build.{
  index_of, get_idx_server, get_idx_server_block, get_idx_location_path, location_of, block_of,
  listener_of, push_to_last, extend_server, put_server, add_config, set_servers_loop,
  set_servers_value,
}

abbrev pub IsFilledBlock : ServerBlock → Type 0
IsFilledBlock block = is_empty block.location_paths ≡ false

-- The server has a block, and each block a location.
abbrev pub IsFilled : Listener → Type 0
IsFilled server = (is_empty server.server_blocks ≡ false) × All IsFilledBlock server.server_blocks

is_empty-append {ℓ} : {A : Type ℓ} (xs : List A) (y : A) → is_empty (xs ++ (y ∷ [])) ≡ false
is_empty-append [] y = refl
is_empty-append (x ∷ xs) y = refl

pub All-set {ℓ κ} :
    {A : Type ℓ} (P : A → Type κ) (xs : List A) (i : ℕ) (v : A)
    → All P xs
    → P v
    → All P (set xs i v)
All-set P [] i v h hv = tt
All-set P (x ∷ xs) zero v h hv = (hv, h.1)
All-set P (x ∷ xs) (suc i) v h hv = (h.0, All-set P xs i v h.1 hv)

abbrev Holds {ℓ κ} : {A : Type ℓ} → (A → Type κ) → Option A → Type κ
Holds P none = Unit
Holds P (some x) = P x

Holds-some {ℓ κ} :
    {A : Type ℓ} (P : A → Type κ) {o : Option A} {x : A} → Holds P o → o ≡ some x → P x
Holds-some P h e = subst (Holds P) e h

index_of-All {ℓ κ} :
    {A : Type ℓ} (P : A → Type κ) (p : A → Bool) (xs : List A)
    → All P xs
    → Holds (λ found. P found.1) (index_of p xs)
unfolding index_of
index_of-All P p [] h = tt
index_of-All {A = A} P p (x ∷ xs) h = by_test (p x) (index_of p xs) (index_of-All P p xs h.1)
  where
    by_test :
        (v : Bool) (rest : Option (ℕ × A))
        → Holds (λ found. P found.1) rest
        → Holds {A = ℕ × A}
            (λ found. P found.1)
            (elim v [
              | true ↦ some (0, x)
              | false ↦ elim rest [ none ↦ none | some found ↦ some (suc found.0, found.1) ]
            ])
    by_test true rest r = h.0
    by_test false none r = tt
    by_test false (some found) r = r

push_to_last-filled :
    (l : LocationPath) (blocks : List ServerBlock)
    → is_empty blocks ≡ false
    → All IsFilledBlock blocks
    → (is_empty (push_to_last l blocks) ≡ false) × All IsFilledBlock (push_to_last l blocks)
unfolding push_to_last
push_to_last-filled l [] e h = (e, h)
push_to_last-filled l (b ∷ []) e h = (refl, (is_empty-append b.location_paths l, tt))
push_to_last-filled l (b ∷ c ∷ bs) e h = (refl, (h.0, (push_to_last-filled l (c ∷ bs) refl h.1).1))

extend_server-IsFilled :
    (config : ConfigFile) (server : Listener)
    → IsFilled server
    → Holds IsFilled (extend_server config server)
unfolding extend_server block_of
extend_server-IsFilled config server h =
    by_block (get_idx_server_block server.server_blocks config.server_name)
  where
    by_location :
        (found : Option (ℕ × LocationPath))
        → Holds IsFilled (elim found [
          | none ↦ some (record server {
            server_blocks = push_to_last (location_of config) server.server_blocks;
          })
          | some taken ↦ none
        ])
    by_location none = push_to_last-filled (location_of config) server.server_blocks h.0 h.1
    by_location (some taken) = tt

    by_block :
        (found : Option (ℕ × ServerBlock))
        → Holds IsFilled (elim found [
          | none ↦
              some
                (record server { server_blocks = server.server_blocks ++ (block_of config ∷ []) })
          | some found ↦
              elim (get_idx_location_path (found.1).location_paths config.location_path) [
                | none ↦ some (record server {
                  server_blocks = push_to_last (location_of config) server.server_blocks;
                })
                | some taken ↦ none
              ]
        ])
    by_block none = (
      is_empty-append server.server_blocks (block_of config),
      All-append IsFilledBlock server.server_blocks (block_of config ∷ []) h.1 (refl, tt),
    )
    by_block (some found) =
        by_location (get_idx_location_path (found.1).location_paths config.location_path)

add_config-IsFilled :
    (config : ConfigFile) (servers : List Listener)
    → All IsFilled servers
    → Holds (All IsFilled) (add_config config servers)
unfolding add_config listener_of block_of get_idx_server
add_config-IsFilled config servers h =
    by_server (get_idx_server servers config.port config.host)
      (index_of-All IsFilled (λ s. s.port == config.port && equal s.host config.host) servers h)
  where
    put :
        (i : ℕ) (o : Option Listener)
        → Holds IsFilled o
        → Holds (All IsFilled) (put_server servers i o)
    put i none r = tt
    put i (some server) r = All-set IsFilled servers i server h r

    by_server :
        (found : Option (ℕ × Listener))
        → Holds (λ f. IsFilled f.1) found
        → Holds (All IsFilled) (elim found [
          | none ↦ some (servers ++ (listener_of config ∷ []))
          | some found ↦ put_server servers found.0 (extend_server config found.1)
        ])
    by_server none r =
        All-append IsFilled servers (listener_of config ∷ []) h ((refl, (refl, tt)), tt)
    by_server (some found) r =
        put found.0 (extend_server config found.1) (extend_server-IsFilled config found.1 r)

set_servers_loop-IsFilled :
    (configs : List ConfigFile) (servers : List Listener)
    → All IsFilled servers
    → All IsFilled (set_servers_loop configs servers).0
unfolding set_servers_loop
set_servers_loop-IsFilled [] servers h = h
set_servers_loop-IsFilled (config ∷ configs) servers h =
    by_step (add_config config servers) (add_config-IsFilled config servers h)
      (set_servers_loop-IsFilled configs)
  where
    by_step :
        (o : Option (List Listener))
        → Holds (All IsFilled) o
        → ((more : List Listener)
            → All IsFilled more
            → All IsFilled (set_servers_loop configs more).0)
        → All IsFilled
            (elim o as (λ _. List Listener × Bool) [
              | none ↦ (servers, false)
              | some more ↦ set_servers_loop configs more
            ]).0
    by_step none r k = h
    by_step (some more) r k = k more r

-- The servers that are made from the settings have a block each, and each block a location. This
-- holds also of the servers that are left where a setting is refused.
pub set_servers_value-IsFilled :
    (configs : List ConfigFile) → All IsFilled (set_servers_value configs).0
unfolding set_servers_value
set_servers_value-IsFilled configs = set_servers_loop-IsFilled (reverse configs) [] tt
