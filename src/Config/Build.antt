-- ===== src/Config/Build.antt =====
-- From the parsed settings to the servers: ServerManager::setServersValue, its three searches, and
-- isOverlapedServer, all of srcs/ServerManager.cpp.
pub mod Overlaps
pub mod Filled
pub mod Distinct
use mathlib.Core.List.{reverse}
use ok.Base.{
  ℕ, suc, ◌+◌, List, [], ◌∷◌, ◌++◌, Bool, true, false, ◌&&◌, Option, none, some, ◌==◌,
  if◌then◌else◌, set, any,
}
use ok.Text.{Bytes, equal}
use ok.FilePath.{FilePath, equal_path, get_size}
use ok.Config.{LocationPath, ServerBlock, Listener, ConfigFile}

-- Where the first element that passes the test stands, and the element: the loops of getIdxServer,
-- getIdxServerBlock and getIdxLocationPath, whose -1 is `none`.
unfoldable pub index_of {ℓ} : {A : Type ℓ} → (A → Bool) → List A → Option (ℕ × A)
index_of p [] = none
index_of p (x ∷ xs) = elim (p x) [
  | true ↦ some (0, x)
  | false ↦ elim (index_of p xs) [ none ↦ none | some found ↦ some (suc found.0, found.1) ]
]

unfoldable pub get_idx_server : List Listener → ℕ → Bytes → Option (ℕ × Listener)
unfolding index_of
get_idx_server servers port host = index_of (λ s. s.port == port && equal s.host host) servers

unfoldable pub get_idx_server_block : List ServerBlock → Bytes → Option (ℕ × ServerBlock)
unfolding index_of
get_idx_server_block blocks name = index_of (λ b. equal b.server_name name) blocks

unfoldable pub get_idx_location_path : List LocationPath → FilePath → Option (ℕ × LocationPath)
unfolding index_of equal_path
get_idx_location_path locations path = index_of (λ l. equal_path l.location_path path) locations

unfoldable pub location_of : ConfigFile → LocationPath
location_of config = record {
  location_path = config.location_path;
  root = config.root;
  index_pages = config.index_pages;
  error_page = config.error_page;
  auto_index = config.auto_index;
  client_max_body_size = config.client_max_body_size;
  auth_basic_user_file = config.auth_basic_user_file;
  method = config.method;
  cgi_program_path = config.cgi_program_path;
}

-- A block with its first location.
unfoldable pub block_of : ConfigFile → ServerBlock
unfolding location_of
block_of config = record {
  location_paths = location_of config ∷ [];
  server_name = config.server_name;
  time_out = config.time_out;
  cgi_extension = config.cgi_extension;
}

unfoldable pub listener_of : ConfigFile → Listener
unfolding block_of
listener_of config = record {
  port = config.port;
  host = config.host;
  server_blocks = block_of config ∷ [];
}

-- `mServerBlocks[size - 1].mlocationPaths.push_back`
unfoldable pub push_to_last : LocationPath → List ServerBlock → List ServerBlock
push_to_last l [] = []
push_to_last l (b ∷ []) = record b { location_paths = b.location_paths ++ (l ∷ []) } ∷ []
push_to_last l (b ∷ c ∷ bs) = b ∷ push_to_last l (c ∷ bs)

-- A further setting of a server that is there: a new block, or a location. The location goes to the
-- last block, whichever block has the name. `none` is the result -1.
unfoldable pub extend_server : ConfigFile → Listener → Option Listener
unfolding get_idx_server_block get_idx_location_path block_of location_of push_to_last
extend_server config server = elim (get_idx_server_block server.server_blocks config.server_name) [
  | none ↦ some (record server { server_blocks = server.server_blocks ++ (block_of config ∷ []) })
  | some found ↦ elim (get_idx_location_path (found.1).location_paths config.location_path) [
    | none ↦
        some
          (record server { server_blocks = push_to_last (location_of config) server.server_blocks })
    | some taken ↦ none
  ]
]

abbrev put_server : List Listener → ℕ → Option Listener → Option (List Listener)
put_server servers i none = none
put_server servers i (some server) = some (set servers i server)

unfoldable pub add_config : ConfigFile → List Listener → Option (List Listener)
unfolding get_idx_server listener_of extend_server
add_config config servers = elim (get_idx_server servers config.port config.host) [
  | none ↦ some (servers ++ (listener_of config ∷ []))
  | some found ↦ put_server servers found.0 (extend_server config found.1)
]

-- The loop takes the settings from the back, here already turned round. The servers as they are
-- left, and whether the result is 1: where it is -1, the servers made so far stay.
unfoldable pub set_servers_loop : List ConfigFile → List Listener → List Listener × Bool
unfolding add_config
set_servers_loop [] servers = (servers, true)
set_servers_loop (config ∷ configs) servers = elim (add_config config servers) [
  | none ↦ (servers, false)
  | some more ↦ set_servers_loop configs more
]

unfoldable pub set_servers_value : List ConfigFile → List Listener × Bool
unfolding set_servers_loop
set_servers_value configs = set_servers_loop (reverse configs) []

-- Host, port and server name: OverlapedValue and its `==`.
abbrev pub OverlapedValue : Type 0
OverlapedValue = Bytes × ℕ × Bytes

abbrev pub overlaped_value : ConfigFile → OverlapedValue
overlaped_value config = (config.host, config.port, config.server_name)

unfoldable pub same_value : OverlapedValue → OverlapedValue → Bool
unfolding equal
same_value (host, port, name) (host', port', name') =
    equal host host' && (port == port' && equal name name')

unfoldable pub overlaped_loop : List ConfigFile → List OverlapedValue → Bool
unfolding same_value get_size
overlaped_loop [] server_list = false
overlaped_loop (config ∷ configs) server_list =
    let temp = overlaped_value config in
    let own = get_size config.location_path == 0 in
    let rest = overlaped_loop configs (if own then server_list ++ (temp ∷ []) else server_list) in
    if own && any (λ s. same_value s temp) server_list then true else rest

unfoldable pub is_overlaped_server : List ConfigFile → Bool
unfolding overlaped_loop
is_overlaped_server configs = overlaped_loop configs []
