-- ===== src/Config/Create.antt =====
-- From the lines of the configuration file to the servers: ServerManager::CreateServers of
-- srcs/ServerManager.cpp up to the point where the sockets are opened.
use ok.Base.{List, Bool, true, false, ◌≡◌, subst, if◌then◌else◌, All}
use ok.Text.{Bytes}
use ok.Config.{ConfigFile, Listener}
use ok.Config.Parsed.{Parsed, good, refused, undefined, stuck}
use ok.Config.Files.{Outcome, set_configs}
use ok.Config.Build.{is_overlaped_server, set_servers_value}
use ok.Config.Build.Filled.{IsFilled, set_servers_value-IsFilled}
use ok.Config.Build.Distinct.{AreDistinct, set_servers_value-AreDistinct}

-- The results of SetConfigs and of setServersValue are not looked at, so that the settings in front
-- of an error are used. `refused` is the thrown text "Overlaped port and host".
unfoldable pub servers_of : Outcome → Parsed (List Listener)
unfolding is_overlaped_server set_servers_value
servers_of (configs, undefined) = undefined
servers_of (configs, stuck) = stuck
servers_of (configs, good a) =
    if is_overlaped_server configs then refused else good (set_servers_value configs).0
servers_of (configs, refused) =
    if is_overlaped_server configs then refused else good (set_servers_value configs).0

unfoldable pub create_servers : List Bytes → Parsed (List Listener)
unfolding servers_of set_configs
create_servers gnl = servers_of (set_configs gnl)

abbrev AreReady : List Listener → Type 0
AreReady servers = All IsFilled servers × AreDistinct servers

built :
    (configs : List ConfigFile) (v : Bool) (servers : List Listener)
    → (if v then refused else good (set_servers_value configs).0) ≡ good servers
    → AreReady servers
built configs true servers h = absurd (cc h)
built configs false servers h =
    let e : (set_servers_value configs).0 ≡ servers = cc h in
    subst AreReady e (set_servers_value-IsFilled configs, set_servers_value-AreDistinct configs)

servers_of-AreReady :
    (o : Outcome) (servers : List Listener) → servers_of o ≡ good servers → AreReady servers
unfolding servers_of
servers_of-AreReady (configs, undefined) servers h = absurd (cc h)
servers_of-AreReady (configs, stuck) servers h = absurd (cc h)
servers_of-AreReady (configs, good a) servers h =
    built configs (is_overlaped_server configs) servers h
servers_of-AreReady (configs, refused) servers h =
    built configs (is_overlaped_server configs) servers h

-- The servers that a configuration file gives have a block each, and each block has a location; no
-- two of the servers have the same port and the same host.
pub create_servers-AreReady :
    (gnl : List Bytes) (servers : List Listener)
    → create_servers gnl ≡ good servers
    → All IsFilled servers × AreDistinct servers
unfolding create_servers
create_servers-AreReady gnl servers h = servers_of-AreReady (set_configs gnl) servers h
