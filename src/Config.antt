-- ===== src/Config.antt =====
-- The configuration: LocationPath, serverBlock and Server of srcs/Server.hpp and Server_parsing.cpp
-- as far as they hold settings, and ConfigFile of srcs/ConfigFile. Two fields of ConfigFile that
-- nothing reads are left out.
pub mod Parsed
pub mod Brackets
pub mod Index
pub mod Directives
pub mod Files
pub mod Create
pub mod Select
pub mod Build
use ok.Base.{ℕ, ◌/◌, List, [], ◌∷◌, Bool, false}
use ok.Base.Int.{ℤ, pos}
use ok.Text.{Bytes, codes}
use ok.FilePath.{FilePath, empty_path, of_string}

pub record LocationPath : Type 0 where
  pub location_path : FilePath
  pub root : FilePath
  pub index_pages : List FilePath
  pub error_page : FilePath
  pub auto_index : Bool
  pub client_max_body_size : ℕ
  pub auth_basic_user_file : FilePath
  pub method : List Bytes
  pub cgi_program_path : List Bytes

pub record ServerBlock : Type 0 where
  pub location_paths : List LocationPath
  pub server_name : Bytes
  pub time_out : ℤ
  pub cgi_extension : List Bytes

-- What a Server keeps of the configuration; its sockets and connections are in `Server.Run`.
pub record Listener : Type 0 where
  pub port : ℕ
  pub host : Bytes
  pub server_blocks : List ServerBlock

pub record ConfigFile : Type 0 where
  pub server_name : Bytes
  pub host : Bytes
  pub port : ℕ
  pub time_out : ℤ
  pub location_path : FilePath
  pub auto_index : Bool
  pub root : FilePath
  pub index_pages : List FilePath
  pub error_page : FilePath
  pub method : List Bytes
  pub cgi_program_path : List Bytes
  pub cgi_extension : List Bytes
  pub auth_basic_user_file : FilePath
  pub client_max_body_size : ℕ

abbrev default_methods : List Bytes
default_methods =
    codes "GET" ∷ codes "HEAD" ∷ codes "PUT" ∷ codes "POST" ∷ codes "DELETE" ∷ codes "OPTIONS" ∷ []

abbrev default_programs : List Bytes
default_programs = codes "/usr/bin/php" ∷ codes "ft_tester/bla_tester" ∷ []

abbrev default_extensions : List Bytes
default_extensions = codes ".bla" ∷ codes ".php" ∷ []

-- LocationPath::LocationPath()
unfoldable pub default_location_path : LocationPath
unfolding of_string
default_location_path = record {
  location_path = empty_path;
  root = empty_path;
  index_pages = of_string (codes "index.html") ∷ [];
  error_page = of_string (codes "default_error.html");
  auto_index = false;
  client_max_body_size = 0;
  auth_basic_user_file = empty_path;
  method = default_methods;
  cgi_program_path = default_programs;
}

-- serverBlock::serverBlock()
unfoldable pub default_server_block : ServerBlock
default_server_block = record {
  location_paths = [];
  server_name = codes "localhost";
  time_out = pos 0;
  cgi_extension = default_extensions;
}

-- Server::Server(ServerManager *)
unfoldable pub default_listener : Listener
default_listener = record { port = 8000; host = codes "0.0.0.0"; server_blocks = [] }

-- ConfigFile::ConfigFile()
unfoldable pub default_config_file : ConfigFile
unfolding of_string
default_config_file = record {
  server_name = codes "localhost";
  host = codes "0.0.0.0";
  port = 8000;
  time_out = pos 0;
  location_path = empty_path;
  auto_index = false;
  root = empty_path;
  index_pages = of_string (codes "index.html") ∷ [];
  error_page = empty_path;
  method = default_methods;
  cgi_program_path = default_programs;
  cgi_extension = default_extensions;
  auth_basic_user_file = empty_path;
  client_max_body_size = 0;
}
