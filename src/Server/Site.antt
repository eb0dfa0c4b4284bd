-- ===== src/Server/Site.antt =====
-- What a Server works on when it answers a request: the Connection of srcs/Connection.hpp, what it
-- reads of its surroundings, and the changes it makes to files. The file system, the clock and the
-- listing of a directory belong to the operating system; one request sees one state of them.
use ok.Base.{ℕ, ◌+◌, List, [], ◌∷◌, Bool, true, false, Option, none, some, ltb, if◌then◌else◌}
use ok.Text.{Bytes}
use ok.Request.{Request}
use ok.Response.{Response}

pub data Status : Type 0 where
  request_ready request_ing cgi_ready cgi_ing send_ready send_ing : Status

-- The time of the last request is in seconds.
pub record Connection : Type 0 where
  pub client_ip : Bytes
  pub client_port : ℕ
  pub socket : ℕ
  pub request : Option Request
  pub response : Option Response
  pub status : Status
  pub last_request_at : ℕ
  pub target_uri : Bytes
  pub server_name : Bytes
  pub cgi_program_path : Bytes

unfoldable pub new_connection : ℕ → Bytes → ℕ → ℕ → Connection
new_connection client_fd client_ip client_port now = record {
  client_ip = client_ip;
  client_port = client_port;
  socket = client_fd;
  request = none;
  response = none;
  status = request_ready;
  last_request_at = now;
  target_uri = [];
  server_name = [];
  cgi_program_path = [];
}

-- KEEP_ALIVE_LIMIT
abbrev keep_alive_limit : ℕ
keep_alive_limit = 10

unfoldable pub is_keep_connection : ℕ → Connection → Bool
is_keep_connection now connection =
    if ltb (connection.last_request_at + keep_alive_limit) now then false else true

-- What `stat` tells of a path; `missing` carries errno.
pub data Stat : Type 0 where
  regular directory special : Stat
  missing : ℕ → Stat

-- What `open` with O_WRONLY | O_TRUNC does: a descriptor above 2, or errno.
pub data Opened : Type 0 where
  opened : Opened
  refused : ℕ → Opened

pub record Environment : Type 0 where
  pub cwd : Bytes
  pub now : Bytes
  pub stat : Bytes → Stat
  -- do `opendir` on a directory and `open` on a regular file succeed?
  pub opens : Bytes → Bool
  pub content : Bytes → Bytes
  pub default_page : Bytes
  pub modified_at : Bytes → Bytes
  -- the text of .htpasswd, unless it cannot be read
  pub htpasswd : Option Bytes
  pub open_to_write : Bytes → Opened
  pub can_create : Bytes → Bool
  -- what `readdir` gives for a folder, in its order
  pub entries : Bytes → List Bytes

pub data Change : Type 0 where
  wrote : Bytes → Bytes → Change
  removed : Bytes → Change

-- The connection that is served, the server's mErrorPage, and the changes, the last one first.
pub record Site : Type 0 where
  pub connection : Connection
  pub error_page : Bytes
  pub changes : List Change

abbrev pub enoent : ℕ
enoent = 2

abbrev pub eisdir : ℕ
eisdir = 21

unfoldable pub is_file_path : Environment → Bytes → Bool
is_file_path env path = elim (env.stat path) [ regular ↦ true | _ ↦ false ]

unfoldable pub is_dir_path : Environment → Bytes → Bool
is_dir_path env path = elim (env.stat path) [ directory ↦ true | _ ↦ false ]

-- ft::access, started with errno 0: whether it returns 0, and errno afterwards. `closedir(NULL)`
-- sets EINVAL and `close(-1)` sets EBADF, over what opendir and open have set.
unfoldable pub access : Environment → Bytes → Bool × ℕ
access env path = elim (env.stat path) [
  | directory ↦ if env.opens path then (true, 0) else (false, 22)
  | regular ↦ if env.opens path then (true, 0) else (false, 9)
  | special ↦ (false, 0)
  | missing errno ↦ (false, errno)
]

abbrev pub set_status : Status → Site → Site
set_status status site = record site { connection = record (site.connection) { status = status } }

abbrev pub respond : Response → Site → Site
respond response site = record site {
  connection = record (site.connection) { response = some response };
}

abbrev pub change : Change → Site → Site
change c site = record site { changes = c ∷ site.changes }
