-- ===== src/Server/Serve.antt =====
-- One pass of a server over its connections: Server::run of srcs/Server_run.cpp.
pub mod Sockets
pub mod Works
pub mod Requests
pub mod Programs
pub mod Fates
pub mod Passes
use ok.Base.{ℕ, List, [], ◌∷◌, Bool, true, false, Option, none, some, ◌==◌, if◌then◌else◌}
use ok.Text.{Bytes}
use ok.Result.{Result, done, thrown, failed, Act}
use ok.Request.{Request, new_request}
use ok.Response.{Response}
use ok.Server.Site.{Environment, Site, Connection, Change}
use ok.Server.Receive.{Input}
use ok.Server.Cgi.{CgiWorld, execute_cgi}
use ok.Server.Run.{
  FdSet, Loop, fd_set, close_connection, put_connection, run_send, run_recv_and_solve, run_execute,
  has_send_work, has_execute_work, run_accept,
}

-- What happens outside of the program during the pass, by descriptor: how much `write` takes, what
-- arrives, what the calls of executeCGI give, and the client that `accept` gives; and the variables
-- of the server's own environment.
pub record World : Type 0 where
  pub env : Environment
  pub now : ℕ
  pub wrote : ℕ → ℕ
  pub input : ℕ → Input
  pub cgi : ℕ → CgiWorld
  pub own : List Bytes
  pub client : Option (ℕ × Bytes)

-- The server, and the changes to files so far.
abbrev pub Work : Type 0
Work = Loop × List Change

abbrev pub site_of : Work → Connection → Site
site_of (loop, changes) c = record {
  connection = c;
  error_page = loop.error_page;
  changes = changes;
}

-- The connection that was worked on is put back under its key.
abbrev pub put_back : ℕ → Site → Work → Work
put_back key site (loop, changes) = (
  record loop { connections = put_connection key site.connection loop.connections },
  site.changes,
)

abbrev pub closed_at : ℕ → Work → Work
closed_at socket (loop, changes) = (close_connection socket loop, changes)

-- The handler of `run` closes the connection after a std::exception; a thrown `int` would end the
-- program, but the two callees let none through.
abbrev pub sent : ℕ → List Change → Loop × Result (Unit {0}) → Option Work
sent socket changes (loop, done a) = some (loop, changes)
sent socket changes (loop, thrown code) = none
sent socket changes (loop, failed f) = some (close_connection socket loop, changes)

abbrev pub written_to : ℕ → Bool → Work → Work
written_to socket true (loop, changes) =
    (record loop { write_fds = fd_set socket loop.write_fds }, changes)
written_to socket false work = work

abbrev pub received_at : ℕ → ℕ → Work → Site × Result Bool → Option Work
received_at key socket work (site, done ready) =
    some (written_to socket ready (put_back key site work))
received_at key socket work (site, thrown code) = none
received_at key socket work (site, failed f) = some (closed_at socket (put_back key site work))

abbrev pub request_of : Option Request → Request
request_of none = new_request
request_of (some r) = r

-- One round of the loop, for the connection under `key`; `none` is the use of a null pointer. The
-- other connections are not touched, so that a round sees its connection as it was at the start.
unfoldable pub serve : World → ℕ → Connection → Work → Option Work
unfolding has_send_work has_execute_work run_send execute_cgi run_execute run_recv_and_solve
    close_connection fd_set put_connection
serve w key c (loop, changes) =
    if c.socket == loop.socket
    then some (loop, changes)
    else if has_send_work loop.write_copy_fds c
    then elim c.response [
      | none ↦ none
      | some r ↦
          sent c.socket changes
            (run_send (w.wrote c.socket) key (record c { last_request_at = w.now }) r loop)
    ]
    else if has_execute_work c
    then elim c.request [
      | none ↦ none
      | some r ↦ some (
          put_back key
            (run_execute w.env (execute_cgi (w.cgi c.socket) w.env w.own loop.port) r
              (site_of (loop, changes) c))
            (loop, changes))
    ]
    else if loop.read_copy_fds c.socket
    then received_at key c.socket (loop, changes)
        (run_recv_and_solve w.env (w.input c.socket) loop.server_blocks (request_of c.request)
          (site_of (loop, changes) c))
    else some (loop, changes)

unfoldable pub serve_all : World → List (ℕ × Connection) → Work → Option Work
unfolding serve
serve_all w [] work = some work
serve_all w ((key, c) ∷ rest) work = elim (serve w key c work) [
  | none ↦ none
  | some more ↦ serve_all w rest more
]

-- `run`, where the ServerManager has `servers` servers.
unfoldable pub run : World → ℕ → Work → Option Work
unfolding serve_all run_accept
run w servers (loop, changes) = elim (serve_all w loop.connections (loop, changes)) [
  | none ↦ none
  | some more ↦ some (run_accept w.now servers w.client more.0, more.1)
]
