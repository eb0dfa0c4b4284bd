-- ===== src/Server/Run.antt =====
-- The loop of a server over its connections, srcs/Server_run.cpp, with closeConnection and
-- getUnuseConnectionFd of srcs/Server.cpp. executeCGI is an argument.
pub mod Answering
pub mod Sending
pub mod Connections
pub mod Table
pub mod Views
use ok.Base.{
  ℕ, zero, suc, ◌+◌, ◌-◌, ◌/◌, List, [], ◌∷◌, Bool, true, false, ◌&&◌, not, Option, none, some, ltb,
  leb, ◌==◌, if◌then◌else◌, length,
}
use ok.Base.Int.{ℤ, pos, negsuc}
use ok.Text.{Bytes, slice}
use ok.Result.{Result, done, thrown, failed, io_error, Act}
use ok.Request.{Request, cgi_program, complete}
use ok.Config.{ServerBlock}
use ok.Response.{Response}
use ok.Server.Site.{
  Environment, Site, Connection, request_ready, cgi_ready, cgi_ing, send_ready, send_ing,
  set_status, respond,
}
use ok.Server.Answer.{status_response}
use ok.Server.Site.{new_connection, is_keep_connection}
use ok.Server.Receive.{Input, recv_request}
use ok.Server.Solve.{solve_request}
use ok.Response.{make_http_message}

-- A descriptor set of select, as the test for its members.
abbrev pub FdSet : Type 0
FdSet = ℕ → Bool

unfoldable pub fd_set : ℕ → FdSet → FdSet
fd_set fd p n = if n == fd then true else p n

unfoldable pub fd_clr : ℕ → FdSet → FdSet
fd_clr fd p n = if n == fd then false else p n

-- What a Server keeps besides its settings, and what it uses of the ServerManager. The connections
-- stand in the order of their keys, the descriptors they were accepted with.
pub record Loop : Type 0 where
  pub socket : ℕ
  pub port : ℕ
  pub server_blocks : List ServerBlock
  pub error_page : Bytes
  pub connections : List (ℕ × Connection)
  pub read_fds : FdSet
  pub read_copy_fds : FdSet
  pub write_fds : FdSet
  pub write_copy_fds : FdSet
  pub max_fd : ℕ
  pub total_clients : ℤ

-- The second test is made where the key is not the socket.
unfoldable pub get_unuse_connection_fd : ℕ → FdSet → List (ℕ × Connection) → Option ℕ
unfolding is_keep_connection
get_unuse_connection_fd now read_copy_fds [] = none
get_unuse_connection_fd now read_copy_fds ((fd, c) ∷ rest) =
    let later = get_unuse_connection_fd now read_copy_fds rest in
    if c.socket == fd
    then later
    else if not (read_copy_fds c.socket) && not (is_keep_connection now c)
    then some c.socket
    else later

-- `erase` of the first connection with the socket.
unfoldable pub erase_socket : ℕ → List (ℕ × Connection) → List (ℕ × Connection)
erase_socket fd [] = []
erase_socket fd ((key, c) ∷ rest) =
    let later = erase_socket fd rest in if c.socket == fd then rest else (key, c) ∷ later

abbrev minus_one : ℤ → ℤ
minus_one (pos zero) = negsuc 0
minus_one (pos (suc n)) = pos n
minus_one (negsuc n) = negsuc (suc n)

abbrev plus_one : ℤ → ℤ
plus_one (pos n) = pos (suc n)
plus_one (negsuc zero) = pos 0
plus_one (negsuc (suc n)) = negsuc n

unfoldable pub close_connection : ℕ → Loop → Loop
unfolding fd_clr erase_socket
close_connection fd loop = record loop {
  read_fds = fd_clr fd loop.read_fds;
  read_copy_fds = fd_clr fd loop.read_copy_fds;
  write_fds = fd_clr fd loop.write_fds;
  write_copy_fds = fd_clr fd loop.write_copy_fds;
  total_clients = minus_one loop.total_clients;
  connections = erase_socket fd loop.connections;
}

-- `mConnections[key] = connection`
unfoldable pub put_connection : ℕ → Connection → List (ℕ × Connection) → List (ℕ × Connection)
put_connection key c [] = (key, c) ∷ []
put_connection key c ((k, d) ∷ rest) =
    let later = put_connection key c rest in
    if key == k
    then (key, c) ∷ rest
    else if ltb key k
    then (key, c) ∷ (k, d) ∷ rest
    else (k, d) ∷ later

-- Connection::SEND_READY
unfoldable pub prepare_send : Response → Response
unfolding make_http_message
prepare_send r = record r {
  http_message = make_http_message r;
  http_message_length = length (make_http_message r);
}

-- What is handed to `write`.
unfoldable pub outgoing : Response → Bytes
outgoing r = slice r.http_message r.seek r.http_message_length

-- Connection::SEND_ING, where `write` has taken `count` bytes.
unfoldable pub advance_send : ℕ → Response → Response
advance_send count r = record r {
  seek = r.seek + count;
  http_message_length = r.http_message_length - count;
}

-- The end of a response: the connection is ready for the next request.
unfoldable pub end_send : Connection → Connection
end_send c = record c { request = none; response = none; status = request_ready }

unfoldable pub finish_send : ℕ → Connection → Response → Loop → Loop
unfolding fd_clr put_connection end_send close_connection
finish_send key c r loop =
    let cleared = record loop {
      connections = put_connection key (end_send c) loop.connections;
      write_fds = fd_clr c.socket loop.write_fds;
      write_copy_fds = fd_clr c.socket loop.write_copy_fds;
    } in
    if leb 400 r.status_code then close_connection c.socket cleared else cleared

abbrev pub store : ℕ → Connection → Loop → Loop
store key c loop = record loop { connections = put_connection key c loop.connections }

-- runSend, where `write` returns `count`, with 0 for its errors too. `write` returns no more than it
-- was given.
unfoldable pub run_send : ℕ → ℕ → Connection → Response → Act Loop (Unit {0})
unfolding prepare_send advance_send finish_send put_connection
run_send count key c r loop = elim c.status [
  | send_ready ↦
      (store key (record c { response = some (prepare_send r); status = send_ing }) loop, done tt)
  | send_ing ↦
      if count == 0
      then (loop, failed io_error)
      else let sent = advance_send count r in
        if sent.http_message_length == 0
        then (finish_send key c sent loop, done tt)
        else (store key (record c { response = some sent }) loop, done tt)
  | _ ↦ (finish_send key c r loop, done tt)
]

-- A thrown status code becomes the answer; any other exception is printed.
unfoldable pub caught : Environment → Site × Result (Unit {0}) → Site
unfolding status_response
caught env (site, done x) = site
caught env (site, thrown code) =
    set_status send_ready
      (respond (status_response env site.error_page site.connection.request code) site)
caught env (site, failed f) = site

abbrev pub with_request : Request → Site → Site
with_request r site = record site { connection = record (site.connection) { request = some r } }

unfoldable pub solve_complete : Environment → List ServerBlock → Request → Site → Site
unfolding caught solve_request
solve_complete env blocks r site = elim r.phase [
  | complete ↦ caught env (solve_request env blocks r site)
  | _ ↦ site
]

abbrev pub received :
    Environment → List ServerBlock → Site → Request × Result Bool → Site × Result Bool
received env blocks site (r, done ready_to_write) =
    (solve_complete env blocks r (with_request r site), done ready_to_write)
received env blocks site (r, thrown code) =
    (caught env (with_request r site, thrown code), done true)
received env blocks site (r, failed f) = (with_request r site, failed f)

-- runRecvAndSolve. The result says whether the socket is put into the write set.
unfoldable pub run_recv_and_solve : Environment → Input → List ServerBlock → Request → Act Site Bool
unfolding recv_request caught solve_complete
run_recv_and_solve env input blocks r site = received env blocks site (recv_request input r)

-- runExecute
unfoldable pub run_execute : Environment → Act Site (Unit {0}) → Request → Site → Site
unfolding caught
run_execute env execute_cgi r site = elim r.uri_type [
  | cgi_program ↦ caught env (execute_cgi site)
  | _ ↦ set_status send_ready site
]

unfoldable pub has_send_work : FdSet → Connection → Bool
has_send_work write_copy_fds c = elim c.request [
  | none ↦ false
  | some r ↦ elim c.status [
    | send_ready ↦ write_copy_fds c.socket
    | send_ing ↦ write_copy_fds c.socket
    | _ ↦ false
  ]
]

unfoldable pub has_execute_work : Connection → Bool
has_execute_work c = elim c.status [ cgi_ready ↦ true | cgi_ing ↦ true | _ ↦ false ]

-- acceptNewConnection, where `accept` gave a descriptor and the client's address.
unfoldable pub accept_new_connection : ℕ → ℕ → Bytes → Loop → Loop
unfolding fd_set put_connection new_connection
accept_new_connection now client_socket client_ip loop = record loop {
  read_fds = fd_set client_socket loop.read_fds;
  read_copy_fds = fd_set client_socket loop.read_copy_fds;
  connections =
      put_connection client_socket (new_connection client_socket client_ip loop.port now)
        loop.connections;
  total_clients = plus_one loop.total_clients;
  max_fd = if ltb loop.max_fd client_socket then client_socket else loop.max_fd;
}

-- INIT_FD_MAX, and the end of `run`: a new connection, if the servers' share of it is not used up.
abbrev pub init_fd_max : ℕ
init_fd_max = 1023

abbrev pub accepted : ℕ → Option (ℕ × Bytes) → Loop → Loop
accepted now none loop = loop
accepted now (some (fd, ip)) loop = accept_new_connection now fd ip loop

unfoldable pub run_accept : ℕ → ℕ → Option (ℕ × Bytes) → Loop → Loop
unfolding get_unuse_connection_fd close_connection accept_new_connection
run_accept now servers client loop =
    if not (loop.read_copy_fds loop.socket)
    then loop
    else if leb (init_fd_max / servers) (length loop.connections)
    then elim (get_unuse_connection_fd now loop.read_copy_fds loop.connections) [
      | none ↦ loop
      | some fd ↦ accepted now client (close_connection fd loop)
    ]
    else accepted now client loop
