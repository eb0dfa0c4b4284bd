-- ===== src/Server/Manager.antt =====
-- What the ServerManager does with the connections of its servers between two calls of select:
-- closeOldConnection, serviceUnavailable, updateMaxFd and a round of RunServers, of
-- srcs/ServerManager.cpp.
pub mod Closing
pub mod Spared
pub mod Rounds
pub mod Unavailable
use ok.Base.{
  ℕ, ◌+◌, List, [], ◌∷◌, ◌++◌, Bool, true, false, ◌&&◌, not, Option, none, some, ◌==◌,
  if◌then◌else◌, length,
}
use ok.Base.Int.{ℤ, pos, negsuc}
use ok.Text.{Bytes}
use ok.Response.{Response, make_http_message}
use ok.Server.Site.{Environment, Connection, is_keep_connection}
use ok.Server.Answer.{status_response}
use ok.Server.Run.{FdSet, Loop, close_connection, put_connection}

-- What is written to descriptors, in order.
abbrev pub Writes : Type 0
Writes = List (ℕ × Bytes)

-- The text of the answer with a status code.
unfoldable pub status_message : Environment → Bytes → Connection → ℕ → Bytes
unfolding status_response make_http_message
status_message env error_page c code =
    make_http_message (status_response env error_page c.request code)

abbrev pub has_request : Connection → Bool
has_request c = elim c.request [ none ↦ false | some r ↦ true ]

-- Is the connection left open?
unfoldable pub stays_open : ℕ → ℕ → FdSet → ℕ → Connection → Bool
unfolding is_keep_connection
stays_open now socket read_copy_fds fd c =
    if c.socket == socket
    then true
    else not (not (is_keep_connection now c) && not (read_copy_fds fd))

-- The loop of closeOldConnection. A connection that has sent no part of a request is told so.
unfoldable pub close_old_loop :
    Environment → ℕ → List (ℕ × Connection) → Loop × Writes → Loop × Writes
unfolding stays_open status_message close_connection
close_old_loop env now [] state = state
close_old_loop env now ((fd, c) ∷ rest) (loop, writes) = close_old_loop env now rest (
    if stays_open now loop.socket loop.read_copy_fds fd c then (loop, writes) else (
      close_connection c.socket loop,
      if has_request c
          then writes
          else writes ++ ((fd, status_message env loop.error_page c 408) ∷ []),
    ))

unfoldable pub close_old_connection : Environment → ℕ → Loop → Loop × Writes
unfolding close_old_loop
close_old_connection env now loop = close_old_loop env now loop.connections (loop, [])

-- The loop of serviceUnavailable: `it` already stands on the next connection when the answer is
-- made, so that the next one gets it, and the current one is closed. `none` is the use of the map's
-- end.
unfoldable pub unavailable_loop :
    Environment → List (ℕ × Connection) → Loop × Writes → Option (Loop × Writes)
unfolding status_message close_connection
unavailable_loop env [] state = some state
unavailable_loop env ((fd, c) ∷ []) (loop, writes) =
    if c.socket == loop.socket then some (loop, writes) else none
unavailable_loop env ((fd, c) ∷ (fd', d) ∷ rest) (loop, writes) =
    unavailable_loop env ((fd', d) ∷ rest) (
      if c.socket == loop.socket then (loop, writes) else (
        close_connection c.socket loop,
        writes ++ ((fd', status_message env loop.error_page d 503) ∷ []),
      ))

unfoldable pub service_unavailable : Environment → Loop → Option (Loop × Writes)
unfolding unavailable_loop
service_unavailable env loop = unavailable_loop env loop.connections (loop, [])

-- gTotalClients is a signed number.
unfoldable pub update_max_fd : ℕ → Loop → Loop
update_max_fd servers loop = elim loop.total_clients [
  | pos n ↦ if n == 0 then record loop { max_fd = 2 + servers } else loop
  | negsuc n ↦ loop
]
