-- ===== src/Server/Run/Connections.antt =====
-- The connections of a server: where they stand, and how many there are.
use ok.Base.{
  if_holds, ℕ, suc, ◌/◌, ◌≤◌, List, [], ◌∷◌, false, not, Option, none, some, ◌≡◌, refl, arith, ltb,
  leb, ◌==◌, ==_iff, length, All,
}
use ok.Text.{Bytes}
use ok.Server.Site.{Connection}
use ok.Server.Site.{new_connection}
use ok.Server.Run.{
  FdSet, Loop, get_unuse_connection_fd, close_connection, put_connection, accept_new_connection,
  init_fd_max, accepted, run_accept,
}

-- Every connection stands under its own socket.
abbrev pub IsKeyed : List (ℕ × Connection) → Type 0
IsKeyed = All (λ e. (e.1).socket ≡ e.0)

-- Where every connection stands under its own socket, the search for one that is not in use finds
-- none, however old the connections are.
pub get_unuse_connection_fd-none :
    (now : ℕ) (read_copy_fds : FdSet) (connections : List (ℕ × Connection))
    → IsKeyed connections
    → get_unuse_connection_fd now read_copy_fds connections ≡ none
unfolding get_unuse_connection_fd
get_unuse_connection_fd-none now fds [] h = refl
get_unuse_connection_fd-none now fds ((fd, c) ∷ rest) h =
    rw ((==_iff c.socket fd).1 h.0) (get_unuse_connection_fd-none now fds rest h.1)

-- Connections that stand under their sockets, and no more than a number of them.
abbrev Fits : ℕ → List (ℕ × Connection) → Type 0
Fits n connections = IsKeyed connections × (length connections ≤ n)

put_connection-Fits :
    (c : Connection) (connections : List (ℕ × Connection))
    → IsKeyed connections
    → Fits (suc (length connections)) (put_connection c.socket c connections)
unfolding put_connection
put_connection-Fits c [] h = ((refl, tt), omega arith)
put_connection-Fits c ((k, d) ∷ rest) h =
    if_holds (Fits (suc (suc (length rest)))) (c.socket == k) (λ _. ((refl, h.1), omega arith))
      (λ _.
        if_holds (Fits (suc (suc (length rest)))) (ltb c.socket k) (λ _. ((refl, h), omega arith))
          (λ _. let (keyed, bound) = put_connection-Fits c rest h.1 in ((h.0, keyed), omega arith)))

-- The connections stay under their sockets, and there are never more of them than the share that
-- INIT_FD_MAX leaves to each server.
pub run_accept-IsKeyed :
    (now servers : ℕ) (client : Option (ℕ × Bytes)) (loop : Loop)
    → IsKeyed loop.connections
    → length loop.connections ≤ init_fd_max / servers
    → IsKeyed (run_accept now servers client loop).connections
      × (length (run_accept now servers client loop).connections ≤ init_fd_max / servers)
unfolding run_accept accept_new_connection new_connection
run_accept-IsKeyed now servers client loop h b =
    if_holds (λ (l : Loop). Fits (init_fd_max / servers) l.connections)
      (not (loop.read_copy_fds loop.socket)) (λ _. (h, b))
      (λ _.
        if_holds (λ (l : Loop). Fits (init_fd_max / servers) l.connections)
          (leb (init_fd_max / servers) (length loop.connections))
          (λ _.
            full (get_unuse_connection_fd now loop.read_copy_fds loop.connections)
              (get_unuse_connection_fd-none now loop.read_copy_fds loop.connections h))
          (λ e. taken client e))
  where
    full :
        (o : Option ℕ)
        → o ≡ none
        → Fits
            (init_fd_max / servers)
            (elim o as (λ _. Loop) [
              | none ↦ loop
              | some fd ↦ accepted now client (close_connection fd loop)
            ]).connections
    full none e = (h, b)
    full (some fd) e = absurd (cc e)

    taken :
        (client : Option (ℕ × Bytes))
        → leb (init_fd_max / servers) (length loop.connections) ≡ false
        → Fits (init_fd_max / servers) (accepted now client loop).connections
    taken none e = (h, b)
    taken (some (fd, ip)) e =
        let (keyed, bound) =
          put_connection-Fits (new_connection fd ip loop.port now) loop.connections h in
        (keyed, ground arith)
