-- ===== src/Server/Manager/Rounds.antt =====
-- The loop of ServerManager::RunServers as steps of one of its servers, and what holds of every
-- state that it can reach.
use ok.Base.{
  ℕ, ◌/◌, ◌≤◌, ◌<◌, List, [], ◌∷◌, false, ◌&&◌, some, ◌≡◌, inl, refl, sym, ap, subst, arith, length,
}
use ok.Server.Site.{Environment, Change}
use ok.Base.Int.{pos}
use ok.Config.{Listener}
use ok.Server.Site.{new_connection}
use ok.Server.Run.{FdSet, Loop, init_fd_max, fd_set}
use ok.Server.Run.Table.{IsTable, Has}
use ok.Server.Serve.{World, run}
use ok.Server.Serve.Passes.{IsSound, run-IsSound}
use ok.Server.Manager.{Writes, close_old_connection, service_unavailable, update_max_fd}
use ok.Server.Manager.Spared.{close_old_connection-IsSound, service_unavailable-IsSound}

-- The copies of the descriptor sets after `select`: those of the watched descriptors that are ready.
unfoldable pub selected : ℕ → FdSet → FdSet → Loop → Loop
unfolding update_max_fd
selected servers readable writable l = record (update_max_fd servers l) {
  read_copy_fds = λ n. l.read_fds n && readable n;
  write_copy_fds = λ n. l.write_fds n && writable n;
}

abbrev pub no_fds : FdSet
no_fds n = false

-- A round: `select` fails and leaves the copies in some state, or finds nothing, or finds some
-- descriptors ready. A round that is not defined is no step. The descriptor sets and the counters
-- belong to the ServerManager, so that the other servers change them.
pub data Round (servers : ℕ) : Loop → Loop → Type 0 where
  broken :
      (env : Environment) (readable writable : FdSet) (l l' : Loop) (writes : Writes)
      → service_unavailable env (selected servers readable writable l) ≡ some (l', writes)
      → Round servers l l'
  idle :
      (env : Environment) (now : ℕ) (l l' : Loop)
      → (close_old_connection env now (selected servers no_fds no_fds l)).0 ≡ l'
      → Round servers l l'
  busy :
      (w : World) (readable writable : FdSet) (l l' : Loop) (changes changes' : List Change)
      → run w servers (selected servers readable writable l, changes) ≡ some (l', changes')
      → Round servers l l'
  others :
      (l l' : Loop) → l'.socket ≡ l.socket → l'.connections ≡ l.connections → Round servers l l'

-- The first state of a server: the Server as it was made, setServers, which puts its own socket
-- among the connections, and the beginning of RunServers, which watches it.
unfoldable pub started : ℕ → ℕ → Listener → Loop
unfolding fd_set new_connection
started socket now server = record {
  socket = socket;
  port = server.port;
  server_blocks = server.server_blocks;
  error_page = [];
  connections = (socket, new_connection socket server.host server.port now) ∷ [];
  read_fds = fd_set socket no_fds;
  read_copy_fds = no_fds;
  write_fds = no_fds;
  write_copy_fds = no_fds;
  max_fd = init_fd_max;
  total_clients = pos 0;
}

pub data Rounds (servers : ℕ) (l : Loop) : Loop → Type 0 where
  here : Rounds servers l l
  next : {m n : Loop} → Rounds servers l m → Round servers m n → Rounds servers l n

selected-IsSound :
    (servers : ℕ) (readable writable : FdSet) (l : Loop)
    → IsSound servers l
    → IsSound servers (selected servers readable writable l)
unfolding selected update_max_fd
selected-IsSound servers readable writable l h = record {
  table = subst (IsTable 0) (sym (kept l).0) h.table;
  own =
      subst (λ s. Has s (update_max_fd servers l).connections) (sym (kept l).1)
        (subst (Has l.socket) (sym (kept l).0) h.own);
  bounded = omega (arith, ap (length {0}) (kept l).0, h.bounded);
}
  where
    kept :
        (l : Loop)
        → ((update_max_fd servers l).connections ≡ l.connections)
          × ((update_max_fd servers l).socket ≡ l.socket)
    kept l = ground arith

Round-IsSound :
    {servers : ℕ} {l l' : Loop} → Round servers l l' → IsSound servers l → IsSound servers l'
Round-IsSound (broken env readable writable l l' writes e) h =
    service_unavailable-IsSound env _ _ l' writes (selected-IsSound _ readable writable l h) e
Round-IsSound {servers} (idle env now l l' e) h =
    subst (IsSound servers) e
      (close_old_connection-IsSound env now servers _ (selected-IsSound servers no_fds no_fds l h))
Round-IsSound (busy w readable writable l l' changes changes' e) h =
    run-IsSound w _ _ l' changes changes' (selected-IsSound _ readable writable l h) e
Round-IsSound {servers} (others l l' e f) h = record {
  table = subst (IsTable 0) (sym f) h.table;
  own = subst (λ s. Has s l'.connections) (sym e) (subst (Has l.socket) (sym f) h.own);
  bounded = omega (arith, ap (length {0}) f, h.bounded);
}

IsSound-Rounds :
    {servers : ℕ} {l l' : Loop} → IsSound servers l → Rounds servers l l' → IsSound servers l'
IsSound-Rounds h here = h
IsSound-Rounds h (next r s) = Round-IsSound s (IsSound-Rounds h r)

share : (servers : ℕ) → 0 < servers → servers ≤ 1023 → 1 ≤ 1023 / servers
share servers h k = grind arith

started-IsSound :
    (socket now servers : ℕ) (server : Listener)
    → 0 < servers
    → servers ≤ init_fd_max
    → IsSound servers (started socket now server)
unfolding started new_connection
started-IsSound socket now servers server h k = record {
  table = (refl, omega arith, tt);
  own = inl refl;
  bounded = share servers h k;
}

-- With up to INIT_FD_MAX servers, every state that one of them can reach has its connections in
-- order: they stand under their own sockets, which ascend, the server's own socket is among them,
-- and there are no more than INIT_FD_MAX divided by the number of servers.
pub Rounds-IsSound :
    (socket now servers : ℕ) (server : Listener) (l : Loop)
    → 0 < servers
    → servers ≤ init_fd_max
    → Rounds servers (started socket now server) l
    → IsSound servers l
Rounds-IsSound socket now servers server l h k r =
    IsSound-Rounds (started-IsSound socket now servers server h k) r
