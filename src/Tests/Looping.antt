-- ===== src/Tests/Looping.antt =====
-- The rounds of a server: Server/Manager and the descriptor sets.
use ok.Base.{◌≤◌, [], ◌∷◌, map, false, none, some, ◌≡◌, ◌≢◌, refl, arith}
use ok.Text.{codes}
use ok.Base.Int.{pos}
use ok.Config.{Listener}
use ok.Server.Site.{Environment, missing, refused, enoent, new_connection}
use ok.Server.Run.{Loop, init_fd_max}
use ok.Server.Run.Table.{IsTable}
use ok.Server.Serve.Passes.{IsSound}
use ok.Server.Manager.{close_old_connection, service_unavailable}
use ok.Server.Manager.Closing.{retained, is_left, is_told, told, close_old_connection-retained}
use ok.Server.Manager.Unavailable.{service_unavailable-none}
use ok.Server.Manager.Rounds.{started, others, here, next, Rounds-IsSound}
use ok.Utils.Descriptors
use ok.Utils.Descriptors.{FdWords, get_vector_changed_fd}
use ok.Server.Run.{fd_set, fd_clr}
use ok.Server.Run.Views.{IsView, members, fd_sets-IsView, fd_zero-IsView}
use ok.Server.Manager.Rounds.{no_fds}

-- A system without files.
abbrev bare : Environment
bare = record {
  cwd = codes "/srv";
  now = codes "now";
  stat = λ path. missing enoent;
  opens = λ path. false;
  content = λ path. [];
  default_page = codes "error";
  modified_at = λ path. codes "then";
  htpasswd = none;
  open_to_write = λ path. refused enoent;
  can_create = λ path. false;
  entries = λ path. [];
}

abbrev http : Listener
http = record { port = 80; host = []; server_blocks = [] }

-- A server under the descriptor 3, and clients under 4 and 5; the first of them has been silent for
-- longer than ten seconds.
abbrev loop : Loop
loop = record (started 3 100 http) {
  connections =
      (3, new_connection 3 [] 80 100)
      ∷ (4, new_connection 4 [] 80 100)
      ∷ (5, new_connection 5 [] 80 195)
      ∷ [];
}

loop_closes :
    (close_old_connection bare 200 loop).0.connections
    ≡ (3, new_connection 3 [] 80 100) ∷ (5, new_connection 5 [] 80 195) ∷ []
unfolding close_old_connection started new_connection
loop_closes = refl

loop-IsTable : IsTable 0 loop.connections
unfolding new_connection
loop-IsTable = (refl, omega arith, (refl, omega arith, (refl, omega arith, tt)))

close_old_connection-retained_example :
    let result = close_old_connection bare 200 loop in
    ((result.0).connections
      ≡ retained (is_left bare 200 loop.socket loop.read_copy_fds loop.error_page) loop.connections)
    × (result.1
        ≡ map (told bare 200 loop.socket loop.read_copy_fds loop.error_page) (
            retained
              (is_told bare 200 loop.socket loop.read_copy_fds loop.error_page)
              loop.connections))
close_old_connection-retained_example = close_old_connection-retained bare 200 loop loop-IsTable

five_ne_three : (new_connection 5 [] 80 195).socket ≢ (started 3 100 http).socket
unfolding new_connection started
five_ne_three = ground arith

service_unavailable-none_example : service_unavailable bare loop ≡ none
service_unavailable-none_example =
    service_unavailable-none bare loop
      ((3, new_connection 3 [] 80 100) ∷ (4, new_connection 4 [] 80 100) ∷ []) 5
      (new_connection 5 [] 80 195) refl five_ne_three

abbrev two_rounds : Loop
two_rounds = record (started 3 100 http) { total_clients = pos 1 }

one_of_four : 4 ≤ init_fd_max
one_of_four = omega arith

Rounds-IsSound_example : IsSound 4 two_rounds
Rounds-IsSound_example =
    Rounds-IsSound 3 100 4 http two_rounds (omega arith) one_of_four
      (next here (others (started 3 100 http) two_rounds refl refl))

fd_sets-IsView_example :
    ((q : FdWords) × (Descriptors.fd_set 40 Descriptors.fd_zero ≡ some q)
      × IsView q (fd_set 40 no_fds))
    × ((q : FdWords) × (Descriptors.fd_clr 40 Descriptors.fd_zero ≡ some q)
        × IsView q (fd_clr 40 no_fds))
    × (get_vector_changed_fd Descriptors.fd_zero ≡ some (members no_fds 1024 0))
fd_sets-IsView_example = fd_sets-IsView Descriptors.fd_zero no_fds 40 (omega arith) fd_zero-IsView
