-- ===== src/Server/Serve/Fates.antt =====
-- What a round of `run` does to the connection it is for, and to no other one.
use ok.Base.{
  if_holds, ℕ, List, ◌∷◌, ◌++◌, Bool, true, false, Option, none, some, ◌≡◌, ◌≢◌, ◌⊎◌, inl, inr, ap,
  ◌∙◌, arith, leb, ◌==◌, ==_iff, if◌then◌else◌,
}
use ok.Result.{Result, done, thrown, failed}
use ok.Request.{Request}
use ok.Response.{Response}
use ok.Server.Site.{Site, Connection, Change, Status, send_ready, send_ing}
use ok.Result.{io_error}
use ok.Server.Run.{
  fd_clr, Loop, erase_socket, close_connection, put_connection, store, prepare_send, advance_send,
  end_send, finish_send, run_send, run_recv_and_solve, run_execute, has_send_work, has_execute_work,
}
use ok.Server.Run.Table.{IsBelow, erase_socket-middle, put_connection-middle}
use ok.Server.Cgi.{execute_cgi}
use ok.Server.Serve.{World, Work, site_of, put_back, sent, received_at, request_of, serve}
use ok.Server.Serve.Sockets.{StaysOn}
use ok.Server.Serve.Requests.{run_recv_and_solve-KeepsSocket, run_execute-socket}
use ok.Server.Serve.Programs.{execute_cgi-KeepsSocket}

module _ (before rest : List (ℕ × Connection)) (key socket : ℕ) (below : IsBelow key before) where
  -- The connection stands between the others, which are as they were.
  abbrev pub Sits : Connection → Loop → Type 0
  Sits d l = (l.socket ≡ socket) × (l.connections ≡ before ++ ((key, d) ∷ rest)) × (d.socket ≡ key)

  abbrev pub IsShut : Loop → Type 0
  IsShut l = (l.socket ≡ socket) × (l.connections ≡ before ++ rest) × (key ≢ socket)

  -- It is closed, or it stays with some state.
  abbrev pub Fate : Loop → Type 0
  Fate l = IsShut l ⊎ ((d : Connection) × Sits d l)

  pub closed-IsShut :
      (n : ℕ) (d : Connection) (l : Loop)
      → n ≡ key
      → key ≢ socket
      → Sits d l
      → IsShut (close_connection n l)
  unfolding close_connection
  closed-IsShut n d l e h (p, q, r) =
      (p, (λ i. erase_socket (e i) (q i)) ∙ erase_socket-middle key before rest d below r, h)

  stored-Sits : (c d : Connection) (l : Loop) → d.socket ≡ key → Sits c l → Sits d (store key d l)
  stored-Sits c d l h (p, q, r) =
      (p, ap (put_connection key d) q ∙ put_connection-middle key before rest c d below, h)

  finish_send-Fate :
      (old c : Connection) (r : Response) (l : Loop)
      → key ≢ socket
      → Sits old l
      → c.socket ≡ key
      → Fate (finish_send key c r l)
  unfolding finish_send end_send
  finish_send-Fate old c r l h (p, q, o) s =
      let cleared = record l {
        connections = put_connection key (end_send c) l.connections;
        write_fds = fd_clr c.socket l.write_fds;
        write_copy_fds = fd_clr c.socket l.write_copy_fds;
      } in
      let sits : Sits (end_send c) cleared = (
        p,
        ap (put_connection key (end_send c)) q
            ∙ put_connection-middle key before rest old (end_send c) below,
        s,
      ) in
      if_holds Fate (leb 400 r.status_code)
        (λ _. inl (closed-IsShut c.socket (end_send c) cleared s h sits))
        (λ _. inr (end_send c, sits))

  -- A result after which the connection is closed if it is an exception.
  abbrev Sent : Loop × Result (Unit {0}) → Type 0
  Sent (l, done a) = Fate l
  Sent (l, thrown n) = Unit
  Sent (l, failed f) = (d : Connection) × Sits d l

  run_send-Sent :
      (count : ℕ) (old c : Connection) (r : Response) (l : Loop)
      → key ≢ socket
      → Sits old l
      → c.socket ≡ key
      → Sent (run_send count key c r l)
  unfolding run_send
  run_send-Sent count old c r l h s e = by_status c.status
    where
      by_status :
          (t : Status)
          → Sent (elim t as (λ _. Loop × Result (Unit {0})) [
            | send_ready ↦ (
              store key (record c { response = some (prepare_send r); status = send_ing }) l,
              done tt,
            )
            | send_ing ↦
                if count == 0
                then (l, failed io_error)
                else let sent = advance_send count r in
                  if sent.http_message_length == 0
                  then (finish_send key c sent l, done tt)
                  else (store key (record c { response = some sent }) l, done tt)
            | _ ↦ (finish_send key c r l, done tt)
          ])
      by_status send_ready = inr (
        _,
        stored-Sits old (record c { response = some (prepare_send r); status = send_ing }) l e s,
      )
      by_status send_ing =
          if_holds Sent (count == 0) (λ _. (old, s))
            (λ _.
              if_holds Sent ((advance_send count r).http_message_length == 0)
                (λ _. finish_send-Fate old c (advance_send count r) l h s e)
                (λ _.
                  inr (
                    _,
                    stored-Sits old (record c { response = some (advance_send count r) }) l e s,
                  )))
      by_status _ = finish_send-Fate old c r l h s e

  -- What a round may give: nothing, or a fate.
  abbrev pub Fares : Option Work → Type 0
  Fares none = Unit
  Fares (some work) = Fate work.0

  sent-Fares :
      (n : ℕ) (changes : List Change) (m : Loop × Result (Unit {0}))
      → n ≡ key
      → key ≢ socket
      → Sent m
      → Fares (sent n changes m)
  sent-Fares n changes (l, done a) e h s = s
  sent-Fares n changes (l, thrown k) e h s = tt
  sent-Fares n changes (l, failed f) e h (d, s) = inl (closed-IsShut n d l e h s)

  put_back-Sits :
      (c : Connection) (site : Site) (l : Loop) (changes : List Change)
      → site.connection.socket ≡ key
      → Sits c l
      → Sits site.connection (put_back key site (l, changes)).0
  put_back-Sits c site l changes e (p, q, r) = (
    p,
    ap (put_connection key site.connection) q
        ∙ put_connection-middle key before rest c site.connection below,
    e,
  )

  received_at-Fares :
      (n : ℕ) (c : Connection) (l : Loop) (changes : List Change) (m : Site × Result Bool)
      → n ≡ key
      → key ≢ socket
      → Sits c l
      → StaysOn key m
      → Fares (received_at key n (l, changes) m)
  received_at-Fares n c l changes (site, done true) e h s k =
      inr (site.connection, put_back-Sits c site l changes k s)
  received_at-Fares n c l changes (site, done false) e h s k =
      inr (site.connection, put_back-Sits c site l changes k s)
  received_at-Fares n c l changes (site, thrown code) e h s k = tt
  received_at-Fares n c l changes (site, failed f) e h s k = inl (
      closed-IsShut n site.connection (put_back key site (l, changes)).0 e h
        (put_back-Sits c site l changes k s))

  -- A round for the connection under `key`: it is closed, unless it is the server's own, or it stays
  -- under its socket; all other connections are as they were.
  pub serve-Fares :
      (w : World) (c : Connection) (l : Loop) (changes : List Change)
      → Sits c l
      → Fares (serve w key c (l, changes))
  unfolding serve
  serve-Fares w c l changes s =
      if_holds Fares (c.socket == l.socket) (λ _. inr (c, s))
        (λ own.
          let other : key ≢ socket = λ e. ground (arith, ==_iff c.socket l.socket) in
          if_holds Fares (has_send_work l.write_copy_fds c) (λ _. by_response other c.response)
            (λ _.
              if_holds Fares (has_execute_work c) (λ _. by_request c.request)
                (λ _.
                  if_holds Fares (l.read_copy_fds c.socket)
                    (λ _.
                      received_at-Fares c.socket c l changes
                        (run_recv_and_solve w.env (w.input c.socket) l.server_blocks
                          (request_of c.request) (site_of (l, changes) c))
                        s.2 other s
                        (run_recv_and_solve-KeepsSocket w.env (w.input c.socket) l.server_blocks
                            (request_of c.request) (site_of (l, changes) c)
                          ∙ s.2))
                    (λ _. inr (c, s)))))
    where
      by_response :
          key ≢ socket
          → (o : Option Response)
          → Fares (elim o as (λ _. Option Work) [
            | none ↦ none
            | some r ↦
                sent c.socket changes
                  (run_send (w.wrote c.socket) key (record c { last_request_at = w.now }) r l)
          ])
      by_response h none = tt
      by_response h (some r) =
          let dated = record c { last_request_at = w.now } in
          sent-Fares c.socket changes (run_send (w.wrote c.socket) key dated r l) s.2 h
            (run_send-Sent (w.wrote c.socket) c dated r l h s s.2)

      by_request :
          (o : Option Request)
          → Fares (elim o as (λ _. Option Work) [
            | none ↦ none
            | some r ↦ some (
                put_back key
                  (run_execute w.env
                    (execute_cgi (w.cgi c.socket) w.env w.own l.port)
                    r
                    (site_of (l, changes) c))
                  (l, changes))
          ])
      by_request none = tt
      by_request (some r) =
          let act = execute_cgi (w.cgi c.socket) w.env w.own l.port in
          let site = run_execute w.env act r (site_of (l, changes) c) in
          inr (
            site.connection,
            put_back-Sits c site l changes
                (run_execute-socket w.env act r (site_of (l, changes) c)
                    (execute_cgi-KeepsSocket (w.cgi c.socket) w.env w.own l.port)
                  ∙ s.2)
                s,
          )
