-- ===== src/Server/Manager/Unavailable.antt =====
-- serviceUnavailable does not get past the last connection.
use ok.Base.{
  ℕ, List, [], ◌∷◌, ◌++◌, Bool, true, false, none, ◌≡◌, ◌≢◌, refl, ap, ◌∙◌, arith, ◌==◌, ==_iff,
  if◌then◌else◌,
}
use ok.Server.Site.{Environment, Connection}
use ok.Server.Run.{Loop, close_connection}
use ok.Server.Manager.{Writes, status_message, unavailable_loop, service_unavailable}

same_socket :
    (v : Bool) (fd socket : ℕ) (state closed : Loop × Writes)
    → (state.0).socket ≡ socket
    → (closed.0).socket ≡ socket
    → (if v then state else closed).0.socket ≡ socket
same_socket true fd socket state closed h k = h
same_socket false fd socket state closed h k = k

unavailable_loop-none :
    (env : Environment) (before : List (ℕ × Connection)) (fd socket : ℕ) (c : Connection)
    (state : Loop × Writes)
    → (c.socket == socket) ≡ false
    → (state.0).socket ≡ socket
    → unavailable_loop env (before ++ ((fd, c) ∷ [])) state ≡ none
unfolding unavailable_loop close_connection
unavailable_loop-none env [] fd socket c (l, w) h e = rw (e, h) refl
unavailable_loop-none env ((k, d) ∷ []) fd socket c (l, w) h e =
    unavailable_loop-none env [] fd socket c _ h (
      same_socket (d.socket == l.socket) k socket (l, w)
        (close_connection d.socket l, w ++ ((fd, status_message env l.error_page c 503) ∷ [])) e e)
unavailable_loop-none env ((k, d) ∷ (k', d') ∷ before) fd socket c (l, w) h e =
    unavailable_loop-none env ((k', d') ∷ before) fd socket c _ h (
      same_socket (d.socket == l.socket) k socket (l, w)
        (close_connection d.socket l, w ++ ((k', status_message env l.error_page d' 503) ∷ [])) e e)

-- Where the last of the connections is not the server's own socket, serviceUnavailable uses the end
-- of the map as a connection.
pub service_unavailable-none :
    (env : Environment) (loop : Loop) (before : List (ℕ × Connection)) (fd : ℕ) (c : Connection)
    → loop.connections ≡ before ++ ((fd, c) ∷ [])
    → c.socket ≢ loop.socket
    → service_unavailable env loop ≡ none
unfolding service_unavailable
service_unavailable-none env loop before fd c e h =
    let f : (c.socket == loop.socket) ≡ false = ground (arith, ==_iff c.socket loop.socket) in
    ap (λ es. unavailable_loop env es (loop, [])) e
    ∙ unavailable_loop-none env before fd loop.socket c (loop, []) f refl
