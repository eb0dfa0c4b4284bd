-- ===== src/Server/Serve/Passes.antt =====
-- A pass of `run` over all connections of a server.
use ok.Base.{
  if_holds, ℕ, suc, ◌/◌, ◌≤◌, List, [], ◌∷◌, ◌++◌, append_assoc, not, Option, none, some, ◌≡◌, ◌≢◌,
  ◌⊎◌, inl, inr, refl, sym, ap, subst, ◌∙◌, arith, leb, length,
}
use ok.Text.{Bytes}
use ok.Server.Site.{Connection, Change, new_connection}
use ok.Server.Run.{Loop, put_connection, init_fd_max, accept_new_connection, accepted, run_accept}
use ok.Server.Run.Connections.{IsKeyed, get_unuse_connection_fd-none, run_accept-IsKeyed}
use ok.Server.Run.Table.{
  IsTable, IsBelow, IsBelow-mono, IsBelow-append, IsTable-mono, Has, put_connection-IsTable,
  put_connection-Has,
}
use ok.Server.Serve.{World, Work, serve, serve_all, run}
use ok.Server.Serve.Fates.{Fares, serve-Fares}

-- The connections from a number on, after a pass over those in `rest`.
abbrev pub Left : List (ℕ × Connection) → ℕ → ℕ → List (ℕ × Connection) → Loop → Type 0
Left before from socket rest l =
    (out : List (ℕ × Connection)) × (l.socket ≡ socket)
    × (l.connections ≡ before ++ out)
    × IsTable from out
    × (length out ≤ length rest)
    × (Has socket rest → Has socket out)

abbrev Passes : List (ℕ × Connection) → ℕ → ℕ → List (ℕ × Connection) → Option Work → Type 0
Passes before from socket rest none = Unit
Passes before from socket rest (some work) = Left before from socket rest work.0

-- What is left of the later connections, put together with what has become of the first.
pub closed-Left :
    (before : List (ℕ × Connection)) (from k socket : ℕ) (c : Connection)
    (rest : List (ℕ × Connection)) (l : Loop)
    → from ≤ k
    → k ≢ socket
    → Left before (suc k) socket rest l
    → Left before from socket ((k, c) ∷ rest) l
closed-Left before from k socket c rest l h n (out, p, q, t, b, k') =
    (out, p, q, IsTable-mono from (suc k) out (omega arith) t, omega arith, λ e. still e)
  where
    still : (k ≡ socket) ⊎ Has socket rest → Has socket out
    still (inl e) = absurd (n e)
    still (inr e) = k' e

pub stays-Left :
    (before : List (ℕ × Connection)) (from k socket : ℕ) (c d : Connection)
    (rest : List (ℕ × Connection)) (l : Loop)
    → from ≤ k
    → d.socket ≡ k
    → Left (before ++ ((k, d) ∷ [])) (suc k) socket rest l
    → Left before from socket ((k, c) ∷ rest) l
stays-Left before from k socket c d rest l h e (out, p, q, t, b, k') = (
  (k, d) ∷ out,
  p,
  q ∙ append_assoc before ((k, d) ∷ []) out,
  (e, h, t),
  omega arith,
  λ e. still e,
)
  where
    still : (k ≡ socket) ⊎ Has socket rest → (k ≡ socket) ⊎ Has socket out
    still (inl e) = inl e
    still (inr e) = inr (k' e)

serve_all-Passes :
    (w : World) (rest : List (ℕ × Connection)) (from socket : ℕ) (before : List (ℕ × Connection))
    (l : Loop) (changes : List Change)
    → IsTable from rest
    → IsBelow from before
    → l.connections ≡ before ++ rest
    → l.socket ≡ socket
    → Passes before from socket rest (serve_all w rest (l, changes))
unfolding serve_all
serve_all-Passes w [] from socket before l changes t b e s = ([], s, e, tt, omega arith, λ h. h)
serve_all-Passes w ((k, c) ∷ rest) from socket before l changes (h, o, t) b e s =
    let below = IsBelow-mono from k before o b in
    go (serve w k c (l, changes)) (serve-Fares before rest k socket below w c l changes (s, e, h))
      (λ before l changes. serve_all-Passes w rest (suc k) socket before l changes t)
  where
    closed :
        (m : Option Work)
        → k ≢ socket
        → Passes before (suc k) socket rest m
        → Passes before from socket ((k, c) ∷ rest) m
    closed none n p = tt
    closed (some work) n p = closed-Left before from k socket c rest work.0 o n p

    stays :
        (d : Connection) (m : Option Work)
        → d.socket ≡ k
        → Passes (before ++ ((k, d) ∷ [])) (suc k) socket rest m
        → Passes before from socket ((k, c) ∷ rest) m
    stays d none f p = tt
    stays d (some work) f p = stays-Left before from k socket c d rest work.0 o f p

    go :
        (m : Option Work)
        → Fares before rest k socket (IsBelow-mono from k before o b) m
        → ((before : List (ℕ × Connection)) (l : Loop) (changes : List Change)
            → IsBelow (suc k) before
            → l.connections ≡ before ++ rest
            → l.socket ≡ socket
            → Passes before (suc k) socket rest (serve_all w rest (l, changes)))
        → Passes before from socket
            ((k, c) ∷ rest)
            (elim m as (λ _. Option Work) [ none ↦ none | some more ↦ serve_all w rest more ])
    go none f IH = tt
    go (some (l', ch)) (inl (p, q, n)) IH = closed (serve_all w rest (l', ch)) n (
        IH before l' ch
          (IsBelow-mono k (suc k) before (omega arith) (IsBelow-mono from k before o b)) q p)
    go (some (l', ch)) (inr (d, (p, q, f))) IH = stays d (serve_all w rest (l', ch)) f (
        IH (before ++ ((k, d) ∷ [])) l' ch
          (IsBelow-append k before d (IsBelow-mono from k before o b) f)
          (q ∙ sym (append_assoc before ((k, d) ∷ []) rest)) p)

-- The connections stand under their sockets in ascending order, the server's own among them, and
-- there are no more than the server's share.
pub record IsSound (servers : ℕ) (l : Loop) : Type 0 where
  pub table : IsTable 0 l.connections
  pub own : Has l.socket l.connections
  pub bounded : length l.connections ≤ init_fd_max / servers

pub IsTable-IsKeyed : (from : ℕ) (es : List (ℕ × Connection)) → IsTable from es → IsKeyed es
IsTable-IsKeyed from [] t = tt
IsTable-IsKeyed from ((k, c) ∷ es) (h, o, t) = (h, IsTable-IsKeyed (suc k) es t)

pub Left-IsSound :
    (servers : ℕ) (l l' : Loop)
    → IsSound servers l
    → Left [] 0 l.socket l.connections l'
    → IsSound servers l'
Left-IsSound servers l l' h (out, p, q, t, b, k) = record {
  table = subst (IsTable 0) (sym q) t;
  own = subst (λ s. Has s l'.connections) (sym p) (subst (Has l.socket) (sym q) (k h.own));
  bounded = omega (arith, ap (length {0}) q, h.bounded);
}

-- What accepting a connection does, or refusing to.
Accepts : ℕ → Loop → Loop → Type 0
Accepts servers l l' =
    (l' ≡ l)
    ⊎ ((d : Connection) × (l'.socket ≡ l.socket)
        × (l'.connections ≡ put_connection d.socket d l.connections))

accepted-Accepts :
    (servers now : ℕ) (client : Option (ℕ × Bytes)) (l : Loop)
    → Accepts servers l (accepted now client l)
unfolding Accepts accept_new_connection new_connection
accepted-Accepts servers now none l = inl refl
accepted-Accepts servers now (some (fd, ip)) l = inr (new_connection fd ip l.port now, refl, refl)

run_accept-Accepts :
    (now servers : ℕ) (client : Option (ℕ × Bytes)) (l : Loop)
    → IsKeyed l.connections
    → Accepts servers l (run_accept now servers client l)
unfolding Accepts run_accept
run_accept-Accepts now servers client l h =
    if_holds (Accepts servers l) (not (l.read_copy_fds l.socket)) (λ _. inl refl)
      (λ _.
        if_holds (Accepts servers l) (leb (init_fd_max / servers) (length l.connections))
          (λ _. rw (get_unuse_connection_fd-none now l.read_copy_fds l.connections h) (inl refl))
          (λ _. accepted-Accepts servers now client l))

run_accept-IsSound :
    (now servers : ℕ) (client : Option (ℕ × Bytes)) (l : Loop)
    → IsSound servers l
    → IsSound servers (run_accept now servers client l)
unfolding Accepts
run_accept-IsSound now servers client l h =
    let keyed = IsTable-IsKeyed 0 l.connections h.table in
    go (run_accept now servers client l) (run_accept-Accepts now servers client l keyed)
      (run_accept-IsKeyed now servers client l keyed h.bounded).1
  where
    go :
        (l' : Loop)
        → Accepts servers l l'
        → length l'.connections ≤ init_fd_max / servers
        → IsSound servers l'
    go l' (inl e) b = subst (IsSound servers) (sym e) h
    go l' (inr (d, p, q)) b = record {
      table =
          subst (IsTable 0) (sym q)
            (put_connection-IsTable 0 d.socket d l.connections (omega arith) refl h.table);
      own =
          subst (λ s. Has s l'.connections) (sym p)
            (subst (Has l.socket) (sym q)
              (put_connection-Has l.socket d.socket d l.connections h.own));
      bounded = b;
    }

-- A pass of `run` keeps the connections in order, under their sockets and within the server's
-- share, and the server's own socket among them.
pub run-IsSound :
    (w : World) (servers : ℕ) (l l' : Loop) (changes changes' : List Change)
    → IsSound servers l
    → run w servers (l, changes) ≡ some (l', changes')
    → IsSound servers l'
unfolding run
run-IsSound w servers l l' changes changes' h e =
    go (serve_all w l.connections (l, changes))
      (serve_all-Passes w l.connections 0 l.socket [] l changes h.table tt refl refl) e
  where
    go :
        (m : Option Work)
        → Passes [] 0 l.socket l.connections m
        → elim m as (λ _. Option Work) [
          | none ↦ none
          | some more ↦ some (run_accept w.now servers w.client more.0, more.1)
        ]
          ≡ some (l', changes')
        → IsSound servers l'
    go none p e = absurd (cc e)
    go (some (x, ch)) p e =
        let f : ◌≡◌ {A = Option Work} (some (run_accept w.now servers w.client x, ch))
            (some (l', changes')) =
          e in
        let g : run_accept w.now servers w.client x ≡ l' = cc f in
        subst (IsSound servers) g
          (run_accept-IsSound w.now servers w.client x (Left-IsSound servers l x h p))
