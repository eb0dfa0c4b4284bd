-- ===== src/Server/Manager/Spared.antt =====
-- What closeOldConnection and serviceUnavailable leave of the connections.
use ok.Base.{
  if_holds, ℕ, suc, ◌≤◌, List, [], ◌∷◌, ◌++◌, append_assoc, Bool, true, Option, none, some, ◌≡◌,
  ◌≢◌, ◌⊎◌, inl, inr, refl, sym, subst, ◌∙◌, arith, ◌==◌, ==_iff, ==_refl, length,
}
use ok.Server.Site.{Environment, Connection}
use ok.Server.Run.{Loop, close_connection}
use ok.Server.Run.Table.{IsTable, IsBelow, IsBelow-mono, IsBelow-append, IsTable-mono, Has}
use ok.Server.Serve.Fates.{IsShut, closed-IsShut}
use ok.Server.Serve.Passes.{Left, closed-Left, stays-Left, IsSound, Left-IsSound}
use ok.Server.Manager.{
  Writes, status_message, close_old_loop, close_old_connection, unavailable_loop,
  service_unavailable, stays_open,
}
use ok.Server.Manager.Closing.{retained, is_left, close_old_connection-retained}

retained-IsTable :
    (p : ℕ × Connection → Bool) (from : ℕ) (es : List (ℕ × Connection))
    → IsTable from es
    → IsTable from (retained p es)
retained-IsTable p from [] t = tt
retained-IsTable p from ((k, c) ∷ es) (h, o, t) =
    if_holds (IsTable from) (p (k, c)) (λ _. (h, o, retained-IsTable p (suc k) es t))
      (λ _.
        IsTable-mono from (suc k) (retained p es) (omega arith) (retained-IsTable p (suc k) es t))

length-retained :
    (p : ℕ × Connection → Bool) (es : List (ℕ × Connection)) → length (retained p es) ≤ length es
length-retained p [] = omega arith
length-retained p (e ∷ es) = ground (arith, length-retained p es)

retained-Has :
    (p : ℕ × Connection → Bool) (s from : ℕ) (es : List (ℕ × Connection))
    → ((k : ℕ) (c : Connection) → c.socket ≡ s → p (k, c) ≡ true)
    → IsTable from es
    → Has s es
    → Has s (retained p es)
retained-Has p s from [] f t h = absurd h
retained-Has p s from ((k, c) ∷ es) f (e, o, t) h = go h (retained-Has p s (suc k) es f t)
  where
    go : (k ≡ s) ⊎ Has s es → (Has s es → Has s (retained p es)) → Has s (retained p ((k, c) ∷ es))
    go (inl g) IH = rw (f k c (e ∙ g)) (inl g)
    go (inr g) IH = if_holds (Has s) (p (k, c)) (λ _. inr (IH g)) (λ _. IH g)

close_old_loop-socket :
    (env : Environment) (now : ℕ) (rest : List (ℕ × Connection)) (state : Loop × Writes)
    → (close_old_loop env now rest state).0.socket ≡ state.0.socket
unfolding close_old_loop close_connection
close_old_loop-socket env now [] state = refl
close_old_loop-socket env now ((fd, c) ∷ rest) (l, w) =
    close_old_loop-socket env now rest _
    ∙ if_holds (λ (s : Loop × Writes). s.0.socket ≡ l.socket)
        (stays_open now l.socket l.read_copy_fds fd c) (λ _. refl) (λ _. refl)

pub close_old_connection-IsSound :
    (env : Environment) (now servers : ℕ) (l : Loop)
    → IsSound servers l
    → IsSound servers (close_old_connection env now l).0
unfolding close_old_connection
close_old_connection-IsSound env now servers l h =
    let left = is_left env now l.socket l.read_copy_fds l.error_page in
    Left-IsSound servers l (close_old_connection env now l).0 h (
      retained left l.connections,
      close_old_loop-socket env now l.connections (l, []),
      (close_old_connection-retained env now l h.table).0,
      retained-IsTable left 0 l.connections h.table,
      length-retained left l.connections,
      retained-Has left l.socket 0 l.connections (λ k c e. rw (e, ==_refl l.socket) refl) h.table,
    )

abbrev Spares :
    List (ℕ × Connection) → ℕ → ℕ → List (ℕ × Connection) → Option (Loop × Writes) → Type 0
Spares before from socket rest none = Unit
Spares before from socket rest (some state) = Left before from socket rest state.0

unavailable_loop-Spares :
    (env : Environment) (rest : List (ℕ × Connection)) (from socket : ℕ)
    (before : List (ℕ × Connection)) (l : Loop) (w : Writes)
    → IsTable from rest
    → IsBelow from before
    → l.connections ≡ before ++ rest
    → l.socket ≡ socket
    → Spares before from socket rest (unavailable_loop env rest (l, w))
unfolding unavailable_loop
unavailable_loop-Spares env [] from socket before l w t b e s = ([], s, e, tt, omega arith, λ h. h)
unavailable_loop-Spares env ((k, c) ∷ []) from socket before l w (h, o, t) b e s =
    if_holds (Spares before from socket ((k, c) ∷ [])) (c.socket == l.socket)
      (λ _. ((k, c) ∷ [], s, e, (h, o, t), omega arith, λ h. h)) (λ _. tt)
unavailable_loop-Spares env ((k, c) ∷ (k', d) ∷ rest) from socket before l w (h, o, t) b e s =
    let below = IsBelow-mono from k before o b in
    let IH = λ (before : List (ℕ × Connection)) (l : Loop) (w : Writes).
      unavailable_loop-Spares env ((k', d) ∷ rest) (suc k) socket before l w t in
    let later = (k', d) ∷ rest in
    let told = w ++ ((k', status_message env l.error_page d 503) ∷ []) in
    if_holds
      (λ (state : Loop × Writes).
        Spares before from socket ((k, c) ∷ later) (unavailable_loop env later state))
      (c.socket == l.socket)
      (λ _. stays (unavailable_loop env later (l, w)) (
        IH (before ++ ((k, c) ∷ [])) l w (IsBelow-append k before c below h)
          (e ∙ sym (append_assoc before ((k, c) ∷ []) later)) s))
      (λ v.
        let other : k ≢ socket = λ f. ground (arith, ==_iff c.socket l.socket) in
        shut (closed-IsShut before later k socket below c.socket c l h other (s, e, h)) other told
          (IH before))
  where
    stays :
        (m : Option (Loop × Writes))
        → Spares (before ++ ((k, c) ∷ [])) (suc k) socket ((k', d) ∷ rest) m
        → Spares before from socket ((k, c) ∷ (k', d) ∷ rest) m
    stays none p = tt
    stays (some state) p = stays-Left before from k socket c c ((k', d) ∷ rest) state.0 o h p

    closed :
        (m : Option (Loop × Writes))
        → k ≢ socket
        → Spares before (suc k) socket ((k', d) ∷ rest) m
        → Spares before from socket ((k, c) ∷ (k', d) ∷ rest) m
    closed none n p = tt
    closed (some state) n p = closed-Left before from k socket c ((k', d) ∷ rest) state.0 o n p

    shut :
        IsShut before
          ((k', d) ∷ rest)
          k
          socket
          (IsBelow-mono from k before o b)
          (close_connection c.socket l)
        → k ≢ socket
        → (told : Writes)
        → ((l : Loop) (w : Writes)
            → IsBelow (suc k) before
            → l.connections ≡ before ++ ((k', d) ∷ rest)
            → l.socket ≡ socket
            → Spares before
                (suc k)
                socket
                ((k', d) ∷ rest)
                (unavailable_loop env ((k', d) ∷ rest) (l, w)))
        → Spares before from socket
            ((k, c) ∷ (k', d) ∷ rest)
            (unavailable_loop env ((k', d) ∷ rest) (close_connection c.socket l, told))
    shut (p, q, n) other told IH =
        closed (unavailable_loop env ((k', d) ∷ rest) (close_connection c.socket l, told)) other (
          IH (close_connection c.socket l) told
            (IsBelow-mono k (suc k) before (omega arith) (IsBelow-mono from k before o b)) q p)

pub service_unavailable-IsSound :
    (env : Environment) (servers : ℕ) (l l' : Loop) (writes : Writes)
    → IsSound servers l
    → service_unavailable env l ≡ some (l', writes)
    → IsSound servers l'
unfolding service_unavailable
service_unavailable-IsSound env servers l l' writes h e =
    go (unavailable_loop env l.connections (l, []))
      (unavailable_loop-Spares env l.connections 0 l.socket [] l [] h.table tt refl refl) e
  where
    go :
        (m : Option (Loop × Writes))
        → Spares [] 0 l.socket l.connections m
        → m ≡ some (l', writes)
        → IsSound servers l'
    go none p e = absurd (cc e)
    go (some (x, w)) p e =
        let g : x ≡ l' = cc e in subst (IsSound servers) g (Left-IsSound servers l x h p)
