-- ===== src/Server/Run/Table.antt =====
-- The connections as std::map keeps them: under their sockets, which ascend.
use ok.Base.{
  if_holds, ℕ, suc, ◌≤◌, ◌<◌, List, [], ◌∷◌, ◌++◌, false, ◌≡◌, ◌⊎◌, inl, inr, refl, sym, ap, subst,
  ◌∙◌, arith, ltb, ◌==◌, ==_iff, ==_refl, All, All-append,
}
use ok.Server.Site.{Connection}
use ok.Server.Run.{erase_socket, put_connection}

-- The keys ascend from a number on, and every connection stands under its own socket.
abbrev pub IsTable : ℕ → List (ℕ × Connection) → Type 0
IsTable from [] = Unit
IsTable from ((k, c) ∷ rest) = (c.socket ≡ k) × (from ≤ k) × IsTable (suc k) rest

abbrev pub IsBelow : ℕ → List (ℕ × Connection) → Type 0
IsBelow k = All (λ e. ((e.1).socket ≡ e.0) × (e.0 < k))

pub IsBelow-mono : (k m : ℕ) (es : List (ℕ × Connection)) → k ≤ m → IsBelow k es → IsBelow m es
IsBelow-mono k m [] h b = tt
IsBelow-mono k m (e ∷ es) h b = ((b.0.0, omega arith), IsBelow-mono k m es h b.1)

pub IsBelow-append :
    (k : ℕ) (es : List (ℕ × Connection)) (c : Connection)
    → IsBelow k es
    → c.socket ≡ k
    → IsBelow (suc k) (es ++ ((k, c) ∷ []))
IsBelow-append k es c b h =
    All-append (λ e. ((e.1).socket ≡ e.0) × (e.0 < suc k)) es ((k, c) ∷ [])
      (IsBelow-mono k (suc k) es (omega arith) b) ((h, omega arith), tt)

-- A connection is erased where it stands.
pub erase_socket-middle :
    (k : ℕ) (before rest : List (ℕ × Connection)) (c : Connection)
    → IsBelow k before
    → c.socket ≡ k
    → erase_socket k (before ++ ((k, c) ∷ rest)) ≡ before ++ rest
unfolding erase_socket
erase_socket-middle k [] rest c b h = rw (h, ==_refl k) refl
erase_socket-middle k ((key, d) ∷ before) rest c b h =
    let e : (d.socket == k) ≡ false = ground arith in
    rw (e, erase_socket) (ap (◌∷◌ (key, d)) (erase_socket-middle k before rest c b.1 h))

-- A connection is replaced where it stands.
pub put_connection-middle :
    (k : ℕ) (before rest : List (ℕ × Connection)) (c d : Connection)
    → IsBelow k before
    → put_connection k d (before ++ ((k, c) ∷ rest)) ≡ before ++ ((k, d) ∷ rest)
unfolding put_connection
put_connection-middle k [] rest c d b = rw (==_refl k) refl
put_connection-middle k ((key, x) ∷ before) rest c d b =
    let e : (k == key) ≡ false = ground arith in
    let f : ltb k key ≡ false = ground arith in
    rw (e, f, put_connection) (ap (◌∷◌ (key, x)) (put_connection-middle k before rest c d b.1))

pub IsTable-mono : (k m : ℕ) (es : List (ℕ × Connection)) → k ≤ m → IsTable m es → IsTable k es
IsTable-mono k m [] h t = tt
IsTable-mono k m ((n, c) ∷ es) h (p, q, r) = (p, omega arith, r)

-- Is there a connection under the key?
abbrev pub Has : ℕ → List (ℕ × Connection) → Type 0
Has s [] = ⊥
Has s ((k, c) ∷ es) = (k ≡ s) ⊎ Has s es

pub put_connection-IsTable :
    (from k : ℕ) (d : Connection) (es : List (ℕ × Connection))
    → from ≤ k
    → d.socket ≡ k
    → IsTable from es
    → IsTable from (put_connection k d es)
unfolding put_connection
put_connection-IsTable from k d [] h e t = (e, h, tt)
put_connection-IsTable from k d ((n, c) ∷ es) h e (p, q, r) =
    if_holds (IsTable from) (k == n)
      (λ s. let f : k ≡ n = (==_iff k n).0 s in (e, h, subst (λ m. IsTable (suc m) es) (sym f) r))
      (λ s.
        if_holds (IsTable from) (ltb k n) (λ u. (e, h, (p, ground arith, r)))
          (λ u. (p, q, put_connection-IsTable (suc n) k d es (later k n s u) e r)))
  where
    later : (k n : ℕ) → (k == n) ≡ false → ltb k n ≡ false → suc n ≤ k
    later k n s u = ground arith

pub put_connection-Has :
    (s k : ℕ) (d : Connection) (es : List (ℕ × Connection))
    → Has s es
    → Has s (put_connection k d es)
unfolding put_connection
put_connection-Has s k d [] h = absurd h
put_connection-Has s k d ((n, c) ∷ es) h =
    if_holds (Has s) (k == n) (λ e. replaced h ((==_iff k n).0 e))
      (λ e. if_holds (Has s) (ltb k n) (λ u. inr h) (λ u. further h (put_connection-Has s k d es)))
  where
    replaced : (n ≡ s) ⊎ Has s es → k ≡ n → (k ≡ s) ⊎ Has s es
    replaced (inl e) f = inl (f ∙ e)
    replaced (inr h) f = inr h

    further :
        (n ≡ s) ⊎ Has s es
        → (Has s es → Has s (put_connection k d es))
        → (n ≡ s) ⊎ Has s (put_connection k d es)
    further (inl e) f = inl e
    further (inr h) f = inr (f h)
