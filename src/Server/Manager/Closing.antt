-- ===== src/Server/Manager/Closing.antt =====
-- Which connections closeOldConnection closes, and whom it answers.
use ok.Base.{
  ℕ, suc, ◌+◌, ◌≤◌, List, [], ◌∷◌, ◌++◌, map, append-nil, append_assoc, Bool, true, false, ◌&&◌,
  ◌||◌, not, ◌≡◌, inl, inr, refl, sym, subst, ◌∙◌, arith, ltb, leb, ◌==◌, if◌then◌else◌, Bool-cases,
}
use ok.Text.{Bytes}
use ok.Server.Site.{Environment, Connection}
use ok.Server.Run.{FdSet, Loop, erase_socket, close_connection, fd_clr}
use ok.Server.Run.Table.{IsTable, IsBelow, IsBelow-mono, IsBelow-append, erase_socket-middle}
use ok.Server.Manager.{
  Writes, status_message, has_request, stays_open, close_old_loop, close_old_connection,
}

-- The elements that pass the test, in their order.
abbrev pub retained {ℓ} : {A : Type ℓ} → (A → Bool) → List A → List A
retained p [] = []
retained p (x ∷ xs) = if p x then x ∷ retained p xs else retained p xs

module _ (env : Environment) (now socket : ℕ) (fds : FdSet) (page : Bytes) where
  -- The server's own socket, a descriptor that can be read, or a request in the last ten seconds.
  abbrev pub is_left : ℕ × Connection → Bool
  is_left (fd, c) = c.socket == socket || (fds fd || leb now (c.last_request_at + 10))

  abbrev pub is_told : ℕ × Connection → Bool
  is_told (fd, c) = not (is_left (fd, c)) && not (has_request c)

  abbrev pub told : ℕ × Connection → ℕ × Bytes
  told (fd, c) = (fd, status_message env page c 408)

  -- The state of the loop at the descriptors from a number on.
  abbrev Agrees : ℕ → Loop → Type 0
  Agrees from l =
      (l.socket ≡ socket) × (l.error_page ≡ page) × ((n : ℕ) → from ≤ n → l.read_copy_fds n ≡ fds n)

  abbrev Closes : List (ℕ × Connection) → List (ℕ × Connection) → Writes → Loop × Writes → Type 0
  Closes before rest writes result =
      ((result.0).connections ≡ before ++ retained is_left rest)
      × (result.1 ≡ writes ++ map told (retained is_told rest))

  closed-Agrees :
      (k : ℕ) (c : Connection) (l : Loop)
      → c.socket ≡ k
      → Agrees k l
      → Agrees (suc k) (close_connection c.socket l)
  unfolding close_connection fd_clr
  closed-Agrees k c l h (p, q, r) = (p, q, λ n b. kept n b (r n (omega arith)))
    where
      kept :
          (n : ℕ)
          → suc k ≤ n
          → l.read_copy_fds n ≡ fds n
          → (if n == c.socket then false else l.read_copy_fds n) ≡ fds n
      kept n b e = let f : (n == c.socket) ≡ false = ground arith in rw f e

  same_answer :
      (from k : ℕ) (c : Connection) (l : Loop)
      → from ≤ k
      → Agrees from l
      → stays_open now l.socket l.read_copy_fds k c ≡ is_left (k, c)
  unfolding stays_open
  same_answer from k c l h (p, q, r) = rw (p, r k h) (by_tests (c.socket == socket) (fds k))
    where
      by_tests :
          (a b : Bool)
          → (if a
              then true
              else not (not (if ltb (c.last_request_at + 10) now then false else true) && not b))
            ≡ (a || (b || leb now (c.last_request_at + 10)))
      by_tests true b = refl
      by_tests false true = ground arith
      by_tests false false = ground arith

  left_open :
      (k : ℕ) (c : Connection) (before rest : List (ℕ × Connection)) (writes : Writes)
      (result : Loop × Writes)
      → is_left (k, c) ≡ true
      → Closes (before ++ ((k, c) ∷ [])) rest writes result
      → Closes before ((k, c) ∷ rest) writes result
  left_open k c before rest writes result e (p, q) =
      rw e (p ∙ append_assoc before ((k, c) ∷ []) (retained is_left rest), q)

  more : Bytes → Connection → ℕ → Writes → Writes
  more p c k writes =
      if has_request c then writes else writes ++ ((k, status_message env p c 408) ∷ [])

  closed_now :
      (k : ℕ) (c : Connection) (before rest : List (ℕ × Connection)) (writes : Writes)
      (result : Loop × Writes)
      → is_left (k, c) ≡ false
      → Closes before rest (more page c k writes) result
      → Closes before ((k, c) ∷ rest) writes result
  unfolding more
  closed_now k c before rest writes result e (p, q) = rw e (p, by_request (has_request c) q)
    where
      by_request :
          (v : Bool)
          → result.1
            ≡ (if v then writes else writes ++ (told (k, c) ∷ []))
              ++ map told (retained is_told rest)
          → result.1
            ≡ writes
              ++ map told (if not v then (k, c) ∷ retained is_told rest else retained is_told rest)
      by_request true q = q
      by_request false q =
          q ∙ append_assoc writes (told (k, c) ∷ []) (map told (retained is_told rest))

  close_old_loop-Closes :
      (rest : List (ℕ × Connection)) (from : ℕ) (before : List (ℕ × Connection)) (l : Loop)
      (writes : Writes)
      → IsTable from rest
      → IsBelow from before
      → l.connections ≡ before ++ rest
      → Agrees from l
      → Closes before rest writes (close_old_loop env now rest (l, writes))
  unfolding close_old_loop close_connection more
  close_old_loop-Closes [] from before l writes t b e a = (e, sym (append-nil writes))
  close_old_loop-Closes ((k, c) ∷ rest) from before l writes (h, o, t) b e a =
      let s = same_answer from k c l o a in
      let below = IsBelow-mono from k before o b in
      let later : Agrees (suc k) l = (a.0, a.1, λ n g. a.2 n (omega arith)) in
      let here : Agrees k l = (a.0, a.1, λ n g. a.2 n (omega arith)) in
      elim (Bool-cases (is_left (k, c))) [
        | inl v ↦
            rw (s ∙ v, close_old_loop)
              (left_open k c before rest writes (close_old_loop env now rest (l, writes)) v (
                close_old_loop-Closes rest (suc k) (before ++ ((k, c) ∷ [])) l writes t
                  (IsBelow-append k before c below h)
                  (e ∙ sym (append_assoc before ((k, c) ∷ []) rest)) later))
        | inr v ↦
            rw (s ∙ v, close_old_loop)
              (subst
                (λ p.
                  Closes before ((k, c) ∷ rest) writes
                    (close_old_loop env now rest (close_connection c.socket l, more p c k writes)))
                (sym a.1)
                (closed_now k c before rest writes
                  (close_old_loop env now rest (close_connection c.socket l, more page c k writes))
                  v
                  (close_old_loop-Closes rest (suc k) before (close_connection c.socket l)
                    (more page c k writes) t (IsBelow-mono k (suc k) before (omega arith) below)
                    ((λ i. erase_socket (h i) (e i)) ∙ erase_socket-middle k before rest c below h)
                    (closed-Agrees k c l h here))))
      ]

-- Where the connections stand under their sockets in ascending order, closeOldConnection leaves just
-- those that are the server's own, are still to be kept or can be read, in their order. Of the
-- others, those that have no request are told 408, in their order, and nothing else is written.
pub close_old_connection-retained :
    (env : Environment) (now : ℕ) (loop : Loop)
    → IsTable 0 loop.connections
    → let result = close_old_connection env now loop in
      ((result.0).connections
        ≡ retained
            (is_left env now loop.socket loop.read_copy_fds loop.error_page)
            loop.connections)
      × (result.1
          ≡ map (told env now loop.socket loop.read_copy_fds loop.error_page) (
              retained
                (is_told env now loop.socket loop.read_copy_fds loop.error_page)
                loop.connections))
unfolding close_old_connection
close_old_connection-retained env now loop t =
    close_old_loop-Closes env now loop.socket loop.read_copy_fds loop.error_page loop.connections 0
      [] loop [] t tt refl (refl, refl, λ n h. refl)
