-- ===== src/Server/Receive/Headers.antt =====
-- The header loop and the chunk loop: they end, and more bytes behind the message change nothing
-- that they have read.
use ok.Base.{ℕ, zero, suc, ◌+◌, ◌-◌, [], ◌∷◌, Option, none, some, ◌≡◌, refl, sym, ◌∙◌, arith}
use ok.Text.{Bytes, crlf, find_from, slice}
use ok.Text.Find.{find_from_bound}
use ok.Result.{Result, done, thrown, failed, Act, and_then}
use ok.Request.{Request, set_seek, add_header}
use ok.Server.Receive.{header_loop, header_round}
use ok.Server.Receive.Arrive.{find_from-append, slice-append}
use ok.Server.Receive.Stable.{grow, Commutes-StableAt, StableAt, StableAt->>=, add_header-Commutes}

pub header_loop-at :
    (fuel : ℕ) (r : Request) (i : ℕ)
    → find_from crlf r.http_message r.seek ≡ some i
    → header_loop (suc fuel) r
      ≡ header_round (header_loop fuel) i (slice r.http_message r.seek (i - r.seek)) r
unfolding header_loop
header_loop-at fuel r i f = rw (f, header_loop) refl

header_loop-none :
    (fuel : ℕ) (r : Request)
    → find_from crlf r.http_message r.seek ≡ none
    → header_loop (suc fuel) r ≡ (r, thrown 400)
unfolding header_loop
header_loop-none fuel r f = rw (f, header_loop) refl

header_round-StableAt :
    (more : Bytes) (next : Act Request (Unit {0})) (i : ℕ) (line : Bytes) (r : Request)
    → ((t : Request) → StableAt more next t)
    → StableAt more (header_round next i line) r
unfolding header_round
header_round-StableAt more next i [] r h s a e = ground arith
header_round-StableAt more next i (c ∷ line) r h s a e =
    StableAt->>= more (add_header (c ∷ line)) (λ _ t. next (set_seek (i + 2) t)) r
      (Commutes-StableAt more (add_header (c ∷ line)) (add_header-Commutes more (c ∷ line)) r)
      (λ _ t _. h (set_seek (i + 2) t)) s a e

pub header_loop-StableAt :
    (more : Bytes) (fuel : ℕ) (r : Request) → StableAt more (header_loop fuel) r
header_loop-StableAt more zero r s a e = unfold header_loop in cc
header_loop-StableAt more (suc fuel) r s a e =
    go (header_loop-StableAt more fuel) (find_from crlf r.http_message r.seek) refl
  where
    go :
        ((t : Request) → StableAt more (header_loop fuel) t)
        → (o : Option ℕ) → find_from crlf r.http_message r.seek ≡ o
        → header_loop (suc fuel) (grow more r) ≡ (grow more s, done a)
    go ih none f = cc (header_loop-none fuel r f)
    go ih (some i) f =
        let b = find_from_bound crlf r.http_message r.seek i f (omega arith) in
        header_loop-at fuel (grow more r) i
          (find_from-append crlf r.http_message more r.seek i f (omega arith))
        ∙ rw (slice-append r.http_message more r.seek (i - r.seek) (omega arith)) (
            header_round-StableAt more (header_loop fuel) i _ r ih s a
              (sym (header_loop-at fuel r i f) ∙ e))

-- More rounds than needed do not matter.
pub header_loop_mono :
    (fuel more : ℕ) (r s : Request)
    → header_loop fuel r ≡ (s, done tt)
    → header_loop (fuel + more) r ≡ (s, done tt)
header_loop_mono zero more r s e = unfold header_loop in cc
header_loop_mono (suc fuel) more r s e =
    go (header_loop_mono fuel more) (find_from crlf r.http_message r.seek) refl
  where
    round :
        ((t u : Request)
          → header_loop fuel t ≡ (u, done tt)
          → header_loop (fuel + more) t ≡ (u, done tt))
        → (i : ℕ) (line : Bytes) → header_round (header_loop fuel) i line r ≡ (s, done tt)
        → header_round (header_loop (fuel + more)) i line r ≡ (s, done tt)
    round ih i [] p = unfold header_round in p
    round ih i (c ∷ line) p = unfold header_round in added (add_header (c ∷ line) r) p
      where
        added :
            (x : Request × Result (Unit {0}))
            → and_then x (λ _ t. header_loop fuel (set_seek (i + 2) t)) ≡ (s, done tt)
            → and_then x (λ _ t. header_loop (fuel + more) (set_seek (i + 2) t)) ≡ (s, done tt)
        added (t, done _) q = ih _ _ q
        added (t, thrown n) q = cc
        added (t, failed y) q = cc

    go :
        ((t u : Request)
          → header_loop fuel t ≡ (u, done tt)
          → header_loop (fuel + more) t ≡ (u, done tt))
        → (o : Option ℕ) → find_from crlf r.http_message r.seek ≡ o
        → header_loop (suc fuel + more) r ≡ (s, done tt)
    go ih none f = cc (header_loop-none fuel r f)
    go ih (some i) f =
        let n : suc fuel + more ≡ suc (fuel + more) = omega arith in
        rw n
          (header_loop-at (fuel + more) r i f ∙ round ih i _ (sym (header_loop-at fuel r i f) ∙ e))
