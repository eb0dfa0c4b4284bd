-- ===== src/Server/Receive/Resume.antt =====
-- How the bytes of a request are spread over the reads does not matter.
use ok.Base.{ℕ, zero, suc, ◌+◌, ◌++◌, Bool, true, false, ◌≡◌, inl, inr, sym, ap, ◌∙◌, arith, length}
use ok.Text.{Bytes, crlf}
use ok.Result.{Result, done, thrown, failed, Act, and_then}
use ok.Request.{Request}
use ok.Server.Receive.{unless_last, take_chunk, chunk_loop}
use ok.Server.Receive.Arrive.{find_from-append}
use ok.Server.Receive.Stable.{grow, grown}
use ok.Server.Receive.Chunks.{
  Ends, Round, round, chunk_loop-waits, chunk_loop-at, take_chunk-grow, chunk_bounds,
  chunk_loop-Ends, chunk_loop_mono,
}

-- The last chunk is found again in the longer message.
pub chunk_loop-done :
    (more : Bytes) (fuel : ℕ) (r s : Request)
    → chunk_loop fuel r ≡ (s, done true)
    → chunk_loop fuel (grow more r) ≡ (grow more s, done true)
chunk_loop-done more zero r s e = unfold chunk_loop in cc
chunk_loop-done more (suc fuel) r s e = go (chunk_loop-done more fuel) (round r)
  where
    taken :
        ((t u : Request)
          → chunk_loop fuel t ≡ (u, done true)
          → chunk_loop fuel (grow more t) ≡ (grow more u, done true))
        → (x : Request × Result Bool) → and_then x (unless_last (chunk_loop fuel)) ≡ (s, done true)
        → and_then (grown more x) (unless_last (chunk_loop fuel)) ≡ (grow more s, done true)
    taken ih (t, done true) k = ap (grown more) k
    taken ih (t, done false) k = ih t s k
    taken ih (t, thrown n) k = cc
    taken ih (t, failed y) k = cc

    go :
        ((t u : Request)
          → chunk_loop fuel t ≡ (u, done true)
          → chunk_loop fuel (grow more t) ≡ (grow more u, done true))
        → Round r
        → chunk_loop (suc fuel) (grow more r) ≡ (grow more s, done true)
    go ih (inl w) = cc (chunk_loop-waits fuel r w)
    go ih (inr (i, j, p, q)) =
        let b = chunk_bounds r i j p q in
        chunk_loop-at fuel (grow more r) i j
          (find_from-append crlf r.http_message more r.seek i p (omega arith))
          (find_from-append crlf r.http_message more (i + 2) j q (omega arith))
        ∙ ap (λ x. and_then x (unless_last (chunk_loop fuel)))
            (take_chunk-grow more i j r b.0 b.1 b.2)
        ∙ taken ih (take_chunk i j r) (sym (chunk_loop-at fuel r i j p q) ∙ e)

-- Where the loop waits for bytes it goes on when they have come, as if they had been there at first.
chunk_loop-resumes :
    (more : Bytes) (fuel g : ℕ) (r s : Request)
    → chunk_loop fuel r ≡ (s, done false)
    → Ends (chunk_loop g (grow more s))
    → chunk_loop (fuel + g) (grow more r) ≡ chunk_loop g (grow more s)
chunk_loop-resumes more zero g r s e h = unfold chunk_loop in cc
chunk_loop-resumes more (suc fuel) g r s e h = go (chunk_loop-resumes more fuel g) (round r)
  where
    n : suc fuel + g ≡ suc (fuel + g)
    n = omega arith

    m : suc fuel + g ≡ g + suc fuel
    m = omega arith

    taken :
        ((t u : Request)
          → chunk_loop fuel t ≡ (u, done false)
          → Ends (chunk_loop g (grow more u))
          → chunk_loop (fuel + g) (grow more t) ≡ chunk_loop g (grow more u))
        → (x : Request × Result Bool) → and_then x (unless_last (chunk_loop fuel)) ≡ (s, done false)
        → and_then (grown more x) (unless_last (chunk_loop (fuel + g))) ≡ chunk_loop g (grow more s)
    taken ih (t, done true) k = cc
    taken ih (t, done false) k = ih t s k h
    taken ih (t, thrown y) k = cc
    taken ih (t, failed y) k = cc

    go :
        ((t u : Request)
          → chunk_loop fuel t ≡ (u, done false)
          → Ends (chunk_loop g (grow more u))
          → chunk_loop (fuel + g) (grow more t) ≡ chunk_loop g (grow more u))
        → Round r
        → chunk_loop (suc fuel + g) (grow more r) ≡ chunk_loop g (grow more s)
    go ih (inl w) =
        let same : r ≡ s = ap (λ x. x.0) (sym (chunk_loop-waits fuel r w) ∙ e) in
        ap (λ t. chunk_loop (suc fuel + g) (grow more t)) same
        ∙ rw m (chunk_loop_mono g (suc fuel) (grow more s) h)
    go ih (inr (i, j, p, q)) =
        let b = chunk_bounds r i j p q in
        rw n (
          chunk_loop-at (fuel + g) (grow more r) i j
            (find_from-append crlf r.http_message more r.seek i p (omega arith))
            (find_from-append crlf r.http_message more (i + 2) j q (omega arith))
          ∙ ap (λ x. and_then x (unless_last (chunk_loop (fuel + g))))
              (take_chunk-grow more i j r b.0 b.1 b.2)
          ∙ taken ih (take_chunk i j r) (sym (chunk_loop-at fuel r i j p q) ∙ e))

-- The loop with as much fuel as `parseBody` gives it.
abbrev pub chunks : Act Request Bool
chunks r = chunk_loop (suc (length r.http_message)) r

pub chunks-resumes :
    (more : Bytes) (r s : Request)
    → chunks r ≡ (s, done false)
    → chunks (grow more r) ≡ chunks (grow more s)
chunks-resumes more r s e =
    let f = suc (length r.http_message) in
    let g = suc (length (s.http_message ++ more)) in
    let l = suc (length (r.http_message ++ more)) in
    let ends = (chunk_loop-Ends g (grow more s) (omega arith)).0 in
    let ends' = (chunk_loop-Ends l (grow more r) (omega arith)).0 in
    let a : (f + g) + l ≡ l + (f + g) = omega arith in
    sym (chunk_loop_mono l (f + g) (grow more r) ends')
    ∙ rw (← a) (
        chunk_loop_mono (f + g) l (grow more r) (rw (chunk_loop-resumes more f g r s e ends) ends)
        ∙ chunk_loop-resumes more f g r s e ends)
