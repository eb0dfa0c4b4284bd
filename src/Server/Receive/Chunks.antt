-- ===== src/Server/Receive/Chunks.antt =====
-- The chunk loop: it ends, it goes on where it stopped when more bytes arrive, and it decodes what
-- was encoded in chunks.
use ok.Base.{
  ℕ, zero, suc, ◌+◌, ◌-◌, ◌≤◌, ◌<◌, Bool, true, false, none, some, ◌≡◌, ◌≢◌, ◌⊎◌, inl, inr, refl,
  sym, ap, ◌∙◌, arith, length, Option-cases,
}
use ok.Text.{Bytes, crlf, find_from}
use ok.Text.Find.{find_from_bound}
use ok.Result.{Result, done, thrown, failed, stuck, and_then}
use ok.Request.{Request, add_body}
use ok.Server.Receive.{unless_last, take_chunk, chunk_loop}
use ok.Server.Receive.Arrive.{slice-append, length-slice}
use ok.Server.Receive.Stable.{grow, grown}

abbrev pub Ends : Request × Result Bool → Type 0
Ends x = x.1 ≢ failed stuck

-- What a round finds: no size line, no data, or a whole chunk.
abbrev pub Round : Request → Type 0
Round r =
    ((find_from crlf r.http_message r.seek ≡ none)
      ⊎ ((i : ℕ) × (find_from crlf r.http_message r.seek ≡ some i)
          × (find_from crlf r.http_message (i + 2) ≡ none)))
    ⊎ ((i j : ℕ) × (find_from crlf r.http_message r.seek ≡ some i)
        × (find_from crlf r.http_message (i + 2) ≡ some j))

pub round : (r : Request) → Round r
round r = elim (Option-cases (find_from crlf r.http_message r.seek)) [
  | inl e ↦ inl (inl e)
  | inr (i, e) ↦ elim (Option-cases (find_from crlf r.http_message (i + 2))) [
    | inl f ↦ inl (inr (i, e, f))
    | inr (j, f) ↦ inr (i, j, e, f)
  ]
]

pub chunk_loop-waits :
    (fuel : ℕ) (r : Request)
    → (find_from crlf r.http_message r.seek ≡ none)
      ⊎ ((i : ℕ) × (find_from crlf r.http_message r.seek ≡ some i)
          × (find_from crlf r.http_message (i + 2) ≡ none))
    → chunk_loop (suc fuel) r ≡ (r, done false)
unfolding chunk_loop
chunk_loop-waits fuel r (inl e) = rw (e, chunk_loop) refl
chunk_loop-waits fuel r (inr (i, e, f)) = rw (e, chunk_loop) (rw f refl)

pub chunk_loop-at :
    (fuel : ℕ) (r : Request) (i j : ℕ)
    → find_from crlf r.http_message r.seek ≡ some i
    → find_from crlf r.http_message (i + 2) ≡ some j
    → chunk_loop (suc fuel) r ≡ and_then (take_chunk i j r) (unless_last (chunk_loop fuel))
unfolding chunk_loop
chunk_loop-at fuel r i j e f = rw (e, chunk_loop) (rw f refl)

-- A chunk that does not end the body moves `mSeek` behind it and adds its data.
take_chunk-moves :
    (i j : ℕ) (r s : Request)
    → i + 2 ≤ j
    → j + 2 ≤ length r.http_message
    → take_chunk i j r ≡ (s, done false)
    → (s.seek ≡ j + 2) × (s.http_message ≡ r.http_message)
unfolding take_chunk add_body
take_chunk-moves i j r s h k e = ground (arith, length-slice r.http_message (i + 2) (j - (i + 2)))

pub take_chunk-grow :
    (more : Bytes) (i j : ℕ) (r : Request)
    → r.seek ≤ i
    → i + 2 ≤ j
    → j + 2 ≤ length r.http_message
    → take_chunk i j (grow more r) ≡ grown more (take_chunk i j r)
unfolding take_chunk add_body
take_chunk-grow more i j r h k b =
    rw
      (
        slice-append r.http_message more r.seek (i - r.seek) (omega arith),
        slice-append r.http_message more (i + 2) (j - (i + 2)) (omega arith),
      )
      (ground arith)

take_chunk-message :
    (i j : ℕ) (r : Request)
    → ((take_chunk i j r).0.http_message ≡ r.http_message) × Ends (take_chunk i j r)
unfolding take_chunk add_body
take_chunk-message i j r = ground arith

pub chunk_bounds :
    (r : Request) (i j : ℕ)
    → find_from crlf r.http_message r.seek ≡ some i
    → find_from crlf r.http_message (i + 2) ≡ some j
    → (r.seek ≤ i) × (i + 2 ≤ j) × (j + 2 ≤ length r.http_message)
chunk_bounds r i j e f =
    let a = find_from_bound crlf r.http_message r.seek i e (omega arith) in
    let b = find_from_bound crlf r.http_message (i + 2) j f (omega arith) in (a.0, b.0, b.1)

-- With more fuel than bytes are left the loop ends, and it leaves the message as it is.
pub chunk_loop-Ends :
    (fuel : ℕ) (r : Request)
    → length r.http_message - r.seek < fuel
    → Ends (chunk_loop fuel r) × ((chunk_loop fuel r).0.http_message ≡ r.http_message)
chunk_loop-Ends zero r h = absurd (omega arith)
chunk_loop-Ends (suc fuel) r h = go (chunk_loop-Ends fuel) (round r)
  where
    taken :
        ((s : Request)
          → length s.http_message - s.seek < fuel
          → Ends (chunk_loop fuel s) × ((chunk_loop fuel s).0.http_message ≡ s.http_message))
        → (i j : ℕ) → (r.seek ≤ i) × (i + 2 ≤ j) × (j + 2 ≤ length r.http_message)
        → (x : Request × Result Bool) → take_chunk i j r ≡ x
        → Ends (and_then x (unless_last (chunk_loop fuel)))
          × ((and_then x (unless_last (chunk_loop fuel))).0.http_message ≡ r.http_message)
    taken ih i j b (s, done true) e =
        (λ q. cc, sym (ap (λ y. y.0.http_message) e) ∙ (take_chunk-message i j r).0)
    taken ih i j b (s, done false) e =
        let m = take_chunk-moves i j r s b.1 b.2 e in
        let rest = ih s (omega (arith, ap length m.1)) in (rest.0, rest.1 ∙ m.1)
    taken ih i j b (s, thrown n) e =
        (λ q. cc, sym (ap (λ y. y.0.http_message) e) ∙ (take_chunk-message i j r).0)
    taken ih i j b (s, failed y) e = (
      λ q. (take_chunk-message i j r).1 (ap (λ z. z.1) e ∙ q),
      sym (ap (λ y. y.0.http_message) e) ∙ (take_chunk-message i j r).0,
    )

    go :
        ((s : Request)
          → length s.http_message - s.seek < fuel
          → Ends (chunk_loop fuel s) × ((chunk_loop fuel s).0.http_message ≡ s.http_message))
        → Round r
        → Ends (chunk_loop (suc fuel) r)
          × ((chunk_loop (suc fuel) r).0.http_message ≡ r.http_message)
    go ih (inl w) = rw (chunk_loop-waits fuel r w) (λ q. cc, refl)
    go ih (inr (i, j, e, f)) =
        rw (chunk_loop-at fuel r i j e f)
          (taken ih i j (chunk_bounds r i j e f) (take_chunk i j r) refl)

pub chunk_loop_mono :
    (fuel more : ℕ) (r : Request)
    → Ends (chunk_loop fuel r)
    → chunk_loop (fuel + more) r ≡ chunk_loop fuel r
chunk_loop_mono zero more r h = absurd (h (unfold chunk_loop in refl))
chunk_loop_mono (suc fuel) more r h = go (chunk_loop_mono fuel more) (round r)
  where
    n : suc fuel + more ≡ suc (fuel + more)
    n = omega arith

    taken :
        ((s : Request) → Ends (chunk_loop fuel s) → chunk_loop (fuel + more) s ≡ chunk_loop fuel s)
        → (x : Request × Result Bool) → Ends (and_then x (unless_last (chunk_loop fuel)))
        → and_then x (unless_last (chunk_loop (fuel + more)))
          ≡ and_then x (unless_last (chunk_loop fuel))
    taken ih (s, done true) k = refl
    taken ih (s, done false) k = ih s k
    taken ih (s, thrown y) k = refl
    taken ih (s, failed y) k = refl

    go :
        ((s : Request) → Ends (chunk_loop fuel s) → chunk_loop (fuel + more) s ≡ chunk_loop fuel s)
        → Round r
        → chunk_loop (suc fuel + more) r ≡ chunk_loop (suc fuel) r
    go ih (inl w) = rw (n, chunk_loop-waits fuel r w) (chunk_loop-waits (fuel + more) r w)
    go ih (inr (i, j, e, f)) = rw n (
        chunk_loop-at (fuel + more) r i j e f
        ∙ taken ih (take_chunk i j r) (rw (chunk_loop-at fuel r i j e f) at h)
        ∙ sym (chunk_loop-at fuel r i j e f))
