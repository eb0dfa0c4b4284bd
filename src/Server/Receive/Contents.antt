-- ===== src/Server/Receive/Contents.antt =====
-- A body that arrives in two reads.
use ok.Base.{
  ℕ, zero, suc, Bool, true, false, Option, none, some, ◌≡◌, inl, inr, refl, sym, ap, subst, ◌∙◌,
  arith, length,
}
use ok.Text.{Bytes, codes}
use ok.Dict.{lookup}
use ok.Result.{Result, done, thrown, failed, and_then}
use ok.Request.{Request, general, chunked, TransferType, add_body}
use ok.Server.Receive.{
  unless_last, take_chunk, chunk_loop, take_sized, parse_sized_body, parse_body,
}
use ok.Server.Receive.Stable.{grow}
use ok.Server.Receive.Chunks.{Round, round, chunk_loop-waits, chunk_loop-at}
use ok.Server.Receive.Resume.{chunks, chunks-resumes}

-- What the body parser does not touch.
pub record SameHead (r s : Request) : Type 0 where
  pub same_phase : s.phase ≡ r.phase
  pub same_method : s.method ≡ r.method
  pub same_transfer : s.transfer_type ≡ r.transfer_type

take_chunk-SameHead : (i j : ℕ) (r : Request) → SameHead r (take_chunk i j r).0
unfolding take_chunk add_body
take_chunk-SameHead i j r = ground arith

SameHead-trans : (r s t : Request) → SameHead r s → SameHead s t → SameHead r t
SameHead-trans r s t h k = record {
  same_phase = k.same_phase ∙ h.same_phase;
  same_method = k.same_method ∙ h.same_method;
  same_transfer = k.same_transfer ∙ h.same_transfer;
}

chunk_loop-SameHead : (fuel : ℕ) (r : Request) → SameHead r (chunk_loop fuel r).0
chunk_loop-SameHead zero r =
    unfold chunk_loop in record { same_phase = refl; same_method = refl; same_transfer = refl }
chunk_loop-SameHead (suc fuel) r = go (chunk_loop-SameHead fuel) (round r)
  where
    taken :
        ((s : Request) → SameHead s (chunk_loop fuel s).0)
        → (x : Request × Result Bool) → SameHead r x.0
        → SameHead r (and_then x (unless_last (chunk_loop fuel))).0
    taken ih (s, done true) h = h
    taken ih (s, done false) h = SameHead-trans r s _ h (ih s)
    taken ih (s, thrown n) h = h
    taken ih (s, failed y) h = h

    go :
        ((s : Request) → SameHead s (chunk_loop fuel s).0)
        → Round r
        → SameHead r (chunk_loop (suc fuel) r).0
    go ih (inl w) =
        rw (chunk_loop-waits fuel r w)
          (record { same_phase = refl; same_method = refl; same_transfer = refl })
    go ih (inr (i, j, e, f)) =
        rw (chunk_loop-at fuel r i j e f) (taken ih (take_chunk i j r) (take_chunk-SameHead i j r))

take_sized-waits : (v : Bytes) (r s : Request) → take_sized v r ≡ (s, done false) → s ≡ r
unfolding take_sized
take_sized-waits v r s e = ground arith

parse_sized_body-waits : (r s : Request) → parse_sized_body r ≡ (s, done false) → s ≡ r
unfolding parse_sized_body
parse_sized_body-waits r s e = go (lookup (codes "content-length") r.headers) e
  where
    go :
        (o : Option Bytes)
        → ◌≡◌ {A = Request × Result Bool}
            (elim o [ none ↦ (r, thrown 411) | some v ↦ take_sized v r ])
            (s, done false)
        → s ≡ r
    go none k = cc
    go (some v) k = take_sized-waits v r s k

parse_body-chunked : (r : Request) → r.transfer_type ≡ chunked → parse_body r ≡ chunks r
unfolding parse_body
parse_body-chunked r h = ground arith

parse_body-general : (r : Request) → r.transfer_type ≡ general → parse_body r ≡ parse_sized_body r
unfolding parse_body
parse_body-general r h = ground arith

pub parse_body-resumes :
    (more : Bytes) (r s : Request)
    → parse_body r ≡ (s, done false)
    → (parse_body (grow more r) ≡ parse_body (grow more s)) × SameHead r s
parse_body-resumes more r s e = go r.transfer_type refl
  where
    go :
        (t : TransferType)
        → r.transfer_type ≡ t
        → (parse_body (grow more r) ≡ parse_body (grow more s)) × SameHead r s
    go general h =
        let same : s ≡ r = parse_sized_body-waits r s (sym (parse_body-general r h) ∙ e) in
        (
          ap (λ t. parse_body (grow more t)) (sym same),
          rw same (record { same_phase = refl; same_method = refl; same_transfer = refl }),
        )
    go chunked h =
        let run : chunks r ≡ (s, done false) = sym (parse_body-chunked r h) ∙ e in
        let head : SameHead r s =
          subst (λ (x : Request × Result Bool). SameHead r x.0) run
            (chunk_loop-SameHead (suc (length r.http_message)) r) in
        (
          parse_body-chunked (grow more r) h
              ∙ chunks-resumes more r s run
              ∙ sym (parse_body-chunked (grow more s) (head.same_transfer ∙ h)),
          head,
        )
