-- ===== src/Server/Receive/Pieces.antt =====
-- A request that arrives in any number of pieces.
use ok.Base.{List, [], ◌∷◌, ◌++◌, false, ◌≡◌, inl, inr, refl, sym, ap, ◌∙◌}
use ok.Text.{Bytes}
use ok.Result.{done}
use ok.Request.{Request, ready, add_http_message}
use ok.Server.Receive.{header_and_body, phases, start_phase, arrived, recv_request}
use ok.Server.Receive.Phases.{Phase-discrete}
use ok.Server.Receive.Lines.{start_phase-resumes}
use ok.Server.Receive.Delivery.{split_done, phases_lem, header_and_body-Waits, recv_request-split}

-- Nothing of a request that waits for its first line has been passed over.
abbrev pub IsFresh : Request → Type 0
IsFresh r = r.phase ≡ ready → r.seek ≡ 0

phases-IsFresh : (r s : Request) → IsFresh r → phases r ≡ (s, done false) → IsFresh s
phases-IsFresh r s h e =
    let (t, _, p, q) =
      split_done (start_phase r) (λ _. header_and_body) s false (sym (phases_lem r) ∙ e) in
    elim (start_phase-resumes [] r t h p) [
      | inl same ↦
          let w = header_and_body-Waits [] r s (ap header_and_body (sym same) ∙ q) in
          elim (Phase-discrete r.phase ready) [
            | yes k ↦ λ _. ap (λ x. x.seek) (w.unstarted k) ∙ h k
            | no k ↦ λ l. absurd (w.started k l)
          ]
      | inr (on, _) ↦ λ l. absurd ((header_and_body-Waits [] t s q).started (λ k. cc) l)
    ]

recv_request-IsFresh :
    (r s : Request) (piece : Bytes)
    → IsFresh r
    → recv_request (arrived piece) r ≡ (s, done false)
    → IsFresh s
unfolding recv_request add_http_message
recv_request-IsFresh r s piece h e = phases-IsFresh (add_http_message piece r) s h e

-- The request after some pieces of it, each of which leaves it incomplete.
pub data Waiting : Request → List Bytes → Request → Type 0 where
  start : {r : Request} → Waiting r [] r
  read :
      {r s t : Request} {piece : Bytes} {pieces : List Bytes}
      → recv_request (arrived piece) r ≡ (s, done false)
      → Waiting s pieces t
      → Waiting r (piece ∷ pieces) t

abbrev pub joined : List Bytes → Bytes → Bytes
joined [] last = last
joined (piece ∷ pieces) last = piece ++ joined pieces last

-- However a request is cut into pieces, as long as it is not complete and no error has come up
-- before the last of them, the last read brings about what a single read of all the bytes would
-- have: the same request, the same result, the same error.
pub recv_request-pieces :
    (r s : Request) (pieces : List Bytes) (last : Bytes)
    → IsFresh r
    → Waiting r pieces s
    → recv_request (arrived last) s ≡ recv_request (arrived (joined pieces last)) r
recv_request-pieces r s [] last h start = refl
recv_request-pieces r s (piece ∷ pieces) last h (read e w) =
    recv_request-pieces _ s pieces last (recv_request-IsFresh r _ piece h e) w
    ∙ recv_request-split r _ piece (joined pieces last) h e
