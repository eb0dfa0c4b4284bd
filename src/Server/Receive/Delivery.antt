-- ===== src/Server/Receive/Delivery.antt =====
-- The same request comes out however its bytes are spread over the reads.
use ok.Base.{◌++◌, append_assoc, false, ◌≡◌, ◌≢◌, inl, inr, refl, sym, ap, ◌∙◌}
use ok.Text.{Bytes}
use ok.Result.{Result, done, thrown, failed, Act, and_then}
use ok.Request.{Request, ready, on_header, on_body, add_http_message}
use ok.Server.Receive.{
  header_and_body, phases, start_phase, header_phase, body_phase, arrived, recv_request,
}
use ok.Server.Receive.Stable.{grow}
use ok.Server.Receive.Phases.{
  start_phase-other, header_phase-other, body_phase-other, body_phase-resumes, Phase-discrete,
}
use ok.Server.Receive.Lines.{start_phase-resumes, header_phase-resumes}

pub split_done :
    {A B : Type 0} (x : Request × Result A) (f : A → Act Request B) (s : Request) (b : B)
    → and_then x f ≡ (s, done b)
    → (t : Request) × (a : A) × (x ≡ (t, done a)) × (f a t ≡ (s, done b))
split_done (t, done a) f s b e = (t, a, refl, e)
split_done (t, thrown n) f s b e = cc
split_done (t, failed y) f s b e = cc

header_and_body_lem :
    (r : Request) → header_and_body r ≡ and_then (header_phase r) (λ _. body_phase)
unfolding header_and_body
header_and_body_lem r = refl

pub phases_lem : (r : Request) → phases r ≡ and_then (start_phase r) (λ _. header_and_body)
unfolding phases
phases_lem r = refl

header_and_body-other : (r : Request) → r.phase ≢ on_header → header_and_body r ≡ body_phase r
unfolding header_and_body
header_and_body-other r h = ap (λ x. and_then x (λ _. body_phase)) (header_phase-other r h)

-- What holds of a request that the later phases wait with.
pub record Waits (more : Bytes) (r s : Request) : Type 0 where
  pub again : header_and_body (grow more r) ≡ header_and_body (grow more s)
  pub started : r.phase ≢ ready → s.phase ≢ ready
  pub unstarted : r.phase ≡ ready → s ≡ r

Waits-same : (more : Bytes) (r s : Request) → s ≡ r → Waits more r s
Waits-same more r s e = record {
  again = ap (λ t. header_and_body (grow more t)) (sym e);
  started = λ h k. h (ap (λ t. t.phase) (sym e) ∙ k);
  unstarted = λ _. e;
}

pub header_and_body-Waits :
    (more : Bytes) (r s : Request) → header_and_body r ≡ (s, done false) → Waits more r s
header_and_body-Waits more r s e =
    let (t, _, p, q) =
      split_done (header_phase r) (λ _. body_phase) s false (sym (header_and_body_lem r) ∙ e) in
    elim (header_phase-resumes more r t p) [
      | inl same ↦ stayed (ap body_phase (sym same) ∙ q)
      | inr (on, longer) ↦ moved t on longer q
    ]
  where
    stayed : body_phase r ≡ (s, done false) → Waits more r s
    stayed q = elim (Phase-discrete r.phase on_header) [
      | yes h ↦ Waits-same more r s (ap (λ x. x.0) (sym q ∙ body_phase-other r (λ k. cc)))
      | no h ↦
          let (b, same_phase) = body_phase-resumes more r s q in
          record {
            again =
                header_and_body-other (grow more r) h
                ∙ b
                ∙ sym (header_and_body-other (grow more s) (λ k. h (sym same_phase ∙ k)));
            started = λ k l. k (sym same_phase ∙ l);
            unstarted = λ k. ap (λ x. x.0) (sym q ∙ body_phase-other r (λ l. cc));
          }
    ]

    moved :
        (t : Request)
        → t.phase ≡ on_body
        → header_phase (grow more r) ≡ (grow more t, done tt)
        → body_phase t ≡ (s, done false)
        → Waits more r s
    moved t on longer q =
        let (b, same_phase) = body_phase-resumes more t s q in
        record {
          again =
              header_and_body_lem (grow more r)
              ∙ ap (λ x. and_then x (λ _. body_phase)) longer
              ∙ b
              ∙ sym (header_and_body-other (grow more s) (λ k. cc));
          started = λ _ l. cc;
          unstarted = λ k. cc (header_phase-other (grow more r) (λ l. cc));
        }

phases-other : (r : Request) → r.phase ≢ ready → phases r ≡ header_and_body r
unfolding phases
phases-other r h = ap (λ x. and_then x (λ _. header_and_body)) (start_phase-other r h)

phases-resumes :
    (more : Bytes) (r s : Request)
    → (r.phase ≡ ready → r.seek ≡ 0)
    → phases r ≡ (s, done false)
    → phases (grow more r) ≡ phases (grow more s)
phases-resumes more r s h e =
    let (t, _, p, q) =
      split_done (start_phase r) (λ _. header_and_body) s false (sym (phases_lem r) ∙ e) in
    elim (start_phase-resumes more r t h p) [
      | inl same ↦ stayed (ap header_and_body (sym same) ∙ q)
      | inr (on, longer) ↦
          let w = header_and_body-Waits more t s q in
          phases_lem (grow more r)
          ∙ ap (λ x. and_then x (λ _. header_and_body)) longer
          ∙ w.again
          ∙ sym (phases-other (grow more s) (w.started (λ k. cc)))
    ]
  where
    stayed : header_and_body r ≡ (s, done false) → phases (grow more r) ≡ phases (grow more s)
    stayed q =
        let w = header_and_body-Waits more r s q in
        elim (Phase-discrete r.phase ready) [
          | yes k ↦ ap (λ t. phases (grow more t)) (sym (w.unstarted k))
          | no k ↦
              phases-other (grow more r) k
              ∙ w.again
              ∙ sym (phases-other (grow more s) (w.started k))
        ]

-- As long as the request is not complete and no error has come up, the bytes that arrive in two
-- reads do what they would have done in one, whatever the second read brings about: the same
-- request, the same result, the same error.
pub recv_request-split :
    (r s : Request) (first second : Bytes)
    → (r.phase ≡ ready → r.seek ≡ 0)
    → recv_request (arrived first) r ≡ (s, done false)
    → recv_request (arrived second) s ≡ recv_request (arrived (first ++ second)) r
unfolding recv_request add_http_message
recv_request-split r s first second h e =
    sym (phases-resumes second (grow first r) s h e)
    ∙ ap (λ m. phases (record r { http_message = m })) (append_assoc r.http_message first second)
