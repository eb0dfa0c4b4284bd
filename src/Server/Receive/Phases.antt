-- ===== src/Server/Receive/Phases.antt =====
-- The phases of recvRequest: what a phase did not finish it takes up again when more bytes are there.
use ok.Base.{
  ℕ, suc, ◌+◌, ◌++◌, Bool, true, false, none, some, ◌≡◌, ◌≢◌, ◌⊎◌, inl, inr, refl, sym, ap, ◌∙◌,
  arith, if◌then◌else◌, length, length-append, Option-cases,
}
use ok.Text.{Bytes, codes, find_from}
use ok.Result.{Result, done, thrown, failed, and_then, pure}
use ok.Request.{Request, Phase, ready, on_header, on_body}
use ok.Server.Receive.{
  parse_start_line, header_loop, parse_header, parse_body, is_request_has_body, advance, finish,
  start_phase, header_phase, body_phase,
}
use ok.Server.Receive.Arrive.{find_from-append}
use ok.Server.Receive.Stable.{grow}
use ok.Server.Receive.Headers.{header_loop-StableAt, header_loop_mono}
use ok.Server.Receive.Contents.{parse_body-resumes}

pub Phase-discrete : Discrete Phase
Phase-discrete = hlevel

pub start_phase-other : (r : Request) → r.phase ≢ ready → start_phase r ≡ (r, done tt)
unfolding start_phase
start_phase-other r h = ground arith

pub start_phase-ready :
    (r : Request)
    → r.phase ≡ ready
    → start_phase r ≡ and_then (parse_start_line r) (advance on_header)
unfolding start_phase
start_phase-ready r h = ground arith

pub header_phase-other : (r : Request) → r.phase ≢ on_header → header_phase r ≡ (r, done tt)
unfolding header_phase
header_phase-other r h = ground arith

pub header_phase-on :
    (r : Request)
    → r.phase ≡ on_header
    → header_phase r ≡ and_then (parse_header r) (advance on_body)
unfolding header_phase
header_phase-on r h = ground arith

pub body_phase-other : (r : Request) → r.phase ≢ on_body → body_phase r ≡ (r, done false)
unfolding body_phase
body_phase-other r h = ground arith

body_phase-on :
    (r : Request)
    → r.phase ≡ on_body
    → body_phase r
      ≡ (if is_request_has_body r then and_then (parse_body r) finish else finish true r)
unfolding body_phase
body_phase-on r h = ground arith

finish-waits :
    (x : Request × Result Bool) (s : Request)
    → and_then x finish ≡ (s, done false)
    → x ≡ (s, done false)
finish-waits (r, done true) s e = cc
finish-waits (r, done false) s e = e
finish-waits (r, thrown n) s e = cc
finish-waits (r, failed y) s e = cc

pub body_phase-bodied :
    (r : Request)
    → r.phase ≡ on_body
    → is_request_has_body r ≡ true
    → body_phase r ≡ and_then (parse_body r) finish
body_phase-bodied r h k = body_phase-on r h ∙ rw k refl

pub body_phase-bare :
    (r : Request) → r.phase ≡ on_body → is_request_has_body r ≡ false → body_phase r ≡ finish true r
body_phase-bare r h k = body_phase-on r h ∙ rw k refl

has_body-method :
    (r s : Request) → s.method ≡ r.method → is_request_has_body s ≡ is_request_has_body r
unfolding is_request_has_body
has_body-method r s h = cc

-- What the body phase did not finish it takes up again.
pub body_phase-resumes :
    (more : Bytes) (r s : Request)
    → body_phase r ≡ (s, done false)
    → (body_phase (grow more r) ≡ body_phase (grow more s)) × (s.phase ≡ r.phase)
body_phase-resumes more r s e = elim (Phase-discrete r.phase on_body) [
  | no h ↦
      let same : s ≡ r = ap (λ x. x.0) (sym e ∙ body_phase-other r h) in
      (ap (λ t. body_phase (grow more t)) (sym same), ap (λ t. t.phase) same)
  | yes h ↦ bodied h (is_request_has_body r) refl
]
  where
    bodied :
        r.phase ≡ on_body
        → (b : Bool) → is_request_has_body r ≡ b
        → (body_phase (grow more r) ≡ body_phase (grow more s)) × (s.phase ≡ r.phase)
    bodied h false k = cc (body_phase-bare r h k)
    bodied h true k =
        let run = finish-waits (parse_body r) s (sym (body_phase-bodied r h k) ∙ e) in
        let (again, head) = parse_body-resumes more r s run in
        let t = has_body-method r s head.same_method ∙ k in
        (
          body_phase-bodied (grow more r) h (has_body-method r (grow more r) refl ∙ k)
              ∙ ap (λ x. and_then x finish) again
              ∙ sym (
                  body_phase-bodied (grow more s) (head.same_phase ∙ h)
                    (has_body-method s (grow more s) refl ∙ t)),
          head.same_phase,
        )

parse_header-none :
    (r : Request)
    → find_from (codes "\r\n\r\n") r.http_message r.seek ≡ none
    → parse_header r ≡ (r, done false)
unfolding parse_header
parse_header-none r f = rw (f, parse_header) refl

parse_header-at :
    (r : Request) (i : ℕ)
    → find_from (codes "\r\n\r\n") r.http_message r.seek ≡ some i
    → parse_header r ≡ and_then (header_loop (suc (length r.http_message)) r) (λ _. pure true)
unfolding parse_header
parse_header-at r i f = rw (f, parse_header) refl

header_loop-grow :
    (more : Bytes) (r s : Request)
    → header_loop (suc (length r.http_message)) r ≡ (s, done tt)
    → header_loop (suc (length (r.http_message ++ more))) (grow more r) ≡ (grow more s, done tt)
header_loop-grow more r s e =
    let n : suc (length (r.http_message ++ more)) ≡ suc (length r.http_message) + length more =
      omega (arith, length-append r.http_message more) in
    rw n (
      header_loop_mono (suc (length r.http_message)) (length more) (grow more r) (grow more s)
        (header_loop-StableAt more (suc (length r.http_message)) r s tt e))

loop-inverse :
    (x : Request × Result (Unit {0})) (s : Request) (b : Bool)
    → and_then x (λ _. pure true) ≡ (s, done b)
    → (x ≡ (s, done tt)) × (b ≡ true)
loop-inverse (r, done tt) s b e = (ground arith, ground arith)
loop-inverse (r, thrown n) s b e = cc
loop-inverse (r, failed y) s b e = cc

-- The header phase waits and leaves all as it was, or succeeds for the longer message as well.
pub parse_header-resumes :
    (more : Bytes) (r s : Request) (b : Bool)
    → parse_header r ≡ (s, done b)
    → ((s ≡ r) × (b ≡ false))
      ⊎ ((b ≡ true) × (parse_header (grow more r) ≡ (grow more s, done true)))
parse_header-resumes more r s b e =
    elim (Option-cases (find_from (codes "\r\n\r\n") r.http_message r.seek)) [
      | inl f ↦ inl (cc (parse_header-none r f), cc (parse_header-none r f))
      | inr (i, f) ↦
          let (run, is_true) = loop-inverse _ s b (sym (parse_header-at r i f) ∙ e) in
          inr (
            is_true,
            parse_header-at (grow more r) i
                  (find_from-append (codes "\r\n\r\n") r.http_message more r.seek i f (omega arith))
                ∙ ap (λ x. and_then x (λ _. pure true)) (header_loop-grow more r s run),
          )
    ]
