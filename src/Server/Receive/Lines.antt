-- ===== src/Server/Receive/Lines.antt =====
-- A start line or a header block that arrives in two reads.
use ok.Base.{
  ℕ, Bool, true, false, none, some, ◌≡◌, ◌⊎◌, inl, inr, refl, sym, ap, ◌∙◌, arith, Option-cases,
}
use ok.Text.{Bytes, crlf, find}
use ok.Result.{Result, done, thrown, failed, Act, and_then}
use ok.Request.{Request, Phase, ready, on_header, on_body}
use ok.Server.Receive.{
  parse_method, parse_target, parse_protocol, start_words, parse_start_line, parse_header, advance,
  start_phase, header_phase,
}
use ok.Server.Receive.Arrive.{find-append_more}
use ok.Server.Receive.Stable.{
  grow, grown, StableAt, StableAt->>=, parse_method-StableAt, parse_target-StableAt,
  parse_protocol-StableAt,
}
use ok.Server.Receive.Phases.{
  start_phase-other, start_phase-ready, header_phase-other, header_phase-on, parse_header-resumes,
  Phase-discrete,
}

start_words-StableAt : (more : Bytes) (r : Request) → r.seek ≡ 0 → StableAt more start_words r
unfolding start_words
start_words-StableAt more r h =
    StableAt->>= more parse_method _ r (parse_method-StableAt more r h) λ _ t _.
      StableAt->>= more parse_target _ t (parse_target-StableAt more t) λ _ u _.
        StableAt->>= more parse_protocol _ u (parse_protocol-StableAt more u)
          λ _ v _ s a e. ap (grown more) e

then-true :
    {A : Type 0} (x : Request × Result A) (f : A → Act Request Bool) (s : Request) (b : Bool)
    → ((a : A) (t : Request) → f a t ≡ (s, done b) → b ≡ true)
    → and_then x f ≡ (s, done b)
    → b ≡ true
then-true (r, done a) f s b h e = h a r e
then-true (r, thrown n) f s b h e = cc
then-true (r, failed y) f s b h e = cc

start_words-true : (r s : Request) (b : Bool) → start_words r ≡ (s, done b) → b ≡ true
unfolding start_words
start_words-true r s b = then-true (parse_method r) _ s b λ _ t.
    then-true (parse_target t) _ s b λ _ u. then-true (parse_protocol u) _ s b λ _ v e. ground arith

parse_start_line-none :
    (r : Request) → find crlf r.http_message ≡ none → parse_start_line r ≡ (r, done false)
unfolding parse_start_line
parse_start_line-none r f = rw (f, parse_start_line) refl

parse_start_line-at :
    (r : Request) (i : ℕ) → find crlf r.http_message ≡ some i → parse_start_line r ≡ start_words r
unfolding parse_start_line
parse_start_line-at r i f = rw (f, parse_start_line) refl

parse_start_line-resumes :
    (more : Bytes) (r s : Request) (b : Bool)
    → r.seek ≡ 0
    → parse_start_line r ≡ (s, done b)
    → ((s ≡ r) × (b ≡ false))
      ⊎ ((b ≡ true) × (parse_start_line (grow more r) ≡ (grow more s, done true)))
parse_start_line-resumes more r s b h e = elim (Option-cases (find crlf r.http_message)) [
  | inl f ↦ inl (cc (parse_start_line-none r f), cc (parse_start_line-none r f))
  | inr (i, f) ↦
      let run = sym (parse_start_line-at r i f) ∙ e in
      let is_true = start_words-true r s b run in
      inr (
        is_true,
        parse_start_line-at (grow more r) i (find-append_more crlf r.http_message more i f)
            ∙ start_words-StableAt more r h s b run
            ∙ ap (λ x. (grow more s, done x)) is_true,
      )
]

-- A phase that is over has either left all as it was, or gone on to the next phase, as it does for
-- the longer message.
advance-resumes :
    (more : Bytes) (next : Phase) (m : Act Request Bool) (r s : Request)
    → ((t : Request) (b : Bool)
        → m r ≡ (t, done b)
        → ((t ≡ r) × (b ≡ false)) ⊎ ((b ≡ true) × (m (grow more r) ≡ (grow more t, done true))))
    → and_then (m r) (advance next) ≡ (s, done tt)
    → (s ≡ r)
      ⊎ ((s.phase ≡ next) × (and_then (m (grow more r)) (advance next) ≡ (grow more s, done tt)))
advance-resumes more next m r s h e = go (m r) refl e
  where
    go :
        (x : Request × Result Bool)
        → m r ≡ x
        → and_then x (advance next) ≡ (s, done tt)
        → (s ≡ r)
          ⊎ ((s.phase ≡ next)
              × (and_then (m (grow more r)) (advance next) ≡ (grow more s, done tt)))
    go (t, done true) p q = elim (h t true p) [
      | inl (a, b) ↦ cc
      | inr (a, b) ↦
          inr
            (sym (ap (λ x. x.0.phase) q), ap (λ x. and_then x (advance next)) b ∙ ap (grown more) q)
    ]
    go (t, done false) p q = elim (h t false p) [
      | inl (a, b) ↦ inl (sym (ap (λ x. x.0) q) ∙ a)
      | inr (a, b) ↦ cc
    ]
    go (t, thrown n) p q = cc
    go (t, failed y) p q = cc

pub start_phase-resumes :
    (more : Bytes) (r s : Request)
    → (r.phase ≡ ready → r.seek ≡ 0)
    → start_phase r ≡ (s, done tt)
    → (s ≡ r) ⊎ ((s.phase ≡ on_header) × (start_phase (grow more r) ≡ (grow more s, done tt)))
start_phase-resumes more r s h e = elim (Phase-discrete r.phase ready) [
  | no k ↦ inl (ap (λ x. x.0) (sym e ∙ start_phase-other r k))
  | yes k ↦ rw (start_phase-ready (grow more r) k) (
      advance-resumes more on_header parse_start_line r s
        (λ t b. parse_start_line-resumes more r t b (h k)) (sym (start_phase-ready r k) ∙ e))
]

pub header_phase-resumes :
    (more : Bytes) (r s : Request)
    → header_phase r ≡ (s, done tt)
    → (s ≡ r) ⊎ ((s.phase ≡ on_body) × (header_phase (grow more r) ≡ (grow more s, done tt)))
header_phase-resumes more r s e = elim (Phase-discrete r.phase on_header) [
  | no k ↦ inl (ap (λ x. x.0) (sym e ∙ header_phase-other r k))
  | yes k ↦ rw (header_phase-on (grow more r) k) (
      advance-resumes more on_body parse_header r s (λ t b. parse_header-resumes more r t b)
        (sym (header_phase-on r k) ∙ e))
]
