-- ===== src/Server/Receive/Message.antt =====
-- A whole request, from its text to its parts.
use ok.Base.{
  ℕ, suc, ◌+◌, ◌≤◌, List, [], ◌∷◌, ◌++◌, append_assoc, true, Option, none, some, ◌≡◌, ◌≢◌, refl,
  sym, ap, subst, ◌∙◌, arith, drop, length, length-append, length-drop, drop-append_length,
  drop-drop, All,
}
use ok.Text.{Bytes, codes, equal, find}
use ok.Text.{crlf, find_from, starts_with}
use ok.Text.Find.{Lacks, find-ne-none}
use ok.Utils.Number.{atoi}
use ok.Result.{done, and_then}
use ok.Request.{
  Request, new_request, add_http_message, set_seek, parse_uri, parse_version, ready, on_header,
  on_body, complete,
}
use ok.Server.Receive.{
  header_loop, parse_header, is_request_has_body, advance, start_phase, body_phase, header_and_body,
  phases, arrived, recv_request, start_words, parse_start_line,
}
use ok.Server.Receive.Phases.{start_phase-ready, header_phase-on}
use ok.Server.Receive.Block.{
  block, store_lines, IsLine, header_loop-block, block-append, length-block, store_lines-message,
  block-ne-none,
}
use ok.Server.Receive.Start.{start_length, start_line, start_words_at}
use ok.Server.Receive.Bodies.{Body, body_phase-Body}

parse_header_found :
    (r : Request)
    → find (codes "\r\n\r\n") (drop r.seek r.http_message) ≢ none
    → parse_header r
      ≡ and_then (header_loop (suc (length r.http_message)) r) (λ _ s. (s, done true))
unfolding parse_header find_from
parse_header_found r h = go (find (codes "\r\n\r\n") (drop r.seek r.http_message)) refl
  where
    go :
        (o : Option ℕ)
        → find (codes "\r\n\r\n") (drop r.seek r.http_message) ≡ o
        → parse_header r
          ≡ and_then (header_loop (suc (length r.http_message)) r) (λ _ s. (s, done true))
    go none e = absurd (h e)
    go (some i) e = rw (e, parse_header) refl

parse_header-block :
    (r : Request) (line : Bytes) (lines : List Bytes) (rest : Bytes)
    → drop r.seek r.http_message ≡ block (line ∷ lines) rest
    → All IsLine (line ∷ lines)
    → parse_header r ≡ (
      set_seek (r.seek + length (block (line ∷ lines) [])) (store_lines (line ∷ lines) r),
      done true,
    )
parse_header-block r line lines rest e h =
    parse_header_found r
      (subst (λ t. find (codes "\r\n\r\n") t ≢ none) (sym e) (block-ne-none line lines rest))
    ∙ ap (λ m. and_then m (λ _ s. (s, done true)))
        (header_loop-block (suc (length r.http_message)) r (line ∷ lines) rest
          (omega (
            arith,
            length-block (line ∷ lines) rest,
            length-drop r.seek r.http_message,
            ap (length {0}) e,
          ))
          h e)

abbrev pub http_1_1 : Bytes
http_1_1 = codes "HTTP/1.1"

http_1_1-none : find crlf http_1_1 ≡ none
unfolding find
http_1_1-none = refl

parse_version-http_1_1 :
    (r : Request) → parse_version http_1_1 r ≡ (record r { version = http_1_1 }, done tt)
unfolding parse_version find equal atoi
parse_version-http_1_1 r = refl

start_phase-line :
    (r v : Request) (n : ℕ) (a rest : Bytes)
    → r.phase ≡ ready
    → r.http_message ≡ a ++ (13 ∷ 10 ∷ rest)
    → start_words r ≡ (set_seek n v, done true)
    → start_phase r ≡ (record v { seek = n; phase = on_header }, done tt)
unfolding parse_start_line starts_with
start_phase-line r v n a rest p e h =
    start_phase-ready r p
    ∙ ap (λ m. and_then m (advance on_header)) (words (find crlf r.http_message) refl ∙ h)
  where
    words : (o : Option ℕ) → find crlf r.http_message ≡ o → parse_start_line r ≡ start_words r
    words none f = absurd (find-ne-none crlf a (13 ∷ 10 ∷ rest) refl (ap (find crlf) (sym e) ∙ f))
    words (some i) f = rw (f, parse_start_line) refl

header_and_body-block :
    (t : Request) (line : Bytes) (lines : List Bytes) (rest body : Bytes)
    → t.phase ≡ on_header
    → drop t.seek t.http_message ≡ block (line ∷ lines) rest
    → All IsLine (line ∷ lines)
    → Body (store_lines (line ∷ lines) t) rest body
    → header_and_body t ≡ (
      record (store_lines (line ∷ lines) t) {
        seek = t.seek + length (block (line ∷ lines) []);
        phase = complete;
        body = body;
      },
      done true,
    )
unfolding header_and_body is_request_has_body
header_and_body-block t line lines rest body p e h b =
    let n = t.seek + length (block (line ∷ lines) []) in
    let s = record (store_lines (line ∷ lines) t) { seek = n; phase = on_body } in
    let same : s.http_message ≡ t.http_message = store_lines-message (line ∷ lines) t h in
    let after : drop n t.http_message ≡ rest =
      sym (drop-drop (length (block (line ∷ lines) [])) t.seek t.http_message)
      ∙ ap (drop (length (block (line ∷ lines) []))) (e ∙ block-append (line ∷ lines) rest)
      ∙ drop-append_length (block (line ∷ lines) []) rest in
    let inside : n ≤ length s.http_message = omega (
      arith,
      ap (length {0}) same,
      length-drop t.seek t.http_message,
      ap (length {0}) e,
      ap (length {0}) (block-append (line ∷ lines) rest),
      length-append (block (line ∷ lines) []) rest,
      length-block (line ∷ lines) rest,
    ) in
    ap (λ m. and_then m (λ _. body_phase))
      (header_phase-on t p
        ∙ ap (λ m. and_then m (advance on_body)) (parse_header-block t line lines rest e h))
    ∙ body_phase-Body s rest body refl (ap (drop n) same ∙ after) inside b

start_line_end :
    (method uri version rest : Bytes)
    → start_line method uri version rest
      ≡ (method ++ (32 ∷ (uri ++ (32 ∷ version)))) ++ (13 ∷ 10 ∷ rest)
unfolding start_line
start_line_end method uri version rest =
    let line = 13 ∷ 10 ∷ rest in
    ap (λ t. method ++ (32 ∷ t)) (sym (append_assoc uri (32 ∷ version) line))
    ∙ sym (append_assoc method (32 ∷ (uri ++ (32 ∷ version))) line)

-- The request in which the URI of a message is read.
abbrev pub named : Bytes → Bytes → Request
named method text = record new_request {
  http_message = text;
  method = method;
  seek = suc (length method);
}

-- The request as it is when the header lines are read, `u` being what the URI has left.
abbrev pub with_lines : Bytes → Bytes → Request → List Bytes → Request
with_lines method uri u lines =
    store_lines lines
      (record u { version = http_1_1; seek = start_length method uri http_1_1; phase = on_header })

-- The text of a whole request is read in one go: a start line of HTTP/1.1 whose method and URI hold
-- no space and whose URI is accepted, at least one header line, an empty line, and behind it for a
-- POST or PUT, which is not sent in chunks, a body as long as Content-Length says. The request is
-- then complete, with the method, what the URI gives, the headers line by line, and the body.
pub recv_request-message :
    (method uri line : Bytes) (lines : List Bytes) (rest body : Bytes) (u : Request)
    → let text = start_line method uri http_1_1 (block (line ∷ lines) rest) in
      let read = with_lines method uri u (line ∷ lines) in
      Lacks b' ' method
      → Lacks b' ' uri
      → parse_uri uri (named method text) ≡ (u, done tt)
      → All IsLine (line ∷ lines)
      → Body read rest body
      → recv_request (arrived text) new_request ≡ (
        record read {
          seek = start_length method uri http_1_1 + length (block (line ∷ lines) []);
          phase = complete;
          body = body;
        },
        done true,
      )
unfolding recv_request add_http_message new_request phases
recv_request-message method uri line lines rest body u hm hu p h b =
    let text = start_line method uri http_1_1 (block (line ∷ lines) rest) in
    let fresh = record new_request { http_message = text } in
    let i = suc (suc (length method) + length uri) in
    let v = record (set_seek i u) { version = http_1_1 } in
    let n = start_length method uri http_1_1 in
    let (words, behind) =
      start_words_at fresh u v method uri http_1_1 (block (line ∷ lines) rest) refl refl hm hu
        http_1_1-none p (parse_version-http_1_1 (set_seek i u)) in
    ap (λ m. and_then m (λ _. header_and_body))
      (start_phase-line fresh v n _ (block (line ∷ lines) rest) refl
        (start_line_end method uri http_1_1 (block (line ∷ lines) rest)) words)
    ∙ header_and_body-block (record v { seek = n; phase = on_header }) line lines rest body refl
        behind h b
