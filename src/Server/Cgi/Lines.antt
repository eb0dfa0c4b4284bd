-- ===== src/Server/Cgi/Lines.antt =====
-- The loop over the header lines of a program's output.
use ok.Base.{
  ℕ, suc, ◌+◌, ◌-◌, List, [], ◌∷◌, ◌++◌, map, false, none, some, ◌≡◌, refl, ap, ◌∙◌, arith, drop,
  length, take-append_length, drop-append_two, All,
}
use ok.Text.{Bytes, codes, equal, find}
use ok.Text.{crlf, find_from, slice, lower}
use ok.Text.Find.{find_mark-append}
use ok.Response.{Response, set_headers}
use ok.Server.Receive.Decode.{line_at}
use ok.Server.Cgi.{CgiHeaders, cgi_header, cgi_line, cgi_loop}

-- Lines in front of a rest, each with its CRLF.
unfoldable pub lines_before : List (Bytes × Bytes) → Bytes → Bytes
lines_before [] rest = rest
lines_before ((key, value) ∷ hs) rest =
    (key ++ b':' ∷ b' ' ∷ value) ++ 13 ∷ 10 ∷ lines_before hs rest

-- A header whose line can be read back, and whose key is not that of the status.
pub record IsHeader (h : Bytes × Bytes) : Type 0 where
  pub no_crlf : find crlf (h.0 ++ b':' ∷ b' ' ∷ h.1) ≡ none
  pub no_colon : find (codes ": ") h.0 ≡ none
  pub not_status : equal (map lower h.0) (codes "status") ≡ false

unfoldable pub set_all : List (Bytes × Bytes) → Response → Response
unfolding set_headers
set_all [] r = r
set_all ((key, value) ∷ hs) r = set_all hs (set_headers (map lower key) value r)

-- Fuel for as many rounds as there are lines, and some more.
abbrev pub with_rounds : List (Bytes × Bytes) → ℕ → ℕ
with_rounds [] fuel = fuel
with_rounds (h ∷ hs) fuel = suc (with_rounds hs fuel)

pub cgi_loop-at :
    (fuel : ℕ) (text : Bytes) (seek i : ℕ) (r : Response)
    → find_from crlf text seek ≡ some i
    → cgi_loop (suc fuel) text seek r
      ≡ cgi_line (λ r. cgi_loop fuel text (i + 2) r) seek (slice text seek (i - seek)) r
unfolding cgi_loop
cgi_loop-at fuel text seek i r h = rw (h, cgi_loop) refl

cgi_line-header :
    (next : Response → CgiHeaders) (seek : ℕ) (key value : Bytes) (r : Response)
    → find (codes ": ") key ≡ none
    → cgi_line next seek (key ++ b':' ∷ b' ' ∷ value) r ≡ cgi_header next (map lower key) value r
unfolding cgi_line
cgi_line-header next seek [] value r h = refl
cgi_line-header next seek (c ∷ key) value r h =
    let p = take-append_length (c ∷ key) (b':' ∷ b' ' ∷ value) in
    let q = drop-append_two (c ∷ key) b':' b' ' value in
    rw (find_mark-append b':' b' ' (c ∷ key) value (omega arith) h, cgi_line)
      (λ i. cgi_header next (map lower (p i)) (q i) r)

-- One round, at a line that holds a header.
pub cgi_loop-line :
    (fuel : ℕ) (text : Bytes) (seek : ℕ) (key value rest : Bytes) (r : Response)
    → find crlf (key ++ b':' ∷ b' ' ∷ value) ≡ none
    → find (codes ": ") key ≡ none
    → drop seek text ≡ (key ++ b':' ∷ b' ' ∷ value) ++ 13 ∷ 10 ∷ rest
    → (n : ℕ) × (cgi_loop (suc fuel) text seek r
        ≡ cgi_header (λ r. cgi_loop fuel text n r) (map lower key) value r)
      × (drop n text ≡ rest)
cgi_loop-line fuel text seek key value rest r h k e =
    let line = key ++ b':' ∷ b' ' ∷ value in
    let a = line_at text seek line rest e h in
    (
      seek + length line + 2,
      cgi_loop-at fuel text seek (seek + length line) r a.found
          ∙ ap (λ w. cgi_line (λ r. cgi_loop fuel text (seek + length line + 2) r) seek w r)
              a.sliced
          ∙ cgi_line-header (λ r. cgi_loop fuel text (seek + length line + 2) r) seek key value r k,
      a.behind,
    )

cgi_header-set :
    (next : Response → CgiHeaders) (key value : Bytes) (r : Response)
    → equal key (codes "status") ≡ false
    → cgi_header next key value r ≡ next (set_headers key value r)
unfolding cgi_header
cgi_header-set next key value r h = rw h refl

-- The loop goes through header lines, sets the headers, and then stands at the rest.
pub cgi_loop-lines :
    (hs : List (Bytes × Bytes)) (fuel : ℕ) (text : Bytes) (seek : ℕ) (rest : Bytes) (r : Response)
    → All IsHeader hs
    → drop seek text ≡ lines_before hs rest
    → (n : ℕ) × (cgi_loop (with_rounds hs fuel) text seek r ≡ cgi_loop fuel text n (set_all hs r))
      × (drop n text ≡ rest)
unfolding lines_before set_all
cgi_loop-lines [] fuel text seek rest r h e = (seek, refl, e)
cgi_loop-lines ((key, value) ∷ hs) fuel text seek rest r (a, h) e =
    let (n, f, g) =
      cgi_loop-line (with_rounds hs fuel) text seek key value (lines_before hs rest) r a.no_crlf
        a.no_colon e in
    let s = set_headers (map lower key) value r in
    let (m, k, l) = cgi_loop-lines hs fuel text n rest s h g in
    (
      m,
      f
          ∙ cgi_header-set (λ r. cgi_loop (with_rounds hs fuel) text n r) (map lower key) value r
              a.not_status
          ∙ k,
      l,
    )
