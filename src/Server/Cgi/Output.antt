-- ===== src/Server/Cgi/Output.antt =====
-- What becomes of a program's output.
use ok.Base.{
  ℕ, suc, ◌-◌, ◌≤◌, List, [], ◌∷◌, ◌++◌, true, false, Option, none, some, ◌≡◌, ◌≢◌, refl, ap, ◌∙◌,
  arith, is_empty, length, length-append,
}
use ok.Text.{Bytes, codes, find}
use ok.Text.Find.{Lacks}
use ok.Base.Int.{pos}
use ok.Utils.Number.{itos}
use ok.Utils.Number.RoundTrip.{itos_pos-ne-nil}
use ok.Response.{Response}
use ok.Server.Site.{Environment, Site, cgi_ing}
use ok.Server.Cgi.{
  CgiWorld, cgi_loop, c_string, after_headers, read_cgi, fetched, finish_cgi, execute_cgi,
}
use ok.Server.Cgi.Lines.{lines_before, with_rounds}

pub with_rounds_enough :
    (hs : List (Bytes × Bytes)) (n : ℕ)
    → length hs ≤ n
    → with_rounds hs (suc (n - length hs)) ≡ suc n
with_rounds_enough [] n h = omega arith
with_rounds_enough (g ∷ hs) n h =
    let e : n - suc (length hs) ≡ n - 1 - length hs = omega arith in
    rw e (omega (arith, with_rounds_enough hs (n - 1) (omega arith)))

pub length-lines_before :
    (hs : List (Bytes × Bytes)) (rest : Bytes) → length hs ≤ length (lines_before hs rest)
unfolding lines_before
length-lines_before [] rest = omega arith
length-lines_before ((key, value) ∷ hs) rest = omega (
  arith,
  length-lines_before hs rest,
  length-append (key ++ (b':' ∷ b' ' ∷ value)) (13 ∷ 10 ∷ lines_before hs rest),
)

c_string-Lacks : (s : Bytes) → Lacks 0 s → c_string s ≡ s
unfolding c_string
c_string-Lacks [] h = refl
c_string-Lacks (c ∷ s) h = ground (arith, c_string-Lacks s h.1)

pub read_cgi-headers :
    (env : Environment) (text : Bytes) (response : Response) (site : Site)
    → find (codes "php") site.connection.cgi_program_path ≡ none
    → find (codes "\r\n\r\n") text ≢ none
    → read_cgi env text response site
      ≡ after_headers env text (cgi_loop (suc (length text)) text 0 response) site
unfolding read_cgi
read_cgi-headers env text response site h k = go (find (codes "\r\n\r\n") text) refl
  where
    go :
        (o : Option ℕ)
        → find (codes "\r\n\r\n") text ≡ o
        → read_cgi env text response site
          ≡ after_headers env text (cgi_loop (suc (length text)) text 0 response) site
    go none e = absurd (k e)
    go (some i) e = rw (h, e, read_cgi) refl

pub is_empty-itos : (n : ℕ) → is_empty (itos (pos n)) ≡ false
is_empty-itos n = go (itos (pos n)) (itos_pos-ne-nil n)
  where
    go : (s : Bytes) → s ≢ [] → is_empty s ≡ false
    go [] h = absurd (h refl)
    go (c ∷ s) h = refl

-- Where a program has ended, and its output can be read.
pub record HasOutput (w : CgiWorld) (site : Site) (response : Response) (text : Bytes)
    : Type 0 where
  pub is_ing : site.connection.status ≡ cgi_ing
  pub has_response : site.connection.response ≡ some response
  pub output : w.output ≡ some text
  pub stats : w.stats ≡ true
  pub allocates : w.allocates ≡ true
  pub no_zero : Lacks 0 text

pub execute_cgi-finish_cgi :
    (w : CgiWorld) (env : Environment) (own : List Bytes) (port : ℕ) (site : Site)
    → site.connection.status ≡ cgi_ing
    → execute_cgi w env own port site ≡ finish_cgi w env site
unfolding execute_cgi
execute_cgi-finish_cgi w env own port site h = simp (is_empty-itos site.connection.socket, h)

pub execute_cgi-read_cgi :
    (w : CgiWorld) (env : Environment) (own : List Bytes) (port : ℕ) (site : Site)
    (response : Response) (text : Bytes)
    → HasOutput w site response text
    → execute_cgi w env own port site ≡ read_cgi env text response site
unfolding finish_cgi
execute_cgi-read_cgi w env own port site response text h =
    let e : fetched w env (some response) site ≡ read_cgi env (c_string text) response site =
      rw (h.output, h.stats, h.allocates, fetched) refl in
    execute_cgi-finish_cgi w env own port site h.is_ing
    ∙ ap (λ o. fetched w env o site) h.has_response
    ∙ e
    ∙ ap (λ s. read_cgi env s response site) (c_string-Lacks text h.no_zero)
