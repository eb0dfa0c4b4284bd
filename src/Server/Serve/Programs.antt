-- ===== src/Server/Serve/Programs.antt =====
-- Running a program leaves a connection's socket as it is.
use ok.Base.{
  if_holds, ℕ, suc, List, ◌&&◌, not, Option, none, some, refl, ◌==◌, if◌then◌else◌, take, is_empty,
  length,
}
use ok.Text.{Bytes, codes, find}
use ok.Base.Int.{pos}
use ok.Utils.Number.{itos}
use ok.Result.{Result, done, thrown, failed}
use ok.Request.{Request}
use ok.Response.{Response}
use ok.Server.Site.{Environment, Site, Status, cgi_ready, set_status, cgi_ing}
use ok.Server.Cgi.{
  CgiWorld, CgiHeaders, ended, status, bad, out_of_rounds, Launch, launched, start_cgi, cgi_loop,
  finished, after_headers, read_cgi, fetched, c_string, finish_cgi, drop_result, execute_cgi,
}
use ok.Server.Arguments.{create_cgi_argv, create_cgi_envp}
use ok.Server.Serve.Sockets.{StaysOn, KeepsSocket}

module _ (w : CgiWorld) (env : Environment) (own : List Bytes) (port : ℕ) where
  launched-StaysOn :
      (q : Option Request) (r : Option Response) (site : Site)
      → StaysOn site.connection.socket (launched w own port q r site)
  launched-StaysOn q none site = refl
  launched-StaysOn none (some r) site = refl
  launched-StaysOn (some q) (some r) site =
      if_holds (StaysOn site.connection.socket) (not (w.opens_to && w.opens_from)) (λ _. refl)
        (λ _. written w.write_count)
    where
      written :
          (o : Option ℕ)
          → StaysOn site.connection.socket (elim o as (λ _. Site × Result Launch) [
            | none ↦ (site, thrown 500)
            | some count ↦
                if count == 0
                then (site, thrown 205)
                else if not (w.seeks && w.forks)
                then (site, thrown 500)
                else (
                  set_status cgi_ing site,
                  done (record {
                    program = site.connection.cgi_program_path;
                    argv = create_cgi_argv site.connection;
                    envp = create_cgi_envp own port site.connection q;
                    given = take count r.body;
                  }),
                )
          ])
      written none = refl
      written (some count) =
          if_holds (StaysOn site.connection.socket) (count == 0) (λ _. refl)
            (λ _.
              if_holds (StaysOn site.connection.socket) (not (w.seeks && w.forks)) (λ _. refl)
                (λ _. refl))

  after_headers-StaysOn :
      (text : Bytes) (c : CgiHeaders) (site : Site)
      → StaysOn site.connection.socket (after_headers env text c site)
  after_headers-StaysOn text (ended n r) site = refl
  after_headers-StaysOn text (status n) site = refl
  after_headers-StaysOn text (bad r) site = refl
  after_headers-StaysOn text out_of_rounds site = refl

  read_cgi-StaysOn :
      (text : Bytes) (r : Response) (site : Site)
      → StaysOn site.connection.socket (read_cgi env text r site)
  unfolding read_cgi
  read_cgi-StaysOn text r site =
      go (find (codes "php") site.connection.cgi_program_path) (find (codes "\r\n\r\n") text)
    where
      go :
          (o p : Option ℕ)
          → StaysOn site.connection.socket (elim o as (λ _. Site × Result (Unit {0})) [
            | some found ↦ (finished text r site, done tt)
            | none ↦ elim p [
              | none ↦ (site, thrown 500)
              | some found ↦ after_headers env text (cgi_loop (suc (length text)) text 0 r) site
            ]
          ])
      go (some i) p = refl
      go none none = refl
      go none (some i) = after_headers-StaysOn text (cgi_loop (suc (length text)) text 0 r) site

  fetched-StaysOn :
      (o : Option Response) (site : Site) → StaysOn site.connection.socket (fetched w env o site)
  fetched-StaysOn none site = refl
  fetched-StaysOn (some r) site = go w.output
    where
      go :
          (o : Option Bytes)
          → StaysOn site.connection.socket (elim o as (λ _. Site × Result (Unit {0})) [
            | none ↦ (site, thrown 500)
            | some output ↦
                if not (w.stats && w.allocates)
                then (site, thrown 500)
                else read_cgi env (c_string output) r site
          ])
      go none = refl
      go (some output) =
          if_holds (StaysOn site.connection.socket) (not (w.stats && w.allocates)) (λ _. refl)
            (λ _. read_cgi-StaysOn (c_string output) r site)

  dropped : (s : ℕ) (m : Site × Result Launch) → StaysOn s m → StaysOn s (drop_result m)
  dropped s (site, done a) h = h
  dropped s (site, thrown n) h = h
  dropped s (site, failed f) h = h

  pub execute_cgi-KeepsSocket : KeepsSocket (execute_cgi w env own port)
  unfolding execute_cgi start_cgi finish_cgi
  execute_cgi-KeepsSocket site =
      if_holds (StaysOn site.connection.socket) (is_empty (itos (pos site.connection.socket)))
        (λ _. refl) (λ _. by_status site.connection.status)
    where
      by_status :
          (t : Status)
          → StaysOn site.connection.socket (elim t as (λ _. Site × Result (Unit {0})) [
            | cgi_ready ↦ drop_result (start_cgi w own port site)
            | _ ↦ finish_cgi w env site
          ])
      by_status cgi_ready =
          dropped site.connection.socket (start_cgi w own port site)
            (launched-StaysOn site.connection.request site.connection.response site)
      by_status _ = fetched-StaysOn site.connection.response site
