-- ===== src/Server/Cgi.antt =====
-- Programs: Server::executeCGI of srcs/Server_execute*.cpp.
pub mod Lines
pub mod Output
pub mod Refusal
use ok.Base.{
  ℕ, zero, suc, ◌+◌, ◌-◌, List, [], ◌∷◌, ◌++◌, map, Bool, true, false, not, Option, none, some,
  ◌&&◌, ◌==◌, if◌then◌else◌, take, drop, is_empty, length,
}
use ok.Base.Int.{ℤ, pos, negsuc}
use ok.Text.{Bytes, codes, crlf, equal, find, find_from, slice, lower, upper}
use ok.Dict.{Dict, lookup, put}
use ok.Utils.Number.{atoi, itos}
use ok.Result.{Result, done, thrown, failed, null_pointer, stuck, Act}
use ok.Request.{Request}
use ok.Response.{Response, set_headers, set_body, length_text}
use ok.Server.Site.{
  Environment, Site, Connection, Status, cgi_ready, cgi_ing, send_ready, set_status, respond,
}
use ok.Server.Arguments.{create_cgi_argv, create_cgi_envp}
use ok.Server.Answer.{status_response}

-- What the system calls give. `write` returns -1 (`none`) or a count. An open file can be read.
pub record CgiWorld : Type 0 where
  pub opens_to : Bool
  pub opens_from : Bool
  pub write_count : Option ℕ
  pub seeks : Bool
  pub forks : Bool
  -- what the program has left in the file fromCGI, unless it cannot be opened
  pub output : Option Bytes
  pub stats : Bool
  pub allocates : Bool

-- A program as it is started, with what stands in the file toCGI.
pub record Launch : Type 0 where
  pub program : Bytes
  pub argv : List Bytes
  pub envp : List Bytes
  pub given : Bytes

-- The branch of CGI_READY: the program that has been started, and has ended.
abbrev pub launched :
    CgiWorld → List Bytes → ℕ → Option Request → Option Response → Site → Site × Result Launch
launched w own port request none site = (site, failed null_pointer)
launched w own port none (some response) site = (site, failed null_pointer)
launched w own port (some request) (some response) site =
    if not (w.opens_to && w.opens_from) then (site, thrown 500) else elim w.write_count [
      | none ↦ (site, thrown 500)
      | some count ↦
          if count == 0
          then (site, thrown 205)
          else if not (w.seeks && w.forks)
          then (site, thrown 500)
          else (
            set_status cgi_ing site,
            done (record {
              program = site.connection.cgi_program_path;
              argv = create_cgi_argv site.connection;
              envp = create_cgi_envp own port site.connection request;
              given = take count response.body;
            }),
          )
    ]

unfoldable pub start_cgi : CgiWorld → List Bytes → ℕ → Act Site Launch
unfolding create_cgi_argv create_cgi_envp
start_cgi w own port site =
    launched w own port site.connection.request site.connection.response site

-- std::string(char *) ends in front of the first zero byte.
unfoldable pub c_string : Bytes → Bytes
c_string [] = []
c_string (c ∷ s) = let rest = c_string s in if c == 0 then [] else c ∷ rest

-- An `int` given where a status code is looked up; a negative one is not in the map, and nor is 0.
abbrev pub code_of : ℤ → ℕ
code_of (pos n) = n
code_of (negsuc n) = 0

-- How the loop over the program's headers ends: behind them, with the response so far; at a status
-- other than 200; or at a line that is no header.
pub data CgiHeaders : Type 0 where
  ended : ℕ → Response → CgiHeaders
  status : ℕ → CgiHeaders
  bad : Response → CgiHeaders
  out_of_rounds : CgiHeaders

-- `value.substr(0, value.find(" "))`, read as a number.
unfoldable pub status_code : Bytes → ℤ
unfolding find atoi
status_code value = elim (find (b' ' ∷ []) value) [
  | none ↦ atoi value
  | some found ↦ atoi (take found value)
]

abbrev pub is_200 : ℤ → Bool
is_200 (pos n) = n == 200
is_200 (negsuc n) = false

-- One header line, whose key is in lower case.
unfoldable pub cgi_header : (Response → CgiHeaders) → Bytes → Bytes → Response → CgiHeaders
unfolding equal status_code set_headers
cgi_header next key value response =
    if equal key (codes "status")
    then elim (is_200 (status_code value)) [
      | true ↦ next response
      | false ↦ status (code_of (status_code value))
    ]
    else next (set_headers key value response)

unfoldable pub cgi_line : (Response → CgiHeaders) → ℕ → Bytes → Response → CgiHeaders
unfolding find cgi_header lower
cgi_line next seek [] response = ended (seek + 2) response
cgi_line next seek (c ∷ header) response = elim (find (codes ": ") (c ∷ header)) [
  | none ↦ bad response
  | some found ↦
      cgi_header next (map lower (take found (c ∷ header))) (drop (found + 2) (c ∷ header)) response
]

-- The loop on fuel: every round goes behind a CRLF.
unfoldable pub cgi_loop : ℕ → Bytes → ℕ → Response → CgiHeaders
unfolding find_from cgi_line
cgi_loop zero text seek_cur response = out_of_rounds
cgi_loop (suc fuel) text seek_cur response = elim (find_from crlf text seek_cur) [
  | none ↦ bad response
  | some seek ↦
      cgi_line (λ r. cgi_loop fuel text (seek + 2) r) seek_cur
        (slice text seek_cur (seek - seek_cur)) response
]

abbrev pub finished : Bytes → Response → Site → Site
finished body response site =
    let filled = set_body body response in
    set_status send_ready
      (respond (set_headers (codes "Content-Length") (length_text filled.body) filled) site)

-- At a status other than 200 the status of the connection stays as it is.
abbrev pub after_headers : Environment → Bytes → CgiHeaders → Act Site (Unit {0})
after_headers env text (ended seek response) site =
    (finished (drop seek text) response site, done tt)
after_headers env text (status code) site =
    (respond (status_response env site.error_page site.connection.request code) site, done tt)
after_headers env text (bad response) site = (respond response site, thrown 500)
after_headers env text out_of_rounds site = (site, failed stuck)

-- What is made of the program's output.
unfoldable pub read_cgi : Environment → Bytes → Response → Act Site (Unit {0})
unfolding find cgi_loop set_headers status_response
read_cgi env text response site = elim (find (codes "php") site.connection.cgi_program_path) [
  | some found ↦ (finished text response site, done tt)
  | none ↦ elim (find (codes "\r\n\r\n") text) [
    | none ↦ (site, thrown 500)
    | some found ↦ after_headers env text (cgi_loop (suc (length text)) text 0 response) site
  ]
]

abbrev pub fetched : CgiWorld → Environment → Option Response → Act Site (Unit {0})
fetched w env none site = (site, failed null_pointer)
fetched w env (some response) site = elim w.output [
  | none ↦ (site, thrown 500)
  | some output ↦
      if not (w.stats && w.allocates)
      then (site, thrown 500)
      else read_cgi env (c_string output) response site
]

-- The branch of CGI_ING. The file fromCGI is removed when it has been read.
unfoldable pub finish_cgi : CgiWorld → Environment → Act Site (Unit {0})
unfolding read_cgi c_string
finish_cgi w env site = fetched w env site.connection.response site

abbrev pub drop_result : {S A : Type 0} → S × Result A → S × Result (Unit {0})
drop_result (s, done a) = (s, done tt)
drop_result (s, thrown n) = (s, thrown n)
drop_result (s, failed f) = (s, failed f)

unfoldable pub execute_cgi : CgiWorld → Environment → List Bytes → ℕ → Act Site (Unit {0})
unfolding itos start_cgi finish_cgi
execute_cgi w env own port site =
    if is_empty (itos (pos site.connection.socket))
    then (site, thrown 500)
    else elim site.connection.status [
      | cgi_ready ↦ drop_result (start_cgi w own port site)
      | _ ↦ finish_cgi w env site
    ]
