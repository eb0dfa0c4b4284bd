-- ===== src/Tests/Programs.antt =====
-- Running programs: Server/Cgi and Server/Arguments.
use ok.Base.{[], ◌∷◌, true, false, Option, none, some, ◌≡◌, All}
use ok.Text.{Bytes, codes}
use ok.Dict.{lookup}
use ok.Request.{Request, new_request, cgi_program}
use ok.Response.{new_response}
use ok.Server.Site.{Environment, Site, missing, refused, enoent, new_connection, cgi_ing}
use ok.Server.Cgi.{CgiWorld}
use ok.Server.Arguments.{cgi_variables, fixed_variables}
use ok.Server.Cgi.Refusal.{refusal}
use ok.Server.Arguments.Variables.{cgi_variables-fixed}

-- A system without files.
abbrev bare : Environment
bare = record {
  cwd = codes "/srv";
  now = codes "now";
  stat = λ path. missing enoent;
  opens = λ path. false;
  content = λ path. [];
  default_page = codes "error";
  modified_at = λ path. codes "then";
  htpasswd = none;
  open_to_write = λ path. refused enoent;
  can_create = λ path. false;
  entries = λ path. [];
}

abbrev program_request : Request
program_request = record new_request { uri_type = cgi_program; method = codes "GET" }

-- A program that waits.
abbrev waiting : Site
waiting = record {
  connection = record (new_connection 5 [] 80 0) {
    status = cgi_ing;
    request = some program_request;
    response = some (new_response 200 []);
    cgi_program_path = codes "/srv/tester";
  };
  error_page = [];
  changes = [];
}

abbrev gives : Option Bytes → CgiWorld
gives text = record {
  opens_to = true;
  opens_from = true;
  write_count = some 1;
  seeks = true;
  forks = true;
  output = text;
  stats = true;
  allocates = true;
}

abbrev plain : Bytes × Bytes
plain = (codes "Content-Type", codes "text/plain")

abbrev plain_output : Bytes
plain_output = codes "Content-Type: text/plain\r\n\r\nhello"

abbrev refused_output : Bytes
refused_output = refusal [] (codes "Status") (codes "404 Not Found") (codes "\r\n")

cgi_variables-fixed_example :
    All
      (λ e.
        lookup e.0
          (cgi_variables (codes "SERVER_PORT=1" ∷ []) 80 waiting.connection program_request)
        ≡ some e.1)
      (fixed_variables 80 waiting.connection program_request)
cgi_variables-fixed_example =
    cgi_variables-fixed (codes "SERVER_PORT=1" ∷ []) 80 waiting.connection program_request
