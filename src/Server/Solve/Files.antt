-- ===== src/Server/Solve/Files.antt =====
-- A GET request for a file.
use ok.Base.{◌<◌, true, false, ◌≡◌, length}
use ok.FilePath.{get_path}
use ok.Config.{LocationPath, ServerBlock}
use ok.Request.{Request, file_uri}
use ok.Response.{Response}
use ok.Server.Site.{Environment, Site, access, is_file_path}
use ok.Server.Execute.{is_valid_method, has_auth_module, is_too_large}
use ok.Server.Solve.{target_of, mark_cgi}

-- A request for a file that is there and that may be sent.
pub record IsServable (env : Environment) (block : ServerBlock) (location : LocationPath)
    (request : Request) : Type 0 where
  pub no_program : mark_cgi block request ≡ request
  pub is_file : request.uri_type ≡ file_uri
  pub allowed : is_valid_method request location ≡ true
  pub open_to_all : has_auth_module location ≡ false
  pub fits : is_too_large location request ≡ false
  pub opens : (access env (target_of env location request)).0 ≡ true
  pub regular_file : is_file_path env (target_of env location request) ≡ true
  pub error_page_set : 0 < length (get_path location.error_page)
