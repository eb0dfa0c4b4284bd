-- ===== src/Server/Answer/Sized.antt =====
-- The responses of Server/Answer.antt tell the length of their bodies.
use ok.Base.{Bool, true, false, ◌≡◌, refl, if◌then◌else◌}
use ok.Text.{Bytes, codes, equal}
use ok.Request.{Request}
use ok.Response.{
  Response, set_headers, set_body, length_text, IsSized, set_headers-IsSized, set_length-IsSized,
}
use ok.Server.Site.{Environment}
use ok.Server.Answer.{response_200}
use ok.Server.Answer.{page_start}

abbrev content_length : Bytes
content_length = codes "Content-Length"

maybe-IsSized :
    (v : Bool) (key value : Bytes) (r : Response)
    → equal key content_length ≡ false
    → IsSized r
    → IsSized (if v then set_headers key value r else r)
maybe-IsSized true key value r e h = set_headers-IsSized key value r e h
maybe-IsSized false key value r e h = h

-- So does the response to a request for a file.
pub response_200-IsSized :
    (env : Environment) (request : Request) (target : Bytes)
    → IsSized (response_200 env request target)
unfolding response_200 equal
response_200-IsSized env request target =
    maybe-IsSized (equal request.method (codes "GET")) (codes "Last-Modified")
      (env.modified_at target)
      (set_headers content_length (length_text (env.content target))
        (set_body (env.content target) (page_start env 200)))
      refl (set_length-IsSized (set_body (env.content target) (page_start env 200)))
