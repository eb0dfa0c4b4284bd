-- ===== src/Response.antt =====
-- srcs/Response.hpp and Response.cpp. The pointer back to the connection and the description that
-- nothing reads are not modelled.
use ok.Base.{
  ℕ, List, [], ◌∷◌, ◌++◌, Bool, true, false, Option, none, some, ◌≡◌, refl, ◌∙◌, ◌==◌,
  if◌then◌else◌, length,
}
use ok.Base.Int.{pos}
use ok.Text.{Bytes, codes, crlf, equal}
use ok.Dict.{Dict, lookup, put, lookup-put}
use ok.Request.{general, TransferType}
use ok.Utils.Number.{itos}
use ok.Utils.Replace.{replace_all}

pub record Response : Type 0 where
  pub status_code : ℕ
  pub first_line : Bytes
  pub headers : Dict
  pub transfer_type : TransferType
  pub body : Bytes
  pub http_message : Bytes
  pub seek : ℕ
  pub http_message_length : ℕ

-- Response::initStatusMap
unfoldable pub status_map : List (ℕ × Bytes)
status_map =
    (0, codes "Undefined Error")
    ∷ (100, codes "Continue")
    ∷ (101, codes "Switching Protocols")
    ∷ (103, codes "Early Hints")
    ∷ (200, codes "OK")
    ∷ (201, codes "Created")
    ∷ (202, codes "Accepted")
    ∷ (203, codes "Non-Authoritative Information")
    ∷ (204, codes "No Content")
    ∷ (205, codes "Reset Content")
    ∷ (206, codes "Partial Content")
    ∷ (301, codes "Moved Permanently")
    ∷ (300, codes "Multiple Choices")
    ∷ (303, codes "See Other")
    ∷ (302, codes "Found")
    ∷ (307, codes "Temporary Redirect")
    ∷ (304, codes "Not Modified")
    ∷ (400, codes "Bad Request")
    ∷ (308, codes "Permanent Redirect")
    ∷ (402, codes "Payment Required")
    ∷ (401, codes "Unauthorized")
    ∷ (404, codes "Not Found")
    ∷ (403, codes "Forbidden")
    ∷ (406, codes "Not Acceptable")
    ∷ (405, codes "Method Not Allowed")
    ∷ (408, codes "Request Timeout")
    ∷ (407, codes "Proxy Authentication Required")
    ∷ (410, codes "Gone")
    ∷ (409, codes "Conflict")
    ∷ (412, codes "Precondition Failed")
    ∷ (411, codes "Length Required")
    ∷ (414, codes "URI Too Long")
    ∷ (413, codes "Payload Too Large")
    ∷ (416, codes "Range Not Satisfiable")
    ∷ (415, codes "Unsupported Media Type")
    ∷ (418, codes "I'm a teapot")
    ∷ (417, codes "Expectation Failed")
    ∷ (425, codes "Too Early")
    ∷ (422, codes "Unprocessable Entity")
    ∷ (428, codes "Precondition Required")
    ∷ (426, codes "Upgrade Required")
    ∷ (431, codes "Request Header Fields Too Large")
    ∷ (429, codes "Too Many Requests")
    ∷ (500, codes "Internal Server Error")
    ∷ (451, codes "Unavailable For Legal Reasons")
    ∷ (502, codes "Bad Gateway")
    ∷ (501, codes "Not Implemented")
    ∷ (504, codes "Gateway Timeout")
    ∷ (503, codes "Service Unavailable")
    ∷ (506, codes "Variant Also Negotiates")
    ∷ (505, codes "HTTP Version Not Supported")
    ∷ (508, codes "Loop Detected")
    ∷ (507, codes "Insufficient Storage")
    ∷ (511, codes "Network Authentication Required")
    ∷ (510, codes "Not Extended")
    ∷ []

unfoldable pub find_status : ℕ → List (ℕ × Bytes) → Option Bytes
find_status n [] = none
find_status n ((k, text) ∷ m) = if k == n then some text else find_status n m

-- `mStatusMap[statusCode]`, which is "" for a code that is not there.
unfoldable pub description : ℕ → Bytes
unfolding find_status status_map
description n = elim (find_status n status_map) [ none ↦ [] | some text ↦ text ]

unfoldable pub is_known : ℕ → Bool
unfolding find_status status_map
is_known n = elim (find_status n status_map) [ none ↦ false | some text ↦ true ]

unfoldable pub make_first_line : ℕ → Bytes
unfolding description itos
make_first_line code = codes "HTTP/1.1 " ++ (itos (pos code) ++ (b' ' ∷ description code))

-- `mHeaders[key] = value`
unfoldable pub set_headers : Bytes → Bytes → Response → Response
unfolding put
set_headers key value r = record r { headers = put key value r.headers }

abbrev pub set_body : Bytes → Response → Response
set_body body r = record r { body = body }

-- The length of a text as the sources print it: an `int`.
abbrev pub length_text : Bytes → Bytes
length_text s = itos (pos (length s))

-- Response::Response(connection, statusCode, body). The two counters start at 0.
unfoldable pub new_response : ℕ → Bytes → Response
unfolding make_first_line set_headers
new_response code body = set_headers (codes "Content-Length") (length_text body) (record {
  status_code = code;
  first_line = make_first_line code;
  headers = [];
  transfer_type = general;
  body = body;
  http_message = [];
  seek = 0;
  http_message_length = 0;
})

unfoldable pub header_text : Dict → Bytes
header_text [] = []
header_text ((key, value) ∷ m) = key ++ (codes ": " ++ (value ++ (crlf ++ header_text m)))

unfoldable pub make_http_message : Response → Bytes
unfolding header_text
make_http_message r = r.first_line ++ (crlf ++ (header_text r.headers ++ (crlf ++ r.body)))

abbrev page_template : Bytes
page_template =
    codes
      "<html><head><title>statusCode STATUS_DESCRIPTION</title></head><body bgcolor=\"white\"><center>\n"
    ++ (codes "<h1>statusCode STATUS_DESCRIPTION</h1></center><hr>\n"
        ++ (codes "<h2>Method: METHOD</h2></center><hr>\n"
            ++ codes "<center>YKK_Webserver</center></body></html>"))

unfoldable pub make_status_page : ℕ → Bytes → Bytes
unfolding replace_all description itos
make_status_page code method =
    let coded = replace_all page_template (codes "statusCode") (itos (pos code)) in
    let described = replace_all coded (codes "STATUS_DESCRIPTION") (description code) in
    replace_all described (codes "METHOD") method

-- `clearHeaders`, then each entry of the other map is put.
unfoldable pub put_all : Dict → Dict → Dict
unfolding put
put_all [] m = m
put_all ((key, value) ∷ ref) m = put_all ref (put key value m)

unfoldable pub copy_headers : Dict → Response → Response
unfolding put_all
copy_headers ref r = record r { headers = put_all ref [] }

-- The header tells the length of the body.
abbrev pub IsSized : Response → Type 0
IsSized r = lookup (codes "Content-Length") r.headers ≡ some (length_text r.body)

pub new_response-IsSized : (code : ℕ) (body : Bytes) → IsSized (new_response code body)
unfolding new_response
new_response-IsSized code body =
    lookup-put (codes "Content-Length") (codes "Content-Length") (length_text body) []

-- A header of another name leaves the length as it is.
pub set_headers-IsSized :
    (key value : Bytes) (r : Response)
    → equal key (codes "Content-Length") ≡ false
    → IsSized r
    → IsSized (set_headers key value r)
unfolding set_headers
set_headers-IsSized key value r h s =
    lookup-put key (codes "Content-Length") value r.headers ∙ rw h s

pub set_length-IsSized :
    (r : Response) → IsSized (set_headers (codes "Content-Length") (length_text r.body) r)
unfolding set_headers
set_length-IsSized r =
    lookup-put (codes "Content-Length") (codes "Content-Length") (length_text r.body) r.headers

ok_page : make_first_line 404 ≡ codes "HTTP/1.1 404 Not Found"
unfolding make_first_line
ok_page = refl
