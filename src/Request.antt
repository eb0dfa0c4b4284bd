-- ===== src/Request.antt =====
-- srcs/Request.hpp and Request.cpp: the request that is being read, and the parsers of its parts.
-- The time stamp of the constructor is not modelled.
pub mod Uri
pub mod Parts
pub mod Frame
use ok.Base.{
  ℕ, suc, ◌+◌, ◌-◌, [], ◌∷◌, ◌++◌, map, Bool, false, ◌&&◌, ◌||◌, not, none, some, ltb, ◌==◌,
  if◌then◌else◌, take, drop, length,
}
use ok.Base.Int.{ℤ, pos, ltb_ℤ}
use ok.Text.{Bytes, codes, equal, find, find_last, slice, lower}
use ok.Dict.{Dict, insert}
use ok.Result.{done, thrown, Act, ◌>>=◌, ◌>>◌, modify}
use ok.Utils.Number.{atoi}
use ok.Utils.Replace.{slash}

pub data UriType : Type 0 where
  directory_uri file_uri file_to_create cgi_program file_to_delete : UriType

pub data TransferType : Type 0 where
  general chunked : TransferType

pub data Phase : Type 0 where
  ready on_header on_body complete : Phase

-- The names that clash with the types' words are those of the fields with the `m` taken off.
pub record Request : Type 0 where
  pub phase : Phase
  pub seek : ℕ
  pub http_message : Bytes
  pub method : Bytes
  pub uri : Bytes
  pub directory : Bytes
  pub file_name : Bytes
  pub parameter : Bytes
  pub query : Bytes
  pub uri_type : UriType
  pub version : Bytes
  pub headers : Dict
  pub body : Bytes
  pub transfer_type : TransferType

-- Request::Request()
unfoldable pub new_request : Request
new_request = record {
  phase = ready;
  seek = 0;
  http_message = [];
  method = [];
  uri = [];
  directory = [];
  file_name = [];
  parameter = [];
  query = [];
  uri_type = directory_uri;
  version = [];
  headers = [];
  body = [];
  transfer_type = general;
}

unfoldable pub add_http_message : Bytes → Request → Request
add_http_message added r = record r { http_message = r.http_message ++ added }

unfoldable pub add_body : Bytes → Request → Request
add_body body r = record r { body = r.body ++ body }

abbrev pub set_seek : ℕ → Request → Request
set_seek seek r = record r { seek = seek }

-- `Transfer-Encoding` and `Host` are looked at; the first of two headers of one name stays.
unfoldable pub host_value : Bytes → Bytes
host_value value = elim (find (b':' ∷ []) value) [ none ↦ value | some found ↦ slice value 0 found ]

unfoldable pub note_transfer : Bytes → Bytes → Request → Request
note_transfer key value r =
    if equal key (codes "transfer-encoding")
    then elim (find (codes "chunked") value) [
      | none ↦ r
      | some found ↦ record r { transfer_type = chunked }
    ]
    else r

unfoldable pub store_header : Bytes → Bytes → Request → Request
store_header key value r =
    let noted = note_transfer key value r in
    record noted {
      headers =
          insert key (if equal key (codes "host") then host_value value else value) noted.headers;
    }

unfoldable pub add_header : Bytes → Act Request (Unit {0})
unfolding lower
add_header header r = elim (find (codes ": ") header) [
  | none ↦ (r, thrown 400)
  | some found ↦
      (store_header (map lower (slice header 0 found)) (drop (found + 2) header) r, done tt)
]

-- The three cuts of `ParseURI`, each of which shortens the text that the next one reads.
unfoldable pub cut_query : Bytes → Act Request Bytes
cut_query uri r = elim (find_last b'?' uri) [
  | none ↦ (r, done uri)
  | some found ↦ (record r { query = drop (suc found) uri }, done (take found uri))
]

unfoldable pub cut_parameter : Bytes → Act Request Bytes
cut_parameter uri r = elim (find_last b';' uri) [
  | none ↦ (r, done uri)
  | some found ↦ (record r { parameter = drop (suc found) uri }, done (take found uri))
]

unfoldable pub cut_file_name : Bytes → Act Request (Unit {0})
cut_file_name uri r = elim (find_last b'/' uri) [
  | none ↦ (r, thrown 400)
  | some found ↦ if found == length uri - 1 then (record r { directory = uri }, done tt) else (
    record r { uri_type = file_uri; file_name = drop (suc found) uri; directory = take found uri },
    done tt,
  )
]

-- `OPTIONS *` asks about the directory, and PUT and DELETE are told from the other methods.
is_star : Bytes → Bool
is_star name = elim (find_last b'*' name) [ none ↦ false | some i ↦ length name == 1 ]

unfoldable pub classify : Request → Request
unfolding is_star
classify r =
    let starred =
      if equal r.method (codes "OPTIONS") && is_star r.file_name
      then record r { file_name = []; uri_type = directory_uri }
      else r in
    let created =
      if equal r.method (codes "PUT")
      then record starred { uri_type = file_to_create }
      else starred in
    if equal r.method (codes "DELETE")
    then record created { uri_type = file_to_delete }
    else created

unfoldable pub cut_uri : Bytes → Act Request (Unit {0})
cut_uri uri = do
  rest ← cut_query uri
  path ← cut_parameter rest
  cut_file_name path
  modify classify

unfoldable pub parse_uri : Bytes → Act Request (Unit {0})
unfolding cut_uri
parse_uri uri r =
    let named = record r { uri = uri } in
    if ltb 200 (length uri) then (named, thrown 414) else cut_uri uri named

-- `version.find("/")` may be npos: then `substr(0, found)` is the whole text and `substr(found + 1)`
-- is it too.
abbrev pub scheme_of : Bytes → Bytes
scheme_of version = elim (find slash version) [ none ↦ version | some found ↦ take found version ]

abbrev number_of : Bytes → Bytes
number_of version = elim (find slash version) [
  | none ↦ version
  | some found ↦ drop (suc found) version
]

-- `version.erase(found, 1)`
abbrev erase_at : Bytes → ℕ → Bytes
erase_at s i = take i s ++ drop (suc i) s

abbrev is_supported : ℤ → Bool
is_supported num = not (ltb_ℤ (pos 11) num || not (ltb_ℤ (pos 0) num))

unfoldable pub parse_version : Bytes → Act Request (Unit {0})
parse_version version r =
    let kept = record r { version = version } in
    if not (equal (scheme_of version) (codes "HTTP"))
    then (kept, thrown 505)
    else elim (find (b'.' ∷ []) (number_of version)) [
      | none ↦ (kept, thrown 505)
      | some found ↦
          if is_supported (atoi (erase_at (number_of version) found))
          then (kept, done tt)
          else (kept, thrown 505)
    ]
