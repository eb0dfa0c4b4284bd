-- ===== src/Request/Parts.antt =====
-- What AddHeader stores, and which protocol versions ParseVersion takes.
use ok.Base.{
  drop-append_two, ℕ, ◌+◌, ◌*◌, ◌<◌, [], ◌∷◌, ◌++◌, map, ◌&&◌, none, some, ◌≡◌, ◌↔◌, refl, ap, ◌∙◌,
  arith, leb, if◌then◌else◌, take-append_length,
}
use ok.Text.{Bytes, codes, equal, starts_with, find, lower}
use ok.Text.Find.{find_mark-append}
use ok.Dict.{lookup, insert, lookup-insert}
use ok.Result.{done, thrown}
use ok.Request.{Request, host_value, store_header, note_transfer, add_header, parse_version}
use ok.Utils.Number.{atoi}

-- What is stored under a key: the value, without the port for "host".
abbrev pub kept_value : Bytes → Bytes → Bytes
kept_value key value = if equal (map lower key) (codes "host") then host_value value else value

note_transfer-headers : (k v : Bytes) (r : Request) → (note_transfer k v r).headers ≡ r.headers
unfolding note_transfer
note_transfer-headers k v r = ground arith

store_header-lookup :
    (r : Request) (key value j : Bytes)
    → lookup j (store_header (map lower key) value r).headers
      ≡ elim (lookup (map lower key) r.headers) [
        | none ↦ if equal (map lower key) j then some (kept_value key value) else lookup j r.headers
        | some w ↦ lookup j r.headers
      ]
unfolding store_header
store_header-lookup r key value j =
    ap (λ m. lookup j (insert (map lower key) (kept_value key value) m))
      (note_transfer-headers (map lower key) value r)
    ∙ lookup-insert (map lower key) j (kept_value key value) r.headers

add_header-store_header :
    (r : Request) (key value : Bytes)
    → find (codes ": ") key ≡ none
    → add_header (key ++ b':' ∷ b' ' ∷ value) r ≡ (store_header (map lower key) value r, done tt)
unfolding add_header
add_header-store_header r key value h =
    rw (find_mark-append b':' b' ' key value (omega arith) h, add_header)
      (rw (take-append_length key (b':' ∷ b' ' ∷ value), drop-append_two key b':' b' ' value) refl)

-- A line `key: value` is stored under the key in lower case. A key that is there already keeps its
-- value, so the first of two headers wins, and all other keys are as before.
pub add_header-lookup :
    (r : Request) (key value j : Bytes)
    → find (codes ": ") key ≡ none
    → let (r', result) = add_header (key ++ b':' ∷ b' ' ∷ value) r in
      (result ≡ done tt)
      × (lookup j r'.headers ≡ elim (lookup (map lower key) r.headers) [
        | none ↦ if equal (map lower key) j then some (kept_value key value) else lookup j r.headers
        | some w ↦ lookup j r.headers
      ])
add_header-lookup r key value j h =
    rw (add_header-store_header r key value h) (refl, store_header-lookup r key value j)

-- A line with no ": " in it is refused with 400, and the request stays as it is.
pub add_header_refuses :
    (r : Request) (line : Bytes)
    → ((add_header line r).1 ≡ thrown 400) ↔ (find (codes ": ") line ≡ none)
unfolding add_header
add_header_refuses r line = ground arith

abbrev pub version_text : ℕ → ℕ → Bytes
version_text major minor = codes "HTTP/" ++ (b'0' + major) ∷ b'.' ∷ (b'0' + minor) ∷ []

-- Of the versions with two digits those from HTTP/0.1 to HTTP/1.1 are taken, and all others are
-- refused with 505.
pub parse_version_range :
    (r : Request) (major minor : ℕ)
    → major < 10
    → minor < 10
    → (parse_version (version_text major minor) r).1
      ≡ (if leb 1 (major * 10 + minor) && leb (major * 10 + minor) 11 then done tt else thrown 505)
unfolding parse_version equal find starts_with atoi
parse_version_range r major minor h k = ground arith
