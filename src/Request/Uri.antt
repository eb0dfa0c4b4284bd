-- ===== src/Request/Uri.antt =====
-- What ParseURI reads, and which URIs it refuses.
use ok.Base.{
  drop-append_suc, ℕ, ◌≤◌, ◌<◌, [], ◌∷◌, ◌++◌, append-nil, Option, none, some, ◌≡◌, refl, arith,
  length, length-append, take-append_length,
}
use ok.Text.{Bytes, find_last}
use ok.Text.Find.{Lacks, find_last-append}
use ok.Result.{done, thrown}
use ok.Request.{Request, file_uri, cut_query, cut_parameter, cut_file_name, classify, parse_uri}

-- An optional part of a URI behind its mark.
abbrev pub part : ℕ → Option Bytes → Bytes
part c none = []
part c (some s) = c ∷ s

-- The last mark is the one in front of the part, or there is none.
abbrev pub IsLast : ℕ → Bytes → Option Bytes → Type 0
IsLast c before none = Lacks c before
IsLast c before (some s) = Lacks c s

abbrev pub with_query : Option Bytes → Request → Request
with_query none r = r
with_query (some s) r = record r { query = s }

abbrev pub with_parameter : Option Bytes → Request → Request
with_parameter none r = r
with_parameter (some s) r = record r { parameter = s }

-- The directory keeps its slash where no file name follows.
abbrev pub located : Bytes → Bytes → Request → Request
located dir [] r = record r { directory = dir ++ b'/' ∷ [] }
located dir (c ∷ name) r = record r { uri_type = file_uri; file_name = c ∷ name; directory = dir }

Lacks-find_last : (c : ℕ) (s : Bytes) → Lacks c s → find_last c s ≡ none
unfolding find_last
Lacks-find_last c [] h = refl
Lacks-find_last c (x ∷ s) h = ground (arith, Lacks-find_last c s h.1)

cut_query-part :
    (a : Bytes) (q : Option Bytes) (r : Request)
    → IsLast b'?' a q
    → cut_query (a ++ part b'?' q) r ≡ (with_query q r, done a)
unfolding cut_query
cut_query-part a none r h = rw append-nil (rw (Lacks-find_last b'?' a h, cut_query) refl)
cut_query-part a (some s) r h =
    rw (find_last-append b'?' a s h, cut_query)
      (rw (drop-append_suc a b'?' s, take-append_length a (b'?' ∷ s)) refl)

cut_parameter-part :
    (a : Bytes) (p : Option Bytes) (r : Request)
    → IsLast b';' a p
    → cut_parameter (a ++ part b';' p) r ≡ (with_parameter p r, done a)
unfolding cut_parameter
cut_parameter-part a none r h = rw append-nil (rw (Lacks-find_last b';' a h, cut_parameter) refl)
cut_parameter-part a (some s) r h =
    rw (find_last-append b';' a s h, cut_parameter)
      (rw (drop-append_suc a b';' s, take-append_length a (b';' ∷ s)) refl)

cut_file_name-located :
    (dir name : Bytes) (r : Request)
    → Lacks b'/' name
    → cut_file_name (dir ++ b'/' ∷ name) r ≡ (located dir name r, done tt)
unfolding cut_file_name
cut_file_name-located dir [] r h =
    ground (arith, find_last-append b'/' dir [] h, length-append dir (b'/' ∷ []))
cut_file_name-located dir (c ∷ name) r h = ground (
  arith,
  find_last-append b'/' dir (c ∷ name) h,
  length-append dir (b'/' ∷ c ∷ name),
  drop-append_suc dir b'/' (c ∷ name),
  take-append_length dir (b'/' ∷ c ∷ name),
)

-- A URI of at most 200 bytes that is put together from a directory, a file name, and perhaps a
-- parameter and a query, is taken apart into just these, if no part holds its own mark again.
pub parse_uri-parts :
    (r : Request) (dir name : Bytes) (p q : Option Bytes)
    → let path = dir ++ b'/' ∷ name in
      let text = (path ++ part b';' p) ++ part b'?' q in
      Lacks b'/' name
      → IsLast b';' path p
      → IsLast b'?' (path ++ part b';' p) q
      → length text ≤ 200
      → parse_uri text r ≡ (
        classify (located dir name (with_parameter p (with_query q (record r { uri = text })))),
        done tt,
      )
unfolding parse_uri
parse_uri-parts r dir name p q hn hp hq bound =
    let path = dir ++ b'/' ∷ name in
    let named = record r { uri = (path ++ part b';' p) ++ part b'?' q } in
    ground (
      arith,
      cut_query-part (path ++ part b';' p) q named hq,
      cut_parameter-part path p (with_query q named) hp,
      cut_file_name-located dir name (with_parameter p (with_query q named)) hn,
    )

cut_file_name_fails :
    (path : Bytes) (r : Request) → Lacks b'/' path → cut_file_name path r ≡ (r, thrown 400)
unfolding cut_file_name
cut_file_name_fails path r h = rw (Lacks-find_last b'/' path h, cut_file_name) refl

-- A URI whose path has no slash is refused, with 414 if it is longer than 200 bytes and with 400
-- otherwise, whatever stands in its parameter and its query; every URI of more than 200 bytes is
-- refused with 414.
pub parse_uri_refuses :
    (r : Request) (path : Bytes) (p q : Option Bytes)
    → let text = (path ++ part b';' p) ++ part b'?' q in
      IsLast b';' path p
      → IsLast b'?' (path ++ part b';' p) q
      → (200 < length text → (parse_uri text r).1 ≡ thrown 414)
        × (length text ≤ 200 → Lacks b'/' path → (parse_uri text r).1 ≡ thrown 400)
unfolding parse_uri
parse_uri_refuses r path p q hp hq =
    let named = record r { uri = (path ++ part b';' p) ++ part b'?' q } in
    (
      λ long. ground arith,
      λ short no_slash. ground (
        arith,
        cut_query-part (path ++ part b';' p) q named hq,
        cut_parameter-part path p (with_query q named) hp,
        cut_file_name_fails path (with_parameter p (with_query q named)) no_slash,
      ),
    )
