-- ===== src/Server/Receive.antt =====
-- The incremental parser of srcs/Server.cpp: recvRequest and the three parsers that it calls. They
-- work on the request of the connection.
pub mod Arrive
pub mod Stable
pub mod Headers
pub mod Chunks
pub mod Resume
pub mod Contents
pub mod Phases
pub mod Lines
pub mod Delivery
pub mod Pieces
pub mod Decode
pub mod Block
pub mod Start
pub mod Bodies
pub mod Message
use ok.Base.{
  ℕ, zero, suc, ◌+◌, ◌-◌, [], ◌∷◌, Bool, true, false, ◌||◌, not, none, some, ltb, ◌==◌,
  if◌then◌else◌, length,
}
use ok.Base.Int.{pos, ltb_ℤ}
use ok.Text.{Bytes, codes, crlf, npos, sub_size, equal, find, find_from, slice}
use ok.Dict.{lookup}
use ok.Result.{
  Result, done, thrown, failed, out_of_range, end_of_file, io_error, stuck, Act, and_then, ◌>>=◌,
  ◌>>◌, pure, get, modify, lift, or_throw,
}
use ok.Request.{
  Request, Phase, ready, on_header, on_body, complete, general, chunked, set_seek, add_body,
  add_header, add_http_message, parse_uri, parse_version,
}
use ok.Utils.Number.{atoi, stohex, int_of}

-- `s.substr(from, n)`, which throws if `from` is behind the end.
abbrev pub substr : Bytes → ℕ → ℕ → Result Bytes
substr s from n = if ltb (length s) from then failed out_of_range else done (slice s from n)

-- The three words of the start line. `find` is searched from the start of the message for the first
-- space, and from `mSeek` on for the rest.
unfoldable pub parse_method : Act Request (Unit {0})
parse_method = do
  request ← get
  found ← or_throw (find (b' ' ∷ []) request.http_message) 400
  method ← lift (substr request.http_message request.seek (sub_size found request.seek))
  modify (λ r. record r { method = method; seek = suc found })

unfoldable pub parse_target : Act Request (Unit {0})
parse_target = do
  request ← get
  found ← or_throw (find_from (b' ' ∷ []) request.http_message request.seek) 414
  target ← lift (substr request.http_message request.seek (sub_size found request.seek))
  parse_uri target
  modify (set_seek (suc found))

unfoldable pub parse_protocol : Act Request (Unit {0})
parse_protocol = do
  request ← get
  found ← or_throw (find_from crlf request.http_message request.seek) 505
  version ← lift (substr request.http_message request.seek (sub_size found request.seek))
  parse_version version
  modify (set_seek (found + 2))

unfoldable pub start_words : Act Request Bool
start_words = do parse_method; parse_target; parse_protocol; pure true

-- `false` means that the line is not there yet.
unfoldable pub parse_start_line : Act Request Bool
unfolding start_words
parse_start_line request = elim (find crlf request.http_message) [
  | none ↦ (request, done false)
  | some end ↦ start_words request
]

-- One round of the header loop, with the line that ends at `found`; an empty line is the last one.
unfoldable pub header_round : Act Request (Unit {0}) → ℕ → Bytes → Act Request (Unit {0})
header_round next found [] r = (set_seek (found + 2) r, done tt)
header_round next found (c ∷ line) r =
    and_then (add_header (c ∷ line) r) (λ _ s. next (set_seek (found + 2) s))

-- `while (true)` over the header lines. Each round goes behind the next CRLF, so the length of the
-- message bounds the rounds. Where CRLF is found, `mSeek` is a position of the message.
unfoldable pub header_loop : ℕ → Act Request (Unit {0})
header_loop zero r = (r, failed stuck)
header_loop (suc fuel) r = elim (find_from crlf r.http_message r.seek) [
  | none ↦ (r, thrown 400)
  | some found ↦
      header_round (header_loop fuel) found (slice r.http_message r.seek (found - r.seek)) r
]

unfoldable pub parse_header : Act Request Bool
parse_header r = elim (find_from (codes "\r\n\r\n") r.http_message r.seek) [
  | none ↦ (r, done false)
  | some found ↦ and_then (header_loop (suc (length r.http_message)) r) (λ _. pure true)
]

-- One chunk that is there whole: its size line ends at `found_hex` and its data at `found_body`.
-- `some true` means the last chunk.
unfoldable pub take_chunk : ℕ → ℕ → Act Request Bool
take_chunk found_hex found_body r =
    let size = stohex (slice r.http_message r.seek (found_hex - r.seek)) in
    let body = slice r.http_message (found_hex + 2) (found_body - (found_hex + 2)) in
    let moved = set_seek (found_hex + 2) r in
    if not (size == length body)
    then (moved, thrown 413)
    else if size == 0
    then (add_body body moved, done true)
    else (set_seek (found_hex + 2 + size + 2) (add_body body moved), done false)

abbrev pub unless_last : Act Request Bool → Bool → Act Request Bool
unless_last next true r = (r, done true)
unless_last next false r = next r

-- The length of the message bounds the rounds again.
unfoldable pub chunk_loop : ℕ → Act Request Bool
chunk_loop zero r = (r, failed stuck)
chunk_loop (suc fuel) r = elim (find_from crlf r.http_message r.seek) [
  | none ↦ (r, done false)
  | some found_hex ↦ elim (find_from crlf r.http_message (found_hex + 2)) [
    | none ↦ (r, done false)
    | some found_body ↦ and_then (take_chunk found_hex found_body r) (unless_last (chunk_loop fuel))
  ]
]

-- `int bodyLength = length() - GetSeek()`, and the two comparisons of `int`s.
unfoldable pub take_sized : Bytes → Act Request Bool
take_sized content_length r =
    let wanted = atoi content_length in
    let there = int_of (pos (sub_size (length r.http_message) r.seek)) in
    if ltb_ℤ there wanted
    then (r, done false)
    else if ltb_ℤ wanted there
    then (r, thrown 413)
    else and_then (r, substr r.http_message r.seek npos)
        (λ body s. (record s { body = body }, done true))

unfoldable pub parse_sized_body : Act Request Bool
parse_sized_body r = elim (lookup (codes "content-length") r.headers) [
  | none ↦ (r, thrown 411)
  | some content_length ↦ take_sized content_length r
]

unfoldable pub parse_body : Act Request Bool
parse_body r = elim r.transfer_type [
  | chunked ↦ chunk_loop (suc (length r.http_message)) r
  | general ↦ parse_sized_body r
]

unfoldable pub is_request_has_body : Request → Bool
is_request_has_body r = equal r.method (codes "POST") || equal r.method (codes "PUT")

-- The phases of recvRequest. The result says whether the request is complete, and with it whether
-- the connection's socket is put into the two write sets.
abbrev pub advance : Phase → Bool → Act Request (Unit {0})
advance next true r = (record r { phase = next }, done tt)
advance next false r = (r, done tt)

abbrev pub finish : Bool → Act Request Bool
finish true r = (record r { phase = complete }, done true)
finish false r = (r, done false)

unfoldable pub start_phase : Act Request (Unit {0})
start_phase r = elim r.phase [
  | ready ↦ and_then (parse_start_line r) (advance on_header)
  | _ ↦ (r, done tt)
]

unfoldable pub header_phase : Act Request (Unit {0})
header_phase r = elim r.phase [
  | on_header ↦ and_then (parse_header r) (advance on_body)
  | _ ↦ (r, done tt)
]

unfoldable pub body_phase : Act Request Bool
body_phase r = elim r.phase [
  | on_body ↦ if is_request_has_body r then and_then (parse_body r) finish else finish true r
  | _ ↦ (r, done false)
]

-- What `read` on the socket gives: some bytes, the end of the stream, or an error.
pub data Input : Type 0 where
  arrived : Bytes → Input
  closed broken : Input

unfoldable pub header_and_body : Act Request Bool
header_and_body r = and_then (header_phase r) (λ _. body_phase)

unfoldable pub phases : Act Request Bool
phases r = and_then (start_phase r) (λ _. header_and_body)

-- `read` gives no more than BUFFER_SIZE bytes at a time, and `arrived` stands for at least one.
unfoldable pub recv_request : Input → Act Request Bool
unfolding phases header_and_body
recv_request closed r = (r, failed end_of_file)
recv_request broken r = (r, failed io_error)
recv_request (arrived buf) r = phases (add_http_message buf r)
