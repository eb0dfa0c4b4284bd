-- ===== src/Tests/Receiving.antt =====
-- Reading a request: Server/Receive.
use ok.Base.{length, ◌+◌, inr, [], ◌∷◌, ◌++◌, true, false, ◌≡◌, refl, arith}
use ok.Text.{Bytes, codes, equal, find, find_from}
use ok.Result.{done}
use ok.Request.{Request, ready, on_body, chunked, set_seek, add_body, add_http_message, new_request}
use ok.Server.Receive.{
  header_loop, take_chunk, chunk_loop, parse_body, is_request_has_body, start_phase, header_phase,
  body_phase, arrived, recv_request,
}
use ok.Utils.Number.{stohex}
use ok.Server.Receive.Decode.{encode, content, IsChunk, chunk_loop-encode}
use ok.Server.Receive.Block.{block, store_lines, IsLine, header_loop-block}
use ok.Server.Receive.Chunks.{Ends, chunk_loop-Ends}
use ok.Server.Receive.Pieces.{start, read, joined, recv_request-pieces}
use ok.Text.{find_last}
use ok.Utils.Number.{atoi}
use ok.Text.Find.{any-Lacks}
use ok.Dict.{lookup, insert}
use ok.Request.{
  complete, file_to_create, parse_uri, cut_query, cut_parameter, cut_file_name, classify,
  add_header, store_header,
}
use ok.Request.{parse_version, note_transfer}
use ok.Server.Receive.{parse_start_line, parse_method, parse_target, parse_protocol, parse_header}
use ok.Server.Receive.Bodies.{Body}
use ok.Server.Receive.Start.{start_line, start_length}
use ok.Server.Receive.Message.{http_1_1, named, with_lines, recv_request-message}

-- A request whose body is cut in two.
abbrev waiting : Request
waiting = record new_request { phase = on_body; method = codes "POST"; transfer_type = chunked }

abbrev first_part : Bytes
first_part = codes "3\r\nabc\r\n0"

abbrev between : Request
between = record waiting { http_message = first_part; seek = 8; body = codes "abc" }

first_read : recv_request (arrived first_part) waiting ≡ (between, done false)
unfolding recv_request add_http_message start_phase header_phase body_phase is_request_has_body
    parse_body chunk_loop take_chunk add_body find find_from stohex equal new_request
first_read = refl

ready_start : waiting.phase ≡ ready → waiting.seek ≡ 0
unfolding new_request
ready_start e = refl

-- The rest of it comes in two reads.
abbrev line_end : Bytes
line_end = codes "\r\n"

abbrev nearly : Request
nearly = record between { http_message = first_part ++ line_end }

second_read : recv_request (arrived line_end) between ≡ (nearly, done false)
unfolding recv_request add_http_message start_phase header_phase body_phase is_request_has_body
    parse_body chunk_loop take_chunk add_body find find_from stohex equal new_request
second_read = refl

recv_request-pieces_example :
    recv_request (arrived line_end) nearly
    ≡ recv_request (arrived (joined (first_part ∷ line_end ∷ []) line_end)) waiting
recv_request-pieces_example =
    recv_request-pieces waiting nearly (first_part ∷ line_end ∷ []) line_end ready_start
      (read first_read (read second_read start))

-- A request in the middle of its body.
abbrev chunked_request : Request
chunked_request = record new_request {
  http_message = codes "3\r\nabc\r\n0\r\n\r\n";
  phase = on_body;
  transfer_type = chunked;
}

abc-IsChunk : IsChunk (codes "3", codes "abc")
unfolding find stohex
abc-IsChunk = record { size_line = refl; data_line = refl; sized = refl; not_last = omega arith }

chunk_loop-encode_example :
    chunk_loop 2 chunked_request
    ≡ (record chunked_request { seek = 11; body = codes "abc" }, done true)
unfolding encode content new_request find stohex
chunk_loop-encode_example =
    chunk_loop-encode 2 chunked_request ((codes "3", codes "abc") ∷ []) (codes "0") [] (omega arith)
      (abc-IsChunk, tt) refl refl refl

chunk_loop-Ends_example :
    Ends (chunk_loop 14 chunked_request)
    × ((chunk_loop 14 chunked_request).0.http_message ≡ chunked_request.http_message)
unfolding new_request
chunk_loop-Ends_example = chunk_loop-Ends 14 chunked_request (omega arith)

abbrev header_request : Request
header_request = record new_request { http_message = codes "a: b\r\nc: d\r\n\r\nrest" }

a-IsLine : IsLine (codes "a: b")
unfolding find
a-IsLine = record { no_crlf = refl; has_colon = λ e. absurd (cc e); not_empty = omega arith }

c-IsLine : IsLine (codes "c: d")
unfolding find
c-IsLine = record { no_crlf = refl; has_colon = λ e. absurd (cc e); not_empty = omega arith }

header_loop-block_example :
    header_loop 3 header_request
    ≡ (set_seek 14 (store_lines (codes "a: b" ∷ codes "c: d" ∷ []) header_request), done tt)
unfolding block new_request
header_loop-block_example =
    header_loop-block 3 header_request (codes "a: b" ∷ codes "c: d" ∷ []) (codes "rest")
      (omega arith) (a-IsLine, (c-IsLine, tt)) refl

-- A request with a body, whole.
abbrev host_line : Bytes
host_line = codes "Host: here"

abbrev length_line : Bytes
length_line = codes "Content-Length: 3"

abbrev put_uri : Bytes
put_uri = codes "/a/b"

abbrev put_text : Bytes
put_text =
    start_line (codes "PUT") put_uri http_1_1 (block (host_line ∷ length_line ∷ []) (codes "abc"))

abbrev put_located : Request
put_located = record (named (codes "PUT") put_text) {
  uri = put_uri;
  directory = codes "/a";
  file_name = codes "b";
  uri_type = file_to_create;
}

put_uri_read : parse_uri put_uri (named (codes "PUT") put_text) ≡ (put_located, done tt)
unfolding parse_uri find_last equal new_request cut_query cut_parameter cut_file_name classify
put_uri_read = refl

host_line-IsLine : IsLine host_line
unfolding find
host_line-IsLine = record {
  no_crlf = refl;
  has_colon = λ e. absurd (cc e);
  not_empty = omega arith;
}

length_line-IsLine : IsLine length_line
unfolding find
length_line-IsLine = record {
  no_crlf = refl;
  has_colon = λ e. absurd (cc e);
  not_empty = omega arith;
}

put_text-Body :
    Body
      (with_lines (codes "PUT") put_uri put_located (host_line ∷ length_line ∷ []))
      (codes "abc")
      (codes "abc")
unfolding store_lines add_header store_header is_request_has_body equal lookup atoi find new_request
    note_transfer insert
put_text-Body = inr (refl, refl, refl, omega arith, codes "3", refl, refl)

recv_request-message_example : recv_request (arrived put_text) new_request ≡ (
  record (with_lines (codes "PUT") put_uri put_located (host_line ∷ length_line ∷ [])) {
    seek =
        start_length (codes "PUT") put_uri http_1_1
        + length (block (host_line ∷ length_line ∷ []) []);
    phase = complete;
    body = codes "abc";
  },
  done true,
)
recv_request-message_example =
    recv_request-message (codes "PUT") put_uri host_line (length_line ∷ []) (codes "abc")
      (codes "abc") put_located (any-Lacks b' ' (codes "PUT") refl) (any-Lacks b' ' put_uri refl)
      put_uri_read (host_line-IsLine, (length_line-IsLine, tt)) put_text-Body

-- A request without header lines is never complete.
abbrev bare_text : Bytes
bare_text = codes "GET / HTTP/1.1\r\n\r\n"

bare_text_waits : (recv_request (arrived bare_text) new_request).1 ≡ done false
unfolding recv_request start_phase add_http_message new_request parse_start_line find parse_method
    parse_target find_from parse_uri cut_query find_last cut_parameter cut_file_name parse_protocol
    classify equal parse_version atoi header_phase body_phase parse_header
bare_text_waits = refl
