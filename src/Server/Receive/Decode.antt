-- ===== src/Server/Receive/Decode.antt =====
-- What is decoded from a body in chunks.
use mathlib.Core.Path.{ap₂}
use ok.Base.{
  drop-append_two, ℕ, zero, suc, ◌+◌, ◌-◌, ◌<◌, List, [], ◌∷◌, ◌++◌, append_assoc, true, false,
  none, some, ◌≡◌, refl, ap, ◌∙◌, arith, drop, length, length-append, take-append_length, drop-drop,
  All,
}
use ok.Text.{Bytes, crlf, find, find_from, slice}
use ok.Text.Find.{find-crlf-append}
use ok.Result.{done, and_then}
use ok.Request.{Request, add_body}
use ok.Server.Receive.{unless_last, take_chunk, chunk_loop}
use ok.Utils.Number.{stohex}
use ok.Server.Receive.Chunks.{chunk_loop-at}

-- A line that stands at a position: its end is found, it is the slice up to there, and the rest
-- stands behind its CRLF.
pub record LineAt (message : Bytes) (seek : ℕ) (line rest : Bytes) : Type 0 where
  pub found : find_from crlf message seek ≡ some (seek + length line)
  pub sliced : slice message seek (seek + length line - seek) ≡ line
  pub behind : drop (seek + length line + 2) message ≡ rest

pub line_at :
    (message : Bytes) (seek : ℕ) (line rest : Bytes)
    → drop seek message ≡ line ++ 13 ∷ 10 ∷ rest
    → find crlf line ≡ none
    → LineAt message seek line rest
line_at message seek line rest e h = record {
  found = unfold find_from in rw (e, find-crlf-append line rest h) refl;
  sliced =
      let n : seek + length line - seek ≡ length line = omega arith in
      rw (n, e) (take-append_length line (13 ∷ 10 ∷ rest));
  behind =
      let n : seek + length line + 2 ≡ seek + (length line + 2) = omega arith in
      rw (n, ← drop-drop (length line + 2) seek message, e) (drop-append_two line 13 10 rest);
}

-- A size line and the data of a chunk that the decoder can take.
pub record IsChunk (c : Bytes × Bytes) : Type 0 where
  pub size_line : find crlf c.0 ≡ none
  pub data_line : find crlf c.1 ≡ none
  pub sized : stohex c.0 ≡ length c.1
  pub not_last : 0 < length c.1

unfoldable pub encode : List (Bytes × Bytes) → Bytes → Bytes
encode [] rest = rest
encode ((size, chunk) ∷ cs) rest = size ++ 13 ∷ 10 ∷ (chunk ++ 13 ∷ 10 ∷ encode cs rest)

unfoldable pub content : List (Bytes × Bytes) → Bytes
content [] = []
content ((size, chunk) ∷ cs) = chunk ++ content cs

take_chunk-next :
    (i j : ℕ) (r : Request) (size chunk : Bytes)
    → slice r.http_message r.seek (i - r.seek) ≡ size
    → slice r.http_message (i + 2) (j - (i + 2)) ≡ chunk
    → stohex size ≡ length chunk
    → 0 < length chunk
    → take_chunk i j r
      ≡ (record r { seek = i + 2 + length chunk + 2; body = r.body ++ chunk }, done false)
unfolding take_chunk add_body
take_chunk-next i j r size chunk e f s h = ground arith

take_chunk-last :
    (i j : ℕ) (r : Request) (size : Bytes)
    → slice r.http_message r.seek (i - r.seek) ≡ size
    → slice r.http_message (i + 2) (j - (i + 2)) ≡ []
    → stohex size ≡ 0
    → take_chunk i j r ≡ (record r { seek = i + 2; body = r.body ++ [] }, done true)
unfolding take_chunk add_body
take_chunk-last i j r size e f s = ground arith

pub find-crlf-nil : find crlf [] ≡ none
unfolding find
find-crlf-nil = refl

-- A body that is sent in chunks, none of which holds a CRLF, is decoded to the bytes of its chunks in
-- their order, and the decoder stops behind the size line of the last chunk.
pub chunk_loop-encode :
    (fuel : ℕ) (r : Request) (cs : List (Bytes × Bytes)) (last rest : Bytes)
    → length cs < fuel
    → All IsChunk cs
    → find crlf last ≡ none
    → stohex last ≡ 0
    → drop r.seek r.http_message ≡ encode cs (last ++ 13 ∷ 10 ∷ 13 ∷ 10 ∷ rest)
    → chunk_loop fuel r ≡ (
      record r { seek = r.seek + length (encode cs (last ++ crlf)); body = r.body ++ content cs },
      done true,
    )
unfolding encode content
chunk_loop-encode zero r cs last rest b h p q e = absurd (omega arith)
chunk_loop-encode (suc fuel) r [] last rest b h p q e =
    let a = line_at r.http_message r.seek last (13 ∷ 10 ∷ rest) e p in
    let d = line_at r.http_message (r.seek + length last + 2) [] rest a.behind find-crlf-nil in
    let n : r.seek + length last + 2 + 0 ≡ r.seek + length last + 2 = omega arith in
    chunk_loop-at fuel r _ _ a.found d.found
    ∙ ap (λ x. and_then x (unless_last (chunk_loop fuel)))
        (take_chunk-last _ _ r last a.sliced d.sliced q)
    ∙ ap (λ (k : ℕ). (record r { seek = k; body = r.body ++ [] }, done true))
        (omega (arith, length-append last crlf))
chunk_loop-encode (suc fuel) r ((size, chunk) ∷ cs) last rest b h p q e =
    let a = line_at r.http_message r.seek size _ e h.0.size_line in
    let d = line_at r.http_message (r.seek + length size + 2) chunk _ a.behind h.0.data_line in
    let i = r.seek + length size in
    let end = encode cs (last ++ crlf) in
    chunk_loop-at fuel r _ _ a.found d.found
    ∙ ap (λ x. and_then x (unless_last (chunk_loop fuel)))
        (take_chunk-next i _ r size chunk a.sliced d.sliced h.0.sized h.0.not_last)
    ∙ chunk_loop-encode fuel (record r { seek = i + 2 + length chunk + 2; body = r.body ++ chunk })
        cs last rest (omega arith) h.1 p q d.behind
    ∙ ap₂ (λ (k : ℕ) (w : Bytes). (record r { seek = k; body = w }, done true))
        (omega (
          arith,
          length-append size (13 ∷ 10 ∷ (chunk ++ 13 ∷ 10 ∷ end)),
          length-append chunk (13 ∷ 10 ∷ end),
        ))
        (append_assoc r.body chunk (content cs))
