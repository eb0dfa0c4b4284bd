-- ===== src/Server/Receive/Start.antt =====
-- The start line of a request that is there whole.
use ok.Base.{
  drop-append_suc, ℕ, suc, ◌+◌, [], ◌∷◌, ◌++◌, true, false, none, some, ◌≡◌, refl, sym, ap, ◌∙◌,
  arith, ltb, drop, length, length-append, length-drop, take-append_length, drop-drop,
}
use ok.Text.{Bytes, find}
use ok.Text.{crlf, find_from, sub_size}
use ok.Text.Find.{Lacks, find_byte-append}
use ok.Result.{done}
use ok.Request.{Request, set_seek, parse_uri, parse_version}
use ok.Request.Frame.{parse_uri-Keeps, parse_version-Keeps}
use ok.Server.Receive.{substr, parse_method, parse_target, parse_protocol, start_words}
use ok.Server.Receive.Decode.{line_at}

-- A word that stands at a position and ends in front of a byte that it lacks.
record WordAt (c : ℕ) (message : Bytes) (seek : ℕ) (word rest : Bytes) : Type 0 where
  found : find_from (c ∷ []) message seek ≡ some (seek + length word)
  taken : substr message seek (sub_size (seek + length word) seek) ≡ done word
  behind : drop (suc (seek + length word)) message ≡ rest

sub_size_ahead : (seek n : ℕ) → sub_size (seek + n) seek ≡ n
sub_size_ahead seek n = ground arith

-- What stands at a position is there to be taken.
substr_at :
    (message : Bytes) (seek c : ℕ) (word rest : Bytes)
    → drop seek message ≡ word ++ c ∷ rest
    → substr message seek (sub_size (seek + length word) seek) ≡ done word
substr_at message seek c word rest e =
    let inside : ltb (length message) seek ≡ false =
      ground (arith, length-drop seek message, ap (length {0}) e, length-append word (c ∷ rest)) in
    rw (inside, sub_size_ahead seek (length word), e) (ap done (take-append_length word (c ∷ rest)))

word_at :
    (c : ℕ) (message : Bytes) (seek : ℕ) (word rest : Bytes)
    → drop seek message ≡ word ++ c ∷ rest
    → Lacks c word
    → WordAt c message seek word rest
word_at c message seek word rest e h = record {
  found = unfold find_from in rw (e, find_byte-append c word rest h) refl;
  taken = substr_at message seek c word rest e;
  behind =
      let n : suc (seek + length word) ≡ seek + suc (length word) = omega arith in
      rw (n, ← drop-drop (suc (length word)) seek message, e) (drop-append_suc word c rest);
}

parse_method_at :
    (r : Request) (method rest : Bytes)
    → r.seek ≡ 0
    → r.http_message ≡ method ++ 32 ∷ rest
    → Lacks 32 method
    → parse_method r ≡ (record r { method = method; seek = suc (length method) }, done tt)
unfolding parse_method
parse_method_at r method rest s e h =
    let inside : ltb (length (method ++ 32 ∷ rest)) 0 ≡ false = ground arith in
    let n : sub_size (length method) 0 ≡ length method = ground arith in
    rw (s, e, find_byte-append 32 method rest h, inside, n, take-append_length method (32 ∷ rest))
      refl

parse_target_at :
    (r u : Request) (uri rest : Bytes)
    → drop r.seek r.http_message ≡ uri ++ 32 ∷ rest
    → Lacks 32 uri
    → parse_uri uri r ≡ (u, done tt)
    → parse_target r ≡ (set_seek (suc (r.seek + length uri)) u, done tt)
unfolding parse_target
parse_target_at r u uri rest e h p =
    let w = word_at 32 r.http_message r.seek uri rest e h in rw (w.found, w.taken, p) refl

parse_protocol_at :
    (r u : Request) (version rest : Bytes)
    → drop r.seek r.http_message ≡ version ++ 13 ∷ 10 ∷ rest
    → find crlf version ≡ none
    → parse_version version r ≡ (u, done tt)
    → parse_protocol r ≡ (set_seek (r.seek + length version + 2) u, done tt)
unfolding parse_protocol
parse_protocol_at r u version rest e h p =
    let w = line_at r.http_message r.seek version rest e h in
    rw (w.found, substr_at r.http_message r.seek 13 version (10 ∷ rest) e, p) refl

-- The text of a start line, in front of a rest.
unfoldable pub start_line : Bytes → Bytes → Bytes → Bytes → Bytes
start_line method uri version rest = method ++ (32 ∷ (uri ++ (32 ∷ (version ++ (13 ∷ 10 ∷ rest)))))

-- The position behind a start line.
abbrev pub start_length : Bytes → Bytes → Bytes → ℕ
start_length method uri version = suc (suc (length method) + length uri) + length version + 2

-- The start line is read word by word; the rest stands behind its end.
pub start_words_at :
    (r u v : Request) (method uri version rest : Bytes)
    → r.seek ≡ 0
    → r.http_message ≡ start_line method uri version rest
    → Lacks 32 method
    → Lacks 32 uri
    → find crlf version ≡ none
    → parse_uri uri (record r { method = method; seek = suc (length method) }) ≡ (u, done tt)
    → parse_version version (set_seek (suc (suc (length method) + length uri)) u) ≡ (v, done tt)
    → let n = start_length method uri version in
      (start_words r ≡ (set_seek n v, done true)) × (drop n v.http_message ≡ rest)
unfolding start_words start_line
start_words_at r u v method uri version rest s e hm hu hv pu pv =
    let a = record r { method = method; seek = suc (length method) } in
    let i = suc (suc (length method) + length uri) in
    let b = set_seek i u in
    let first : drop (suc (length method)) r.http_message
        ≡ uri ++ 32 ∷ (version ++ 13 ∷ 10 ∷ rest) =
      ap (drop (suc (length method))) e
      ∙ drop-append_suc method 32 (uri ++ (32 ∷ (version ++ (13 ∷ 10 ∷ rest)))) in
    let w =
      word_at 32 r.http_message (suc (length method)) uri (version ++ 13 ∷ 10 ∷ rest) first hu in
    let same_u : u.http_message ≡ r.http_message =
      ap (λ x. x.0.http_message) (sym pu) ∙ (parse_uri-Keeps uri a).same_message in
    let second : drop b.seek b.http_message ≡ version ++ 13 ∷ 10 ∷ rest =
      ap (drop i) same_u ∙ w.behind in
    let l = line_at b.http_message b.seek version rest second hv in
    (
      rw
          (
            parse_method_at r method (uri ++ (32 ∷ (version ++ (13 ∷ 10 ∷ rest)))) s e hm,
            parse_target_at a u uri (version ++ 13 ∷ 10 ∷ rest) first hu pu,
            parse_protocol_at b v version rest second hv pv,
          )
          refl,
      ap (λ x. drop (i + length version + 2) x.0.http_message) (sym pv)
          ∙ ap (drop (i + length version + 2)) (parse_version-Keeps version b).same_message
          ∙ l.behind,
    )
