-- ===== src/Server/Receive/Bodies.antt =====
-- The body of a request that is there whole.
use ok.Base.{
  ℕ, ◌+◌, ◌%◌, ◌^◌, ◌≤◌, ◌<◌, true, false, some, ◌≡◌, ◌⊎◌, inl, inr, refl, sym, ap, ◌∙◌, arith, ltb,
  take, drop, length, length-drop, take_all,
}
use ok.Text.{Bytes, codes}
use ok.Text.{sub_size, npos}
use ok.Base.Int.{pos}
use ok.Dict.{lookup}
use ok.Utils.Number.{atoi, int_of}
use ok.Result.{done, and_then}
use ok.Request.{Request, on_body, complete, general}
use ok.Server.Receive.{
  take_sized, parse_sized_body, parse_body, is_request_has_body, finish, body_phase,
}
use ok.Server.Receive.Phases.{body_phase-bare, body_phase-bodied}

int_of_small : (n : ℕ) → n < 2 ^ 31 → int_of (pos n) ≡ pos n
int_of_small n h =
    let e : n % 2 ^ 32 ≡ n = omega arith in
    let f : ltb n (2 ^ 31) ≡ true = ground arith in rw (e, f) refl

-- A body of the length that the client has told.
take_sized-all :
    (r : Request) (value rest : Bytes)
    → drop r.seek r.http_message ≡ rest
    → r.seek ≤ length r.http_message
    → atoi value ≡ pos (length rest)
    → length rest < 2 ^ 31
    → take_sized value r ≡ (record r { body = rest }, done true)
unfolding take_sized
take_sized-all r value rest e b w h =
    let there : sub_size (length r.http_message) r.seek ≡ length rest =
      ground (arith, length-drop r.seek r.http_message, ap (length {0}) e) in
    let inside : ltb (length r.http_message) r.seek ≡ false = ground arith in
    let equal : ltb (length rest + 0) (length rest + 0) ≡ false = ground arith in
    let whole : take npos rest ≡ rest = take_all npos rest (omega arith) in
    rw (there, w, int_of_small (length rest) h, equal, inside, e, whole) refl

-- What becomes of the bytes behind the headers: nothing where the method has no body, and the body
-- where Content-Length tells just how many there are.
abbrev pub Body : Request → Bytes → Bytes → Type 0
Body s rest body =
    ((is_request_has_body s ≡ false) × (body ≡ s.body))
    ⊎ ((is_request_has_body s ≡ true)
        × (s.transfer_type ≡ general)
        × (body ≡ rest)
        × (length rest < 2 ^ 31)
        × (value : Bytes) × (lookup (codes "content-length") s.headers ≡ some value)
        × (atoi value ≡ pos (length rest)))

parse_body-sized :
    (r : Request) (value rest : Bytes)
    → r.transfer_type ≡ general
    → lookup (codes "content-length") r.headers ≡ some value
    → take_sized value r ≡ (record r { body = rest }, done true)
    → parse_body r ≡ (record r { body = rest }, done true)
unfolding parse_body parse_sized_body
parse_body-sized r value rest t l e = ground (arith, t, l, e)

pub body_phase-Body :
    (s : Request) (rest body : Bytes)
    → s.phase ≡ on_body
    → drop s.seek s.http_message ≡ rest
    → s.seek ≤ length s.http_message
    → Body s rest body
    → body_phase s ≡ (record s { phase = complete; body = body }, done true)
body_phase-Body s rest body p e b (inl (h, k)) =
    body_phase-bare s p h ∙ ap (λ b. (record s { phase = complete; body = b }, done true)) (sym k)
body_phase-Body s rest body p e b (inr (h, t, k, small, value, l, w)) =
    body_phase-bodied s p h
    ∙ ap (λ m. and_then m finish)
        (parse_body-sized s value rest t l (take_sized-all s value rest e b w small))
    ∙ ap (λ b. (record s { phase = complete; body = b }, done true)) (sym k)
