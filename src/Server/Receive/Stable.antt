-- ===== src/Server/Receive/Stable.antt =====
-- A parser step that succeeds does the same when more bytes have arrived behind those it read.
use ok.Base.{
  ℕ, suc, ◌+◌, ◌-◌, ◌≤◌, [], ◌∷◌, ◌++◌, Option, none, some, ◌≡◌, refl, sym, ap, ◌∙◌, arith, length,
}
use ok.Text.{Bytes, crlf, sub_size, find, find_from, slice}
use ok.Text.Find.{find_bound, find_from_bound}
use ok.Result.{Result, done, thrown, failed, Act, and_then, ◌>>=◌, modify}
use ok.Request.{
  Request, set_seek, add_header, parse_uri, parse_version, cut_query, cut_parameter, cut_file_name,
  classify, cut_uri, store_header, note_transfer,
}
use ok.Server.Receive.{substr, parse_method, parse_target, parse_protocol}
use ok.Server.Receive.Arrive.{find-append_more, find_from-append, slice-append}

abbrev pub grow : Bytes → Request → Request
grow more r = record r { http_message = r.http_message ++ more }

abbrev pub grown {ℓ} : {A : Type ℓ} → Bytes → Request × A → Request × A
grown more (r, a) = (grow more r, a)

-- The step does not look at the message.
abbrev pub Commutes : {A : Type 0} → Bytes → Act Request A → Type 0
Commutes more m = (r : Request) → m (grow more r) ≡ grown more (m r)

pub Commutes->>= :
    {A B : Type 0} (more : Bytes) (m : Act Request A) (f : A → Act Request B)
    → Commutes more m
    → ((a : A) → Commutes more (f a))
    → Commutes more (m >>= f)
Commutes->>= {A} {B} more m f h k r = ap (λ x. and_then x f) (h r) ∙ go (m r)
  where
    go : (x : Request × Result A) → and_then (grown more x) f ≡ grown more (and_then x f)
    go (s, done a) = k a s
    go (s, thrown n) = refl
    go (s, failed e) = refl

cut_query-Commutes : (more u : Bytes) → Commutes more (cut_query u)
unfolding cut_query
cut_query-Commutes more u r = ground arith

cut_parameter-Commutes : (more u : Bytes) → Commutes more (cut_parameter u)
unfolding cut_parameter
cut_parameter-Commutes more u r = ground arith

cut_file_name-Commutes : (more u : Bytes) → Commutes more (cut_file_name u)
unfolding cut_file_name
cut_file_name-Commutes more u r = ground arith

classify-Commutes : (more : Bytes) → Commutes more (modify classify)
unfolding classify
classify-Commutes more r = ground arith

cut_uri-Commutes : (more u : Bytes) → Commutes more (cut_uri u)
unfolding cut_uri
cut_uri-Commutes more u = Commutes->>= more (cut_query u) _ (cut_query-Commutes more u) λ rest.
    Commutes->>= more (cut_parameter rest) _ (cut_parameter-Commutes more rest) λ path.
      Commutes->>= more (cut_file_name path) _ (cut_file_name-Commutes more path)
        λ _. classify-Commutes more

parse_uri-Commutes : (more u : Bytes) → Commutes more (parse_uri u)
unfolding parse_uri
parse_uri-Commutes more u r = ground (arith, cut_uri-Commutes more u (record r { uri = u }))

parse_version-Commutes : (more v : Bytes) → Commutes more (parse_version v)
unfolding parse_version
parse_version-Commutes more v r = ground arith

pub add_header-Commutes : (more line : Bytes) → Commutes more (add_header line)
unfolding add_header store_header note_transfer
add_header-Commutes more line r = ground arith

-- Where the mark of a word is found from the position on, the word is the slice up to it.
substr-slice :
    (s : Bytes) (from i : ℕ)
    → from ≤ i
    → i ≤ length s
    → substr s from (sub_size i from) ≡ done (slice s from (i - from))
substr-slice s from i h k = ground arith

parse_method-none :
    (r : Request) → find (b' ' ∷ []) r.http_message ≡ none → parse_method r ≡ (r, thrown 400)
unfolding parse_method
parse_method-none r f = rw (f, parse_method) refl

parse_target-none :
    (r : Request)
    → find_from (b' ' ∷ []) r.http_message r.seek ≡ none
    → parse_target r ≡ (r, thrown 414)
unfolding parse_target
parse_target-none r f = rw (f, parse_target) refl

parse_protocol-none :
    (r : Request) → find_from crlf r.http_message r.seek ≡ none → parse_protocol r ≡ (r, thrown 505)
unfolding parse_protocol
parse_protocol-none r f = rw (f, parse_protocol) refl

pub parse_method-at :
    (r : Request) (i : ℕ)
    → find (b' ' ∷ []) r.http_message ≡ some i
    → r.seek ≤ i
    → parse_method r
      ≡ (record r { method = slice r.http_message r.seek (i - r.seek); seek = suc i }, done tt)
unfolding parse_method
parse_method-at r i f h =
    rw (f, parse_method)
      (rw (substr-slice r.http_message r.seek i h (omega (arith, find_bound _ r.http_message i f)))
        refl)

pub parse_target-at :
    (r : Request) (i : ℕ)
    → find_from (b' ' ∷ []) r.http_message r.seek ≡ some i
    → parse_target r
      ≡ and_then
          (parse_uri (slice r.http_message r.seek (i - r.seek)) r)
          (λ _. modify (set_seek (suc i)))
unfolding parse_target
parse_target-at r i f =
    let bound = find_from_bound _ r.http_message r.seek i f (omega arith) in
    rw (f, parse_target) (rw (substr-slice r.http_message r.seek i bound.0 (omega arith)) refl)

pub parse_protocol-at :
    (r : Request) (i : ℕ)
    → find_from crlf r.http_message r.seek ≡ some i
    → parse_protocol r
      ≡ and_then
          (parse_version (slice r.http_message r.seek (i - r.seek)) r)
          (λ _. modify (set_seek (i + 2)))
unfolding parse_protocol
parse_protocol-at r i f =
    let bound = find_from_bound _ r.http_message r.seek i f (omega arith) in
    rw (f, parse_protocol) (rw (substr-slice r.http_message r.seek i bound.0 (omega arith)) refl)

-- A step that succeeds with a result does so in the longer message too.
abbrev pub StableAt : {A : Type 0} → Bytes → Act Request A → Request → Type 0
StableAt {A} more m r =
    (s : Request) (a : A) → m r ≡ (s, done a) → m (grow more r) ≡ (grow more s, done a)

pub Commutes-StableAt :
    {A : Type 0} (more : Bytes) (m : Act Request A)
    → Commutes more m
    → (r : Request) → StableAt more m r
Commutes-StableAt more m h r s a e = h r ∙ ap (grown more) e

pub StableAt->>= :
    {A B : Type 0} (more : Bytes) (m : Act Request A) (f : A → Act Request B) (r : Request)
    → StableAt more m r
    → ((a : A) (t : Request) → m r ≡ (t, done a) → StableAt more (f a) t)
    → StableAt more (m >>= f) r
StableAt->>= {A} {B} more m f r h k s b e = go (m r) refl e
  where
    go :
        (x : Request × Result A)
        → m r ≡ x
        → and_then x f ≡ (s, done b)
        → and_then (m (grow more r)) f ≡ (grow more s, done b)
    go (t, done a) p q = ap (λ y. and_then y f) (h t a p) ∙ k a t p s b q
    go (t, thrown n) p q = cc
    go (t, failed x) p q = cc

pub parse_method-StableAt : (more : Bytes) (r : Request) → r.seek ≡ 0 → StableAt more parse_method r
parse_method-StableAt more r h s a e = go (find (b' ' ∷ []) r.http_message) refl
  where
    go :
        (o : Option ℕ)
        → find (b' ' ∷ []) r.http_message ≡ o
        → parse_method (grow more r) ≡ (grow more s, done a)
    go none f = cc (parse_method-none r f)
    go (some i) f =
        let b = find_bound _ r.http_message i f in
        parse_method-at (grow more r) i (find-append_more _ r.http_message more i f) (omega arith)
        ∙ rw (slice-append r.http_message more r.seek (i - r.seek) (omega arith))
            (ap (grown more) (sym (parse_method-at r i f (omega arith)) ∙ e))

pub parse_target-StableAt : (more : Bytes) (r : Request) → StableAt more parse_target r
parse_target-StableAt more r s a e = go (find_from (b' ' ∷ []) r.http_message r.seek) refl
  where
    go :
        (o : Option ℕ)
        → find_from (b' ' ∷ []) r.http_message r.seek ≡ o
        → parse_target (grow more r) ≡ (grow more s, done a)
    go none f = cc (parse_target-none r f)
    go (some i) f =
        let b = find_from_bound _ r.http_message r.seek i f (omega arith) in
        let w = slice r.http_message r.seek (i - r.seek) in
        parse_target-at (grow more r) i
          (find_from-append _ r.http_message more r.seek i f (omega arith))
        ∙ rw (slice-append r.http_message more r.seek (i - r.seek) (omega arith)) (
            Commutes->>= more (parse_uri w) (λ _. modify (set_seek (suc i)))
              (parse_uri-Commutes more w) (λ _ t. refl) r)
        ∙ ap (grown more) (sym (parse_target-at r i f) ∙ e)

pub parse_protocol-StableAt : (more : Bytes) (r : Request) → StableAt more parse_protocol r
parse_protocol-StableAt more r s a e = go (find_from crlf r.http_message r.seek) refl
  where
    go :
        (o : Option ℕ)
        → find_from crlf r.http_message r.seek ≡ o
        → parse_protocol (grow more r) ≡ (grow more s, done a)
    go none f = cc (parse_protocol-none r f)
    go (some i) f =
        let b = find_from_bound _ r.http_message r.seek i f (omega arith) in
        let w = slice r.http_message r.seek (i - r.seek) in
        parse_protocol-at (grow more r) i
          (find_from-append _ r.http_message more r.seek i f (omega arith))
        ∙ rw (slice-append r.http_message more r.seek (i - r.seek) (omega arith)) (
            Commutes->>= more (parse_version w) (λ _. modify (set_seek (i + 2)))
              (parse_version-Commutes more w) (λ _ t. refl) r)
        ∙ ap (grown more) (sym (parse_protocol-at r i f) ∙ e)
