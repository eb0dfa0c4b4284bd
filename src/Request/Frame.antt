-- ===== src/Request/Frame.antt =====
-- What reading a URI or a version leaves alone: all that belongs to the rest of the message.
use ok.Base.{◌≡◌, ◌∙◌, arith}
use ok.Text.{Bytes}
use ok.Result.{Result, done, thrown, failed, Act, and_then, ◌>>=◌}
use ok.Request.{
  Request, cut_query, cut_parameter, cut_file_name, cut_uri, classify, parse_uri, parse_version,
}

pub record SameMessage (r s : Request) : Type 0 where
  pub same_phase : s.phase ≡ r.phase
  pub same_seek : s.seek ≡ r.seek
  pub same_message : s.http_message ≡ r.http_message
  pub same_method : s.method ≡ r.method
  pub same_headers : s.headers ≡ r.headers
  pub same_body : s.body ≡ r.body
  pub same_transfer : s.transfer_type ≡ r.transfer_type

SameMessage-trans : {r s t : Request} → SameMessage r s → SameMessage s t → SameMessage r t
SameMessage-trans h k = record {
  same_phase = k.same_phase ∙ h.same_phase;
  same_seek = k.same_seek ∙ h.same_seek;
  same_message = k.same_message ∙ h.same_message;
  same_method = k.same_method ∙ h.same_method;
  same_headers = k.same_headers ∙ h.same_headers;
  same_body = k.same_body ∙ h.same_body;
  same_transfer = k.same_transfer ∙ h.same_transfer;
}

abbrev pub Keeps : {A : Type 0} → Act Request A → Type 0
Keeps m = (r : Request) → SameMessage r (m r).0

pub Keeps->>= :
    {A B : Type 0} (m : Act Request A) (f : A → Act Request B)
    → Keeps m
    → ((a : A) → Keeps (f a))
    → Keeps (m >>= f)
Keeps->>= {A} {B} m f h k r = go (m r) (h r)
  where
    go : (x : Request × Result A) → SameMessage r x.0 → SameMessage r (and_then x f).0
    go (s, done a) e = SameMessage-trans e (k a s)
    go (s, thrown n) e = e
    go (s, failed e') e = e

cut_query-Keeps : (u : Bytes) → Keeps (cut_query u)
unfolding cut_query
cut_query-Keeps u r = ground arith

cut_parameter-Keeps : (u : Bytes) → Keeps (cut_parameter u)
unfolding cut_parameter
cut_parameter-Keeps u r = ground arith

cut_file_name-Keeps : (u : Bytes) → Keeps (cut_file_name u)
unfolding cut_file_name
cut_file_name-Keeps u r = ground arith

classify-Keeps : (r : Request) → SameMessage r (classify r)
unfolding classify
classify-Keeps r = ground arith

cut_uri-Keeps : (u : Bytes) → Keeps (cut_uri u)
unfolding cut_uri
cut_uri-Keeps u = Keeps->>= (cut_query u) _ (cut_query-Keeps u) λ rest.
    Keeps->>= (cut_parameter rest) _ (cut_parameter-Keeps rest)
      λ path. Keeps->>= (cut_file_name path) _ (cut_file_name-Keeps path) λ _. classify-Keeps

pub parse_uri-Keeps : (u : Bytes) → Keeps (parse_uri u)
unfolding parse_uri
parse_uri-Keeps u r = ground (arith, cut_uri-Keeps u (record r { uri = u }))

pub parse_version-Keeps : (v : Bytes) → Keeps (parse_version v)
unfolding parse_version
parse_version-Keeps v r = ground arith
