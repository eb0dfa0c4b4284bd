-- ===== src/FilePath/RoundTrip.antt =====
-- Printing a path and reading it back, and the other way round.
use ok.Base.{
  ◌+◌, ◌≤◌, ◌<◌, List, [], ◌∷◌, ◌++◌, append-nil, append_assoc, ◌≡◌, refl, sym, ap, ◌∙◌, arith,
  length, length-append, All,
}
use ok.Text.{Bytes, npos}
use ok.Utils.Split.{
  split_vector-words, words, words-Lacks, emit_word, words-append, words-IsWord, IsWord,
}
use ok.FilePath.{FilePath, append_segments, get_path2, get_path, of_string}

-- Every segment is a word between slashes.
abbrev pub IsNormal : FilePath → Type 0
IsNormal path = All (IsWord b'/') path.segments

of_string-segments :
    (str : Bytes) → length str < npos → (of_string str).segments ≡ words b'/' str []
unfolding of_string
of_string-segments str h = split_vector-words b'/' str h

-- A path that is read from text has no empty segment and none with a slash.
pub of_string-IsNormal : (str : Bytes) → length str < npos → IsNormal (of_string str)
of_string-IsNormal str h = rw (of_string-segments str h) (words-IsWord b'/' str [] tt)

append_segments-append :
    (temp : Bytes) (segments : List Bytes)
    → append_segments temp segments ≡ temp ++ append_segments [] segments
unfolding append_segments
append_segments-append temp [] = sym (append-nil temp)
append_segments-append temp (s ∷ []) = refl
append_segments-append temp (s ∷ t ∷ rest) =
    append_segments-append ((temp ++ s) ++ b'/' ∷ []) (t ∷ rest)
    ∙ append_assoc (temp ++ s) (b'/' ∷ []) _
    ∙ append_assoc temp s _
    ∙ ap (◌++◌ temp)
        (sym (append_segments-append (s ++ b'/' ∷ []) (t ∷ rest) ∙ append_assoc s (b'/' ∷ []) _))

words-append_segments :
    (segments : List Bytes)
    → All (IsWord b'/') segments
    → words b'/' (append_segments [] segments) [] ≡ segments
unfolding append_segments words
words-append_segments [] h = refl
words-append_segments (s ∷ []) h = words-Lacks b'/' s [] h.0.1 ∙ emit_word s [] h.0.0
words-append_segments (s ∷ t ∷ rest) h =
    ap (λ x. words b'/' x [])
      (append_segments-append (s ++ b'/' ∷ []) (t ∷ rest) ∙ append_assoc s (b'/' ∷ []) _)
    ∙ words-append b'/' s (append_segments [] (t ∷ rest)) [] h.0.1
    ∙ emit_word s _ h.0.0
    ∙ ap (◌∷◌ s) (words-append_segments (t ∷ rest) h.1)

words-get_path2 :
    (segments : List Bytes)
    → All (IsWord b'/') segments
    → words b'/' (get_path2 segments) [] ≡ segments
unfolding get_path2 words
words-get_path2 [] h = refl
words-get_path2 (s ∷ rest) h =
    ap (λ x. words b'/' x []) (append_segments-append (b'/' ∷ []) (s ∷ rest))
    ∙ words-append_segments (s ∷ rest) h

-- Reading back the text of a path whose segments are words between slashes gives the path, if the
-- text is no longer than a std::string can be.
pub of_string-get_path :
    (path : FilePath)
    → IsNormal path
    → length (get_path path) < npos
    → of_string (get_path path) ≡ path
unfolding get_path of_string
of_string-get_path path h bound = λ i. record {
  segments =
      (split_vector-words b'/' (get_path2 path.segments) bound ∙ words-get_path2 path.segments h) i;
}

append_segments_bound :
    (temp : Bytes) (segments : List Bytes) → length temp ≤ length (append_segments temp segments)
unfolding append_segments
append_segments_bound temp [] = omega arith
append_segments_bound temp (s ∷ []) = rw (length-append temp s) (omega arith)
append_segments_bound temp (s ∷ t ∷ rest) =
    let e : length ((temp ++ s) ++ (b'/' ∷ [])) ≡ length temp + length s + 1 =
      length-append (temp ++ s) (b'/' ∷ []) ∙ ap (λ n. n + 1) (length-append temp s) in
    omega (arith, e, append_segments_bound ((temp ++ s) ++ (b'/' ∷ [])) (t ∷ rest))

-- The text of a path has its first slash.
pub get_path_bound : (path : FilePath) → 1 ≤ length (get_path path)
unfolding get_path get_path2
get_path_bound path = go path.segments
  where
    go : (segments : List Bytes) → 1 ≤ length (get_path2 segments)
    go [] = omega arith
    go (s ∷ rest) = append_segments_bound (b'/' ∷ []) (s ∷ rest)
