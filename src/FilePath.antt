-- ===== src/FilePath.antt =====
-- srcs/Path/Path.cpp: a path is the list of its segments.
pub mod RoundTrip
use ok.Base.{
  ℕ, ◌+◌, ◌/◌, List, [], ◌∷◌, ◌++◌, Bool, true, false, ◌&&◌, Option, none, some, ◌≡◌, refl, leb,
  if◌then◌else◌, get_elem?, length,
}
use ok.Text.{Bytes, codes, equal}
use ok.Utils.Split.{split_vector}

pub record FilePath : Type 0 where
  pub segments : List Bytes

abbrev pub empty_path : FilePath
empty_path = record { segments = [] }

-- `setPath2` is the text of `splitVector` with the separator "/": it appends to the segments.
unfoldable pub set_path2 : List Bytes → Bytes → List Bytes
unfolding split_vector
set_path2 segments str = split_vector segments str (b'/' ∷ [])

unfoldable pub append_segments : Bytes → List Bytes → Bytes
append_segments temp [] = temp
append_segments temp (s ∷ []) = temp ++ s
append_segments temp (s ∷ t ∷ rest) = append_segments ((temp ++ s) ++ b'/' ∷ []) (t ∷ rest)

unfoldable pub get_path2 : List Bytes → Bytes
unfolding append_segments
get_path2 [] = b'/' ∷ []
get_path2 (s ∷ rest) = append_segments (b'/' ∷ []) (s ∷ rest)

unfoldable pub get_path : FilePath → Bytes
unfolding get_path2
get_path path = get_path2 path.segments

unfoldable pub set_path : FilePath → Bytes → FilePath
unfolding set_path2
set_path path str = record { segments = set_path2 path.segments str }

-- Path(std::string const &)
unfoldable pub of_string : Bytes → FilePath
unfolding set_path
of_string str = set_path empty_path str

-- operator+ appends to the left operand.
unfoldable pub add : FilePath → FilePath → FilePath
add path other = record { segments = path.segments ++ other.segments }

abbrev drop_last : List Bytes → Option (List Bytes)
drop_last [] = none
drop_last (s ∷ []) = some []
drop_last (s ∷ t ∷ rest) = elim (drop_last (t ∷ rest)) [ none ↦ none | some r ↦ some (s ∷ r) ]

-- Prefix operator--. `none` is the undefined `pop_back` of an empty vector.
pub decrement : FilePath → Option FilePath
decrement path = elim (drop_last path.segments) [
  | none ↦ none
  | some rest ↦ some (record { segments = rest })
]

-- Postfix operator-- returns the path as it was, and the path that is left.
pub decrement_after : FilePath → Option (FilePath × FilePath)
unfolding decrement
decrement_after path = elim (decrement path) [ none ↦ none | some rest ↦ some (path, rest) ]

unfoldable pub equal_all : List Bytes → List Bytes → Bool
unfolding equal
equal_all [] [] = true
equal_all (x ∷ a) (y ∷ b) = equal x y && equal_all a b
equal_all _ _ = false

unfoldable pub equal_path : FilePath → FilePath → Bool
unfolding equal_all
equal_path a b = equal_all a.segments b.segments

unfoldable pub get_size : FilePath → ℕ
get_size path = length path.segments

-- operator[]; `none` is Path::OutOfRange.
unfoldable pub segment_at : FilePath → ℕ → Option Bytes
segment_at path i = if leb (length path.segments) i then none else get_elem? path.segments i

of_string_runs : (of_string (codes "//a/b/")).segments ≡ codes "a" ∷ codes "b" ∷ []
unfolding of_string
of_string_runs = refl
