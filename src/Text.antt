-- ===== src/Text.antt =====
-- The part of std::string that the sources use, over lists of byte values.
pub mod Find
use Prim.Native.Char.{code}
use Prim.Native.String.{String}
use ok.Base.{
  ℕ, zero, suc, ◌+◌, ◌-◌, ◌^◌, List, [], ◌∷◌, ◌++◌, Bool, true, false, ◌&&◌, Option, none, some,
  ltb, leb, ◌==◌, if◌then◌else◌, take, drop, length, ◌≡◌, refl,
}

abbrev pub Bytes : Type 0
Bytes = List ℕ

-- The bytes of an ASCII literal.
abbrev pub codes : String → Bytes
codes String.[] = []
codes (String.◌∷◌ c s) = code c ∷ codes s

abbrev pub crlf : Bytes
crlf = 13 ∷ 10 ∷ []

-- std::string::npos, and subtraction of two `size_t`.
abbrev pub npos : ℕ
npos = 2 ^ 64 - 1

abbrev pub sub_size : ℕ → ℕ → ℕ
sub_size a b = if leb b a then a - b else 2 ^ 64 + a - b

unfoldable pub equal : Bytes → Bytes → Bool
equal [] [] = true
equal (x ∷ a) (y ∷ b) = x == y && equal a b
equal _ _ = false

-- The order of std::string::compare, strictly below.
unfoldable pub less : Bytes → Bytes → Bool
less _ [] = false
less [] (y ∷ b) = true
less (x ∷ a) (y ∷ b) = if ltb x y then true else (x == y && less a b)

unfoldable pub starts_with : Bytes → Bytes → Bool
starts_with [] s = true
starts_with (p ∷ ps) [] = false
starts_with (p ∷ ps) (c ∷ s) = p == c && starts_with ps s

abbrev pub one_further : Option ℕ → Option ℕ
one_further none = none
one_further (some i) = some (suc i)

-- The first position at which the pattern starts.
unfoldable pub find : Bytes → Bytes → Option ℕ
unfolding starts_with
find p [] = if starts_with p [] then some 0 else none
find p (c ∷ s) = if starts_with p (c ∷ s) then some 0 else one_further (find p s)

abbrev pub further : ℕ → Option ℕ → Option ℕ
further n none = none
further n (some i) = some (n + i)

-- `s.find(p, from)`.
unfoldable pub find_from : Bytes → Bytes → ℕ → Option ℕ
unfolding find
find_from p s from = further from (find p (drop from s))

-- `s.find_last_of(c)` and `s.rfind(c)` for one byte.
unfoldable pub find_last : ℕ → Bytes → Option ℕ
find_last c [] = none
find_last c (x ∷ s) = elim (find_last c s) [
  | some i ↦ some (suc i)
  | none ↦ if x == c then some 0 else none
]

-- `s.substr(from, n)` where `from` is a position of `s`.
abbrev pub slice : Bytes → ℕ → ℕ → Bytes
slice s from n = take n (drop from s)

-- std::tolower and std::toupper in the "C" locale.
unfoldable pub lower : ℕ → ℕ
lower c = if leb b'A' c && leb c b'Z' then c + 32 else c

unfoldable pub upper : ℕ → ℕ
upper c = if leb b'a' c && leb c b'z' then c - 32 else c

find_runs : find_from crlf (codes "a\r\nb\r\n") 2 ≡ some 4
unfolding find_from
find_runs = refl

find_last_runs : find_last b'/' (codes "/a/b") ≡ some 2
unfolding find_last
find_last_runs = refl
