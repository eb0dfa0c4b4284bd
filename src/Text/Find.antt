-- ===== src/Text/Find.antt =====
-- What the searches of `Text` find, on which the parsers rest.
use ok.Base.{
  any, ◌==◌, false, ℕ, zero, suc, ◌+◌, ◌≤◌, ◌<◌, [], ◌∷◌, ◌++◌, true, none, some, ◌≡◌, ◌≢◌, ◌↔◌,
  inl, inr, refl, arith, take, drop, length, length-drop, All, Option-cases,
}
use ok.Text.{codes, Bytes, crlf, equal, starts_with, find, find_from, find_last}

pub equal_iff : (a b : Bytes) → (equal a b ≡ true) ↔ (a ≡ b)
unfolding equal
equal_iff [] [] = ground arith
equal_iff (x ∷ a) (y ∷ b) = ground (arith, equal_iff a b)
equal_iff [] (y ∷ b) = ground arith
equal_iff (x ∷ a) [] = ground arith

pub equal_refl : (a : Bytes) → equal a a ≡ true
equal_refl a = (equal_iff a a).1 refl

-- No byte of the text is `c`.
abbrev pub Lacks : ℕ → Bytes → Type 0
Lacks c = All (λ x. x ≢ c)

find_last-Lacks : (c : ℕ) (s : Bytes) → Lacks c s → find_last c s ≡ none
unfolding find_last
find_last-Lacks c [] h = refl
find_last-Lacks c (x ∷ s) h = ground (arith, find_last-Lacks c s h.1)

pub find_last-append :
    (c : ℕ) (a b : Bytes) → Lacks c b → find_last c (a ++ c ∷ b) ≡ some (length a)
unfolding find_last
find_last-append c [] b h = ground (arith, find_last-Lacks c b h)
find_last-append c (x ∷ a) b h = ground (arith, find_last-append c a b h)

pub find_last-none : (c : ℕ) (s : Bytes) → find_last c s ≡ none → Lacks c s
unfolding find_last
find_last-none c [] h = tt
find_last-none c (x ∷ s) h = ground (arith, find_last-none c s)

-- The position is that of the last `c`: the text is split there, and the rest lacks `c`.
pub find_last_sound :
    (c : ℕ) (s : Bytes) (i : ℕ)
    → find_last c s ≡ some i
    → (s ≡ take i s ++ c ∷ drop (suc i) s) × Lacks c (drop (suc i) s) × (i < length s)
unfolding find_last
find_last_sound c [] i h = cc
find_last_sound c (x ∷ s) zero h = ground (arith, find_last-none c s)
find_last_sound c (x ∷ s) (suc i) h = ground (arith, find_last_sound c s i)

pub starts_with-append : (p s : Bytes) → starts_with p (p ++ s) ≡ true
unfolding starts_with
starts_with-append [] s = refl
starts_with-append (x ∷ p) s = ground (arith, starts_with-append p s)

pub starts_with-length : (p s : Bytes) → starts_with p s ≡ true → length p ≤ length s
unfolding starts_with
starts_with-length [] s h = omega arith
starts_with-length (x ∷ p) [] h = cc
starts_with-length (x ∷ p) (c ∷ s) h = ground (arith, starts_with-length p s)

pub find_bound : (p s : Bytes) (i : ℕ) → find p s ≡ some i → i + length p ≤ length s
unfolding find
find_bound p [] i h = ground (arith, starts_with-length p [])
find_bound p (c ∷ s) zero h = ground (arith, starts_with-length p (c ∷ s))
find_bound p (c ∷ s) (suc i) h = ground (arith, find_bound p s i)

pub find_from_bound :
    (p s : Bytes) (from i : ℕ)
    → find_from p s from ≡ some i
    → 0 < length p
    → (from ≤ i) × (i + length p ≤ length s)
unfolding find_from
find_from_bound p s from i h q = elim (Option-cases (find p (drop from s))) [
  | inl e ↦ absurd (ground arith)
  | inr (j, e) ↦ ground (arith, find_bound p (drop from s) j, length-drop from s)
]

-- A text without the two-byte mark ends at the first mark behind it: the mark cannot straddle.
pub find_mark-append :
    (x y : ℕ) (l rest : Bytes)
    → x ≢ y
    → find (x ∷ y ∷ []) l ≡ none
    → find (x ∷ y ∷ []) (l ++ x ∷ y ∷ rest) ≡ some (length l)
unfolding find starts_with
find_mark-append x y [] rest q h = ground arith
find_mark-append x y (c ∷ []) rest q h = ground arith
find_mark-append x y (c ∷ d ∷ l) rest q h = ground (arith, find_mark-append x y (d ∷ l) rest)

pub find-crlf-append :
    (l rest : Bytes) → find crlf l ≡ none → find crlf (l ++ 13 ∷ 10 ∷ rest) ≡ some (length l)
find-crlf-append l rest h = find_mark-append 13 10 l rest (omega arith) h

-- A byte is found first where the text before it lacks it.
pub find_byte-append :
    (c : ℕ) (l rest : Bytes) → Lacks c l → find (c ∷ []) (l ++ c ∷ rest) ≡ some (length l)
unfolding find starts_with
find_byte-append c [] rest h = ground arith
find_byte-append c (d ∷ l) rest h = ground (arith, find_byte-append c l rest h.1)

-- A mark that stands in a text is found.
pub find-ne-none : (p a s : Bytes) → starts_with p s ≡ true → find p (a ++ s) ≢ none
unfolding find
find-ne-none p [] [] h = ground arith
find-ne-none p [] (c ∷ s) h = ground arith
find-ne-none p (c ∷ a) s h = ground (arith, find-ne-none p a s h)

pub starts_with_blank :
    (body : Bytes) → starts_with (codes "\r\n\r\n") (13 ∷ 10 ∷ 13 ∷ 10 ∷ body) ≡ true
unfolding starts_with
starts_with_blank body = refl

pub any-Lacks : (c : ℕ) (s : Bytes) → any (λ x. x == c) s ≡ false → Lacks c s
any-Lacks c [] h = tt
any-Lacks c (x ∷ s) h = ground (arith, any-Lacks c s)
