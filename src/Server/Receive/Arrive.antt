-- ===== src/Server/Receive/Arrive.antt =====
-- What was found in a text is found there too when more bytes have arrived behind it.
use ok.Base.{
  ℕ, zero, suc, ◌+◌, ◌≤◌, ◌<◌, [], ◌∷◌, ◌++◌, Option, none, some, ◌≡◌, refl, ap, arith, take, drop,
  length, length-drop,
}
use ok.Text.{Bytes, starts_with, find, find_from, further, slice}
use ok.Text.Find.{starts_with-length, find_bound, find_from_bound}

starts_with-append_le :
    (p s more : Bytes) → length p ≤ length s → starts_with p (s ++ more) ≡ starts_with p s
unfolding starts_with
starts_with-append_le [] s more h = refl
starts_with-append_le (x ∷ p) [] more h = absurd (omega arith)
starts_with-append_le (x ∷ p) (c ∷ s) more h = ground (arith, starts_with-append_le p s more)

pub find-append_more : (p s more : Bytes) (i : ℕ) → find p s ≡ some i → find p (s ++ more) ≡ some i
unfolding find
find-append_more [] [] [] i h = h
find-append_more [] [] (c ∷ more) i h = ground arith
find-append_more (x ∷ p) [] more i h = ground (arith)
find-append_more p (c ∷ s) more zero h =
    ground (arith, starts_with-length p (c ∷ s), starts_with-append_le p (c ∷ s) more)
find-append_more p (c ∷ s) more (suc i) h =
    ground
      (arith, find_bound p s i, starts_with-append_le p (c ∷ s) more, find-append_more p s more i)

drop-append_le : (n : ℕ) (s more : Bytes) → n ≤ length s → drop n (s ++ more) ≡ drop n s ++ more
drop-append_le zero s more h = refl
drop-append_le (suc n) [] more h = absurd (omega arith)
drop-append_le (suc n) (c ∷ s) more h = drop-append_le n s more (omega arith)

take-append_le : (n : ℕ) (s more : Bytes) → n ≤ length s → take n (s ++ more) ≡ take n s
take-append_le zero s more h = refl
take-append_le (suc n) [] more h = absurd (omega arith)
take-append_le (suc n) (c ∷ s) more h = ap (◌∷◌ c) (take-append_le n s more (omega arith))

pub find_from-append :
    (p s more : Bytes) (from i : ℕ)
    → find_from p s from ≡ some i
    → 0 < length p
    → find_from p (s ++ more) from ≡ some i
find_from-append p s more from i h q =
    let bound = find_from_bound p s from i h q in
    unfold find_from in
    rw (drop-append_le from s more (omega arith)) (go (find p (drop from s)) refl h)
  where
    go :
        (o : Option ℕ)
        → find p (drop from s) ≡ o
        → further from o ≡ some i
        → further from (find p (drop from s ++ more)) ≡ some i
    go none e k = cc
    go (some j) e k = rw (find-append_more p (drop from s) more j e) k

pub slice-append :
    (s more : Bytes) (from n : ℕ) → from + n ≤ length s → slice (s ++ more) from n ≡ slice s from n
slice-append s more from n h =
    rw (drop-append_le from s more (omega arith))
      (take-append_le n (drop from s) more (omega (arith, length-drop from s)))

length-take_le : (n : ℕ) (s : Bytes) → n ≤ length s → length (take n s) ≡ n
length-take_le zero s h = refl
length-take_le (suc n) [] h = absurd (omega arith)
length-take_le (suc n) (c ∷ s) h = ap suc (length-take_le n s (omega arith))

pub length-slice : (s : Bytes) (from n : ℕ) → from + n ≤ length s → length (slice s from n) ≡ n
length-slice s from n h = length-take_le n (drop from s) (omega (arith, length-drop from s))
