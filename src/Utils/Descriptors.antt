-- ===== src/Utils/Descriptors.antt =====
-- Descriptor sets: fd_isset, fd_set and fd_clr of srcs/Utils/utils.hpp, on the words of a struct
-- fd_set, and getVectorChangedFD of srcs/Utils/utils.cpp.
pub mod Bits
use ok.Base.{
  ℕ, zero, suc, ◌+◌, ◌*◌, ◌/◌, ◌%◌, List, [], ◌∷◌, Bool, true, false, Option, none, some, ◌==◌,
  if◌then◌else◌, get_elem?, replicate,
}

-- `fds_bits`: 32 words of 32 bits, as unsigned numbers.
abbrev pub FdWords : Type 0
FdWords = List ℕ

-- `x & (1 << k)`, as a truth value.
unfoldable pub bit : ℕ → ℕ → Bool
bit zero x = x % 2 == 1
bit (suc k) x = bit k (x / 2)

-- `x | (1 << k)`
unfoldable pub or_bit : ℕ → ℕ → ℕ
or_bit zero x = x / 2 * 2 + 1
or_bit (suc k) x = or_bit k (x / 2) * 2 + x % 2

-- `x & ~(1 << k)`
unfoldable pub and_not_bit : ℕ → ℕ → ℕ
and_not_bit zero x = x / 2 * 2
and_not_bit (suc k) x = and_not_bit k (x / 2) * 2 + x % 2

-- A word is changed in its place; behind the words is `none`.
unfoldable pub change : (ℕ → ℕ) → ℕ → FdWords → Option FdWords
change f i [] = none
change f zero (x ∷ xs) = some (f x ∷ xs)
change f (suc i) (x ∷ xs) = elim (change f i xs) [ none ↦ none | some ys ↦ some (x ∷ ys) ]

abbrev pub bit_of : ℕ → Option ℕ → Option Bool
bit_of k none = none
bit_of k (some x) = some (bit k x)

unfoldable pub fd_isset : ℕ → FdWords → Option Bool
unfolding bit
fd_isset fd p = bit_of (fd % 32) (get_elem? p (fd / 32))

unfoldable pub fd_set : ℕ → FdWords → Option FdWords
unfolding change or_bit
fd_set fd p = change (or_bit (fd % 32)) (fd / 32) p

unfoldable pub fd_clr : ℕ → FdWords → Option FdWords
unfolding change and_not_bit
fd_clr fd p = change (and_not_bit (fd % 32)) (fd / 32) p

-- FT_FD_ZERO
abbrev pub fd_zero : FdWords
fd_zero = replicate 32 0

abbrev pub changed_next : ℕ → Option Bool → Option (List ℕ) → Option (List ℕ)
changed_next i (some true) (some rest) = some (i ∷ rest)
changed_next i (some false) (some rest) = some rest
changed_next i _ _ = none

-- The loop of getVectorChangedFD, with so many descriptors to go.
unfoldable pub changed_loop : ℕ → ℕ → FdWords → Option (List ℕ)
unfolding fd_isset
changed_loop zero i p = some []
changed_loop (suc k) i p = let rest = changed_loop k (suc i) p in changed_next i (fd_isset i p) rest

unfoldable pub get_vector_changed_fd : FdWords → Option (List ℕ)
unfolding changed_loop
get_vector_changed_fd p = changed_loop 1024 0 p
