-- ===== src/Utils/Descriptors/Bits.antt =====
-- The bits of a word.
use ok.Base.{
  ℕ, zero, suc, ◌+◌, ◌*◌, ◌/◌, ◌%◌, ◌^◌, ◌≤◌, ◌<◌, true, false, ◌≡◌, ap, ◌∙◌, arith, ◌==◌,
  if◌then◌else◌,
}
use ok.Utils.Descriptors.{bit, or_bit, and_not_bit}

module _ (x y : ℕ) where
  low : (y * 2 + x % 2) % 2 ≡ x % 2
  low = omega arith

  rest : (y * 2 + x % 2) / 2 ≡ y
  rest = omega arith

zero_apart : (k : ℕ) → (0 == suc k) ≡ false
zero_apart k = ground arith

apart_zero : (k : ℕ) → (suc k == 0) ≡ false
apart_zero k = ground arith

both_suc : (j k : ℕ) → (suc j == suc k) ≡ (j == k)
both_suc j k = ground arith

zeroth_or_bit : (x : ℕ) → (x / 2 * 2 + 1) / 2 ≡ x / 2
zeroth_or_bit x = omega arith

zeroth_and_not_bit : (x : ℕ) → x / 2 * 2 / 2 ≡ x / 2
zeroth_and_not_bit x = omega arith

pub bit-or_bit : (j k x : ℕ) → bit j (or_bit k x) ≡ (if j == k then true else bit j x)
unfolding bit or_bit
bit-or_bit zero zero x = ground arith
bit-or_bit zero (suc k) x = rw (zero_apart k) (ap (λ n. n == 1) (low x (or_bit k (x / 2))))
bit-or_bit (suc j) zero x = rw (apart_zero j) (ap (bit j) (zeroth_or_bit x))
bit-or_bit (suc j) (suc k) x =
    rw (both_suc j k) (ap (bit j) (rest x (or_bit k (x / 2))) ∙ bit-or_bit j k (x / 2))

pub bit-and_not_bit : (j k x : ℕ) → bit j (and_not_bit k x) ≡ (if j == k then false else bit j x)
unfolding bit and_not_bit
bit-and_not_bit zero zero x = ground arith
bit-and_not_bit zero (suc k) x =
    rw (zero_apart k) (ap (λ n. n == 1) (low x (and_not_bit k (x / 2))))
bit-and_not_bit (suc j) zero x = rw (apart_zero j) (ap (bit j) (zeroth_and_not_bit x))
bit-and_not_bit (suc j) (suc k) x =
    rw (both_suc j k) (ap (bit j) (rest x (and_not_bit k (x / 2))) ∙ bit-and_not_bit j k (x / 2))

pow_suc : (n : ℕ) → 2 ^ suc n ≡ 2 ^ n * 2
pow_suc n = omega arith

pub or_bit-lt : (n k x : ℕ) → k < n → x < 2 ^ n → or_bit k x < 2 ^ n
unfolding or_bit
or_bit-lt zero k x h e = absurd (omega arith)
or_bit-lt (suc n) zero x h e = omega (arith, pow_suc n)
or_bit-lt (suc n) (suc k) x h e =
    omega (arith, pow_suc n, or_bit-lt n k (x / 2) (omega arith) (omega (arith, pow_suc n)))

pub and_not_bit-lt : (n k x : ℕ) → x < n → and_not_bit k x < n
unfolding and_not_bit
and_not_bit-lt n k x h = omega (arith, at_most k x)
  where
    at_most : (k x : ℕ) → and_not_bit k x ≤ x
    at_most zero x = omega arith
    at_most (suc k) x = omega (arith, at_most k (x / 2))
