-- ===== src/Utils/Number.antt =====
-- ft::itos and ft::stohex of srcs/Utils/utils.cpp, and the std::atoi that the sources call.
pub mod RoundTrip
use ok.Base.{
  ℕ, zero, suc, ◌+◌, ◌-◌, ◌*◌, ◌/◌, ◌%◌, ◌^◌, [], ◌∷◌, Bool, ◌&&◌, ◌||◌, ◌≡◌, refl, ltb, leb, ◌==◌,
  if◌then◌else◌,
}
use ok.Base.Int.{ℤ, pos, negsuc}
use ok.Text.{Bytes, codes}

-- `while (v != 0) { v /= 10; i++; }` on the magnitude of `v`; ten digits hold every `int`.
digit_count : ℕ → ℕ → ℕ → ℕ
digit_count zero n i = i
digit_count (suc fuel) n i =
    let rest = digit_count fuel (n / 10) (i + 1) in if n == 0 then i else rest

pub itoa_len : ℤ → ℕ
unfolding digit_count
itoa_len (pos n) = if n == 0 then 1 else digit_count (suc n) n 0
itoa_len (negsuc n) = digit_count (suc (suc n)) (suc n) 1

-- The loop writes the digits from the last one to the first, in front of those written before.
unfoldable pub write_digits : ℕ → ℕ → Bytes → Bytes
write_digits zero n out = out
write_digits (suc fuel) n out =
    let rest = write_digits fuel (n / 10) ((b'0' + n % 10) ∷ out) in if n == 0 then out else rest

-- A quotient is smaller than the number, so the number bounds the rounds. `malloc` does not fail.
unfoldable pub itos : ℤ → Bytes
unfolding write_digits
itos (pos n) = if n == 0 then b'0' ∷ [] else write_digits (suc n) n []
itos (negsuc n) = b'-' ∷ write_digits (suc (suc n)) (suc n) []

abbrev pub is_digit : ℕ → Bool
is_digit c = leb b'0' c && leb c b'9'

abbrev pub is_space : ℕ → Bool
is_space c = c == 32 || leb 9 c && leb c 13

unfoldable pub read_digits : Bytes → ℕ → ℕ
read_digits [] n = n
read_digits (c ∷ s) n =
    let rest = read_digits s (n * 10 + (c - b'0')) in if is_digit c then rest else n

-- `strtol` stays within `long`; the result is then cut down to an `int`.
abbrev long_of : ℕ → ℤ
long_of n = if ltb n (2 ^ 63) then pos n else pos (2 ^ 63 - 1)

abbrev negative_long_of : ℕ → ℤ
negative_long_of zero = pos 0
negative_long_of (suc n) = if ltb n (2 ^ 63) then negsuc n else negsuc (2 ^ 63 - 1)

abbrev pub int_of : ℤ → ℤ
int_of (pos n) = let m = n % 2 ^ 32 in if ltb m (2 ^ 31) then pos m else negsuc (2 ^ 32 - 1 - m)
int_of (negsuc n) = let m = n % 2 ^ 32 in if ltb m (2 ^ 31) then negsuc m else pos (2 ^ 32 - 1 - m)

unfoldable pub read_sign : Bytes → ℤ
unfolding read_digits
read_sign [] = pos 0
read_sign (c ∷ s) =
    if c == b'-'
    then int_of (negative_long_of (read_digits s 0))
    else if c == b'+'
    then int_of (long_of (read_digits s 0))
    else int_of (long_of (read_digits (c ∷ s) 0))

-- std::atoi, as the C library computes it; the standard leaves values outside `int` undefined.
unfoldable pub atoi : Bytes → ℤ
unfolding read_sign
atoi [] = pos 0
atoi (c ∷ s) = let rest = atoi s in if is_space c then rest else read_sign (c ∷ s)

abbrev is_hex : ℕ → Bool
is_hex c = leb b'0' c && leb c b'9' || (leb b'A' c && leb c b'F' || leb b'a' c && leb c b'f')

abbrev pub hex_value : ℕ → ℕ
hex_value c = if leb c b'9' then c - b'0' else if leb c b'F' then c - b'A' + 10 else c - b'a' + 10

unfoldable pub hex_loop : Bytes → ℕ → ℕ
hex_loop [] result = result
hex_loop (c ∷ s) result =
    let rest = hex_loop s ((result * 16 % 2 ^ 64 + hex_value c) % 2 ^ 64) in
    if is_hex c then rest else result

-- The text is shorter than 2 ^ 31, so that its length is the `int` that the loop compares with.
unfoldable pub stohex : Bytes → ℕ
unfolding hex_loop
stohex str = hex_loop str 0

itos_runs : (itos (pos 8000) ≡ codes "8000") × (itos (negsuc 41) ≡ codes "-42")
unfolding itos
itos_runs = (refl, refl)

atoi_runs : (atoi (codes " -17x") ≡ negsuc 16) × (atoi (codes "4294967297") ≡ pos 1)
unfolding atoi
atoi_runs = (refl, refl)

stohex_runs : stohex (codes "1aF;x") ≡ 0x1af
unfolding stohex
stohex_runs = refl
