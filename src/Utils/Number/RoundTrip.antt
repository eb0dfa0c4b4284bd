-- ===== src/Utils/Number/RoundTrip.antt =====
-- Printing an int and reading it back, the size of the printed text, and what stohex computes.
use mathlib.Core.List.{cons-ne-nil}
use ok.Base.{
  ℕ, zero, suc, ◌+◌, ◌*◌, ◌/◌, ◌%◌, ◌^◌, ◌≤◌, ◌<◌, [], ◌∷◌, false, ◌≡◌, ◌≢◌, ◌⊎◌, refl, ◌∙◌, arith,
  length, All,
}
use ok.Base.Int.{ℤ, pos, negsuc, pos_part, neg_part}
use ok.Text.{Bytes}
use ok.Utils.Number.{
  digit_count, itoa_len, write_digits, itos, read_digits, read_sign, atoi, int_of, hex_value,
  is_hex, long_of,
}

-- With more fuel than the number, the digits in front of `out` are read before `out`.
read-write_digits :
    (fuel n : ℕ) (out : Bytes)
    → n < fuel
    → read_digits (write_digits fuel n out) 0 ≡ read_digits out n
unfolding read_digits write_digits
read-write_digits zero n out h = absurd (omega arith)
read-write_digits (suc fuel) n out h =
    ground (arith, read-write_digits fuel (n / 10) ((b'0' + n % 10) ∷ out))

length-write_digits :
    (fuel n i : ℕ) (out : Bytes)
    → n < fuel
    → length (write_digits fuel n out) + i ≡ digit_count fuel n (length out + i)
unfolding write_digits digit_count
length-write_digits zero n i out h = absurd (omega arith)
length-write_digits (suc fuel) n i out h =
    ground (arith, length-write_digits fuel (n / 10) i ((b'0' + n % 10) ∷ out))

-- The text fills exactly the buffer that `ft_itoa_len` measures.
pub length-itos : (v : ℤ) → length (itos v) ≡ itoa_len v
unfolding itos itoa_len
length-itos (pos n) = ground (arith, length-write_digits (suc n) n 0 [])
length-itos (negsuc n) = ground (arith, length-write_digits (suc (suc n)) (suc n) 1 [])

abbrev pub IsDigit : ℕ → Type 0
IsDigit c = (b'0' ≤ c) × (c ≤ b'9')

pub write_digits-IsDigit :
    (fuel n : ℕ) (out : Bytes) → All IsDigit out → All IsDigit (write_digits fuel n out)
unfolding write_digits
write_digits-IsDigit zero n out h = h
write_digits-IsDigit (suc fuel) n out h =
    ground (arith, write_digits-IsDigit fuel (n / 10) ((b'0' + n % 10) ∷ out))

write_digits-ne-nil : (fuel n : ℕ) (out : Bytes) → out ≢ [] → write_digits fuel n out ≢ []
unfolding write_digits
write_digits-ne-nil zero n out h = h
write_digits-ne-nil (suc fuel) n out h =
    ground (arith, write_digits-ne-nil fuel (n / 10) ((b'0' + n % 10) ∷ out))

-- Reading starts with a digit: no sign and no space.
atoi_digit : (s : Bytes) → All IsDigit s → s ≢ [] → atoi s ≡ int_of (long_of (read_digits s 0))
unfolding atoi
atoi_digit [] h q = absurd (q refl)
atoi_digit (c ∷ s) h q = ground arith

-- The values of an `int`.
abbrev pub IsInt : ℤ → Type 0
IsInt v = (pos_part v < 2 ^ 31) × (neg_part v ≤ 2 ^ 31)

int_of_long : (n : ℕ) → n < 2 ^ 31 → int_of (long_of n) ≡ pos n
int_of_long n h = ground arith

itos_pos-read : (n : ℕ) → read_digits (itos (pos n)) 0 ≡ n
unfolding itos read_digits
itos_pos-read n = ground (arith, read-write_digits (suc n) n [])

pub itos_pos-IsDigit : (n : ℕ) → All IsDigit (itos (pos n))
unfolding itos
itos_pos-IsDigit n = ground (arith, write_digits-IsDigit (suc n) n [] tt)

pub itos_pos-ne-nil : (n : ℕ) → itos (pos n) ≢ []
unfolding itos write_digits
itos_pos-ne-nil n =
    ground (arith, write_digits-ne-nil n (n / 10) ((b'0' + n % 10) ∷ []) (cons-ne-nil _ []))

-- Every `int` is read back from its text.
pub atoi-itos : (v : ℤ) → IsInt v → atoi (itos v) ≡ v
atoi-itos (pos n) h =
    atoi_digit _ (itos_pos-IsDigit n) (itos_pos-ne-nil n) ∙ rw (itos_pos-read n) (int_of_long n h.0)
atoi-itos (negsuc n) h =
    unfold itos atoi read_sign in
    rw (read-write_digits (suc (suc n)) (suc n) [] (omega arith)) (ground arith)

-- A hexadecimal digit.
abbrev pub IsHex : ℕ → Type 0
IsHex c = ((b'0' ≤ c) × (c ≤ b'9')) ⊎ (((b'A' ≤ c) × (c ≤ b'F')) ⊎ ((b'a' ≤ c) × (c ≤ b'f')))

-- The number that hexadecimal digits spell behind `n`, with no bound.
unfoldable pub spelled : Bytes → ℕ → ℕ
spelled [] n = n
spelled (c ∷ s) n = spelled s (n * 16 + hex_value c)

-- The text ends, or goes on with a byte that is no hexadecimal digit.
abbrev pub EndsHex : Bytes → Type 0
EndsHex [] = Unit
EndsHex (c ∷ s) = is_hex c ≡ false
