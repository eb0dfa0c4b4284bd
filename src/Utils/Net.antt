-- ===== src/Utils/Net.antt =====
-- Addresses and ports in network order: ft_htonl, ft_htons, ft_inet_addr and inet_ntos of
-- srcs/Utils/utils.cpp on a machine that stores the low byte first.
use ok.Base.{
  ℕ, zero, suc, ◌+◌, ◌-◌, ◌*◌, ◌/◌, ◌%◌, ◌^◌, ◌≤◌, ◌<◌, List, [], ◌∷◌, ◌++◌, ◌≡◌, ap, ◌∙◌, arith,
  length, length-append, All,
}
use ok.Base.Int.{ℤ, pos, negsuc}
use ok.Text.{Bytes, npos}
use ok.Text.Find.{Lacks}
use ok.Utils.Split.{split_vector, words, words-append, words-Lacks, split_vector-words, emit_word}
use ok.Utils.Number.{write_digits}
use ok.Utils.Number.RoundTrip.{IsDigit, itos_pos-IsDigit, itos_pos-ne-nil, atoi-itos}
use ok.Utils.Number.{atoi, itos}

-- The four parts have no bit in common, so that `|` is a sum.
unfoldable pub ft_htonl : ℕ → ℕ
ft_htonl addr =
    addr % 2 ^ 8 * 2 ^ 24
    + addr % 2 ^ 16 / 2 ^ 8 * 2 ^ 16
    + addr % 2 ^ 24 / 2 ^ 16 * 2 ^ 8
    + addr % 2 ^ 32 / 2 ^ 24

unfoldable pub ft_htons : ℕ → ℕ
ft_htons addr = addr % 2 ^ 8 * 2 ^ 8 + addr % 2 ^ 16 / 2 ^ 8

-- inet_ntos: the lowest byte first, which stands first in network order.
unfoldable pub inet_ntos : ℕ → Bytes
unfolding itos
inet_ntos s_addr =
    let dot = b'.' ∷ [] in
    itos (pos (s_addr % 256))
    ++ (dot
        ++ (itos (pos (s_addr / 2 ^ 8 % 256))
            ++ (dot
                ++ (itos (pos (s_addr / 2 ^ 16 % 256))
                    ++ (dot ++ itos (pos (s_addr / 2 ^ 24 % 256)))))))

-- The value of an `int` as a u_int32_t, moved up by `<<`.
unfoldable pub shifted : ℤ → ℕ → ℕ
shifted (pos n) places = n * 2 ^ places % 2 ^ 32
shifted (negsuc n) places = (2 ^ 32 - 1 - n % 2 ^ 32) * 2 ^ places % 2 ^ 32

abbrev pub host_sum : List Bytes → ℕ
host_sum (a ∷ b ∷ c ∷ d ∷ []) =
    ft_htonl (
      (shifted (atoi a) 24 + shifted (atoi b) 16 + shifted (atoi c) 8 + shifted (atoi d) 0)
      % 2 ^ 32)
host_sum _ = 0

-- What is not four parts becomes 0. The pointer is not null.
unfoldable pub ft_inet_addr : Bytes → ℕ
unfolding split_vector atoi ft_htonl shifted
ft_inet_addr ip_addr = host_sum (split_vector [] ip_addr (b'.' ∷ []))

-- An address of 32 bits that is turned to network order twice is the address again, and the
-- turned address is one of 32 bits.
pub ft_htonl-ft_htonl :
    (addr : ℕ) → addr < 2 ^ 32 → (ft_htonl (ft_htonl addr) ≡ addr) × (ft_htonl addr < 2 ^ 32)
unfolding ft_htonl
ft_htonl-ft_htonl addr h = (omega arith, omega arith)

-- A port of 16 bits that is turned to network order twice is the port again, and the turned
-- port is one of 16 bits.
pub ft_htons-ft_htons :
    (addr : ℕ) → addr < 2 ^ 16 → (ft_htons (ft_htons addr) ≡ addr) × (ft_htons addr < 2 ^ 16)
unfolding ft_htons
ft_htons-ft_htons addr h = (omega arith, omega arith)

IsDigit-Lacks : (w : Bytes) → All IsDigit w → Lacks b'.' w
IsDigit-Lacks [] h = tt
IsDigit-Lacks (c ∷ w) h = (ground arith, IsDigit-Lacks w h.1)

write_digits_bound :
    (fuel n : ℕ) (out : Bytes) → length (write_digits fuel n out) ≤ fuel + length out
unfolding write_digits
write_digits_bound zero n out = omega arith
write_digits_bound (suc fuel) n out =
    ground (arith, write_digits_bound fuel (n / 10) ((b'0' + n % 10) ∷ out))

itos_bound : (n : ℕ) → length (itos (pos n)) ≤ suc n
unfolding itos
itos_bound n = ground (arith, write_digits_bound (suc n) n [])

digits_word :
    (n : ℕ) (rest : Bytes)
    → words b'.' (itos (pos n) ++ (b'.' ∷ rest)) [] ≡ itos (pos n) ∷ words b'.' rest []
digits_word n rest =
    words-append b'.' (itos (pos n)) rest [] (IsDigit-Lacks (itos (pos n)) (itos_pos-IsDigit n))
    ∙ emit_word (itos (pos n)) (words b'.' rest []) (itos_pos-ne-nil n)

last_word : (n : ℕ) → words b'.' (itos (pos n)) [] ≡ itos (pos n) ∷ []
last_word n =
    words-Lacks b'.' (itos (pos n)) [] (IsDigit-Lacks (itos (pos n)) (itos_pos-IsDigit n))
    ∙ emit_word (itos (pos n)) [] (itos_pos-ne-nil n)

dotted : ℕ → ℕ → ℕ → ℕ → Bytes
dotted a b c d =
    itos (pos a) ++ (b'.' ∷ (itos (pos b) ++ (b'.' ∷ (itos (pos c) ++ (b'.' ∷ itos (pos d))))))

words-dotted :
    (a b c d : ℕ)
    → words b'.' (dotted a b c d) []
      ≡ itos (pos a) ∷ itos (pos b) ∷ itos (pos c) ∷ itos (pos d) ∷ []
unfolding dotted
words-dotted a b c d =
    digits_word a _
    ∙ ap (◌∷◌ (itos (pos a))) (
        digits_word b _
        ∙ ap (◌∷◌ (itos (pos b))) (digits_word c _ ∙ ap (◌∷◌ (itos (pos c))) (last_word d)))

dotted_bound :
    (a b c d : ℕ) → a < 256 → b < 256 → c < 256 → d < 256 → length (dotted a b c d) < npos
unfolding dotted
dotted_bound a b c d ha hb hc hd =
    let n = itos_bound a in
    let m = itos_bound b in
    let k = itos_bound c in
    let l = itos_bound d in
    rw
      (
        length-append (itos (pos a))
            (b'.' ∷ (itos (pos b) ++ (b'.' ∷ (itos (pos c) ++ (b'.' ∷ itos (pos d)))))),
        length-append (itos (pos b)) (b'.' ∷ (itos (pos c) ++ (b'.' ∷ itos (pos d)))),
        length-append (itos (pos c)) (b'.' ∷ itos (pos d)),
      )
      (omega arith)

in_int : (n : ℕ) → n < 256 → atoi (itos (pos n)) ≡ pos n
in_int n h = atoi-itos (pos n) (omega arith, omega arith)

host_dotted :
    (a b c d : ℕ)
    → a < 256
    → b < 256
    → c < 256
    → d < 256
    → host_sum (itos (pos a) ∷ itos (pos b) ∷ itos (pos c) ∷ itos (pos d) ∷ [])
      ≡ ft_htonl (a * 2 ^ 24 + b * 2 ^ 16 + c * 2 ^ 8 + d)
unfolding shifted
host_dotted a b c d ha hb hc hd =
    rw (in_int a ha, in_int b hb, in_int c hc, in_int d hd) (ap ft_htonl (omega arith))

turned_bytes :
    (s_addr : ℕ)
    → s_addr < 2 ^ 32
    → ft_htonl (
        s_addr % 256 * 2 ^ 24
        + s_addr / 2 ^ 8 % 256 * 2 ^ 16
        + s_addr / 2 ^ 16 % 256 * 2 ^ 8
        + s_addr / 2 ^ 24 % 256)
      ≡ s_addr
unfolding ft_htonl
turned_bytes s_addr h = omega arith

-- For an address of 32 bits, ft_inet_addr reads the text that inet_ntos writes of it back as the
-- same address.
pub ft_inet_addr-inet_ntos :
    (s_addr : ℕ) → s_addr < 2 ^ 32 → ft_inet_addr (inet_ntos s_addr) ≡ s_addr
unfolding ft_inet_addr inet_ntos dotted
ft_inet_addr-inet_ntos s_addr h =
    let a = s_addr % 256 in
    let b = s_addr / 2 ^ 8 % 256 in
    let c = s_addr / 2 ^ 16 % 256 in
    let d = s_addr / 2 ^ 24 % 256 in
    ap host_sum (
      split_vector-words b'.' (dotted a b c d)
        (dotted_bound a b c d (omega arith) (omega arith) (omega arith) (omega arith))
      ∙ words-dotted a b c d)
    ∙ host_dotted a b c d (omega arith) (omega arith) (omega arith) (omega arith)
    ∙ turned_bytes s_addr h
