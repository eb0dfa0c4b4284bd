-- ===== src/Server/Run/Views.antt =====
-- The descriptor sets of the run loop, which are predicates, as views of the words of a struct fd_set.
use ok.Base.{
  ℕ, zero, suc, ◌+◌, ◌/◌, ◌%◌, ◌^◌, ◌≤◌, ◌<◌, List, [], ◌∷◌, Bool, true, false, Option, none, some,
  ◌≡◌, ◌≢◌, inl, inr, refl, sym, ap, ◌∙◌, arith, ◌==◌, if◌then◌else◌, get_elem?, replicate, length,
  All, Bool-cases,
}
use ok.Utils.Descriptors
use ok.Utils.Descriptors.{
  FdWords, bit, or_bit, and_not_bit, bit_of, change, fd_isset, changed_next, changed_loop,
  get_vector_changed_fd,
}
use ok.Utils.Descriptors.Bits.{bit-or_bit, bit-and_not_bit, or_bit-lt, and_not_bit-lt}
use ok.Server.Run.{FdSet, fd_set, fd_clr}

-- The words are 32 of 32 bits, whose bits are the members among the first 1024 descriptors.
pub record IsView (p : FdWords) (fds : FdSet) : Type 0 where
  pub words : length p ≡ 32
  pub bounded : All (λ x. x < 2 ^ 32) p
  pub bits : (n : ℕ) → n < 1024 → fd_isset n p ≡ some (fds n)

-- Like the change of a word, on the option that a position holds.
abbrev mapped : (ℕ → ℕ) → Option ℕ → Option ℕ
mapped f none = none
mapped f (some x) = some (f x)

-- What a change leaves behind.
record Changed (f : ℕ → ℕ) (i : ℕ) (p q : FdWords) : Type 0 where
  is_change : change f i p ≡ some q
  same_length : length q ≡ length p
  keeps : (w : ℕ) → ((x : ℕ) → x < w → f x < w) → All (λ x. x < w) p → All (λ x. x < w) q
  at_place : get_elem? q i ≡ mapped f (get_elem? p i)
  elsewhere : (j : ℕ) → j ≢ i → get_elem? q j ≡ get_elem? p j

change-Changed : (f : ℕ → ℕ) (i : ℕ) (p : FdWords) → i < length p → (q : FdWords) × Changed f i p q
unfolding change
change-Changed f i [] h = absurd (omega arith)
change-Changed f zero (x ∷ p) h = (
  f x ∷ p,
  record {
    is_change = refl;
    same_length = refl;
    keeps = λ w k (a, b). (k x a, b);
    at_place = refl;
    elsewhere = λ (j : ℕ) k. after j k;
  },
)
  where
    after : (j : ℕ) → j ≢ 0 → get_elem? (f x ∷ p) j ≡ get_elem? (x ∷ p) j
    after zero k = absurd (k refl)
    after (suc j) k = refl
change-Changed f (suc i) (x ∷ p) h =
    let (q, c) = change-Changed f i p (omega arith) in
    (
      x ∷ q,
      record {
        is_change = rw c.is_change refl;
        same_length = omega (arith, c.same_length);
        keeps = λ w k (a, b). (a, c.keeps w k b);
        at_place = c.at_place;
        elsewhere = λ (j : ℕ) k. after q c j k;
      },
    )
  where
    after :
        (q : FdWords)
        → Changed f i p q
        → (j : ℕ) → j ≢ suc i
        → get_elem? (x ∷ q) j ≡ get_elem? (x ∷ p) j
    after q c zero k = refl
    after q c (suc j) k = c.elsewhere j (λ e. k (ap suc e))

same_bit : (n fd : ℕ) → n / 32 ≡ fd / 32 → (n % 32 == fd % 32) ≡ (n == fd)
same_bit n fd h = ground arith

-- Either way of changing a set: a word by a function that gives one bit a value, the predicate by
-- that value at the descriptor.
module _ (v : Bool) (f : ℕ → ℕ → ℕ)
    (sets : (j k x : ℕ) → bit j (f k x) ≡ (if j == k then v else bit j x))
    (fits : (k x : ℕ) → k < 32 → x < 2 ^ 32 → f k x < 2 ^ 32) where
  bit_of-mapped :
      (m k : ℕ) (o : Option ℕ) (u : Bool)
      → bit_of m o ≡ some u
      → bit_of m (mapped (f k) o) ≡ some (if m == k then v else u)
  bit_of-mapped m k none u e = absurd (cc e)
  bit_of-mapped m k (some x) u e =
      let g : bit m x ≡ u = cc e in ap some (sets m k x ∙ ap (λ b. if m == k then v else b) g)

  changed-IsView :
      (fd : ℕ) (p : FdWords) (fds : FdSet)
      → fd < 1024
      → IsView p fds
      → (q : FdWords) × (change (f (fd % 32)) (fd / 32) p ≡ some q)
        × IsView q (λ n. if n == fd then v else fds n)
  unfolding fd_isset
  changed-IsView fd p fds h w =
      let (q, c) = change-Changed (f (fd % 32)) (fd / 32) p (omega (arith, w.words)) in
      (
        q,
        c.is_change,
        record {
          words = c.same_length ∙ w.words;
          bounded = c.keeps (2 ^ 32) (λ x. fits (fd % 32) x (omega arith)) w.bounded;
          bits = λ n k. at q c n k;
        },
      )
    where
      at :
          (q : FdWords)
          → Changed (f (fd % 32)) (fd / 32) p q
          → (n : ℕ) → n < 1024
          → fd_isset n q ≡ some (if n == fd then v else fds n)
      at q c n k = elim (Bool-cases (n / 32 == fd / 32)) [
        | inl e ↦
            let same : n / 32 ≡ fd / 32 = ground arith in
            ap (λ w. bit_of (n % 32) (get_elem? q w)) same
            ∙ ap (bit_of (n % 32)) c.at_place
            ∙ bit_of-mapped (n % 32) (fd % 32) (get_elem? p (fd / 32)) (fds n)
                (ap (λ w. bit_of (n % 32) (get_elem? p w)) (sym same) ∙ w.bits n k)
            ∙ ap (λ b. some (if b then v else fds n)) (same_bit n fd same)
        | inr e ↦
            let apart : (n == fd) ≡ false = ground arith in
            ap (bit_of (n % 32)) (c.elsewhere (n / 32) (λ g. ground arith))
            ∙ w.bits n k
            ∙ ap (λ b. some (if b then v else fds n)) (sym apart)
      ]

-- The descriptors from one on, so many of them, that are members.
abbrev pub members : FdSet → ℕ → ℕ → List ℕ
members fds zero i = []
members fds (suc k) i = let rest = members fds k (suc i) in if fds i then i ∷ rest else rest

changed_loop-members :
    (k i : ℕ) (p : FdWords) (fds : FdSet)
    → i + k ≤ 1024
    → IsView p fds
    → changed_loop k i p ≡ some (members fds k i)
unfolding changed_loop
changed_loop-members zero i p fds h w = refl
changed_loop-members (suc k) i p fds h w =
    rw (w.bits i (omega arith), changed_loop-members k (suc i) p fds (omega arith) w)
      (by_member (fds i))
  where
    by_member :
        (b : Bool)
        → changed_next i (some b) (some (members fds k (suc i)))
          ≡ some (if b then i ∷ members fds k (suc i) else members fds k (suc i))
    by_member true = refl
    by_member false = refl

-- The sets of the run loop are faithful to the words of a struct fd_set for every descriptor below
-- 1024: putting one in and taking one out do to the words what they do to the predicate, and
-- getVectorChangedFD gives the members in ascending order.
pub fd_sets-IsView :
    (p : FdWords) (fds : FdSet) (fd : ℕ)
    → fd < 1024
    → IsView p fds
    → ((q : FdWords) × (Descriptors.fd_set fd p ≡ some q) × IsView q (fd_set fd fds))
      × ((q : FdWords) × (Descriptors.fd_clr fd p ≡ some q) × IsView q (fd_clr fd fds))
      × (get_vector_changed_fd p ≡ some (members fds 1024 0))
unfolding Descriptors.fd_set Descriptors.fd_clr fd_set fd_clr get_vector_changed_fd
fd_sets-IsView p fds fd h w = (
  changed-IsView true or_bit bit-or_bit (or_bit-lt 32) fd p fds h w,
  changed-IsView false and_not_bit bit-and_not_bit (λ k x _. and_not_bit-lt (2 ^ 32) k x) fd p fds h
      w,
  changed_loop-members 1024 0 p fds (omega arith) w,
)

All-replicate : (n w : ℕ) → 0 < w → All (λ x. x < w) (replicate n 0)
All-replicate zero w h = tt
All-replicate (suc n) w h = (h, All-replicate n w h)

get_elem?-replicate : (n i : ℕ) → i < n → get_elem? {A = ℕ} (replicate n 0) i ≡ some 0
get_elem?-replicate zero i h = absurd (omega arith)
get_elem?-replicate (suc n) zero h = refl
get_elem?-replicate (suc n) (suc i) h = get_elem?-replicate n i (omega arith)

bit_0 : (k : ℕ) → bit k 0 ≡ false
unfolding bit
bit_0 zero = refl
bit_0 (suc k) = bit_0 k

-- The words of FT_FD_ZERO are those of the empty set.
pub fd_zero-IsView : IsView Descriptors.fd_zero (λ n. false)
unfolding fd_isset
fd_zero-IsView = record {
  words = refl;
  bounded = All-replicate 32 (2 ^ 32) (omega arith);
  bits = λ n k.
      ap (bit_of (n % 32)) (get_elem?-replicate 32 (n / 32) (omega arith))
      ∙ ap some (bit_0 (n % 32));
}
