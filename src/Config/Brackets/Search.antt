-- ===== src/Config/Brackets/Search.antt =====
-- SetServerBracket finds the brackets that checkBracketSyntax has accepted.
use ok.Base.{
  ℕ, zero, suc, ◌+◌, ◌-◌, ◌≤◌, ◌<◌, List, [], ◌∷◌, Bool, true, false, Option, some, ◌≡◌, refl, sym,
  ap, ◌∙◌, arith, drop, get_elem?,
}
use ok.Text.{Bytes}
use ok.Text.Find.{equal_iff}
use ok.Config.Brackets.{
  is_open, is_close, check_loop, check_bracket_syntax, bracket_loop, set_server_bracket,
}

abbrev Closes : ℕ → List Bytes → ℕ → ℕ → Type 0
Closes i lines a b =
    (j : ℕ) × (bracket_loop i lines (a, b) true false ≡ some (a, i + j))
    × (get_elem? lines j ≡ some (b'}' ∷ []))

pair_at : (a : ℕ) {m n : ℕ} → m ≡ n → ◌≡◌ {A = Option (ℕ × ℕ)} (some (a, m)) (some (a, n))
pair_at a e = ap (λ k. some (a, k)) e

pairs_at :
    {m n m' n' : ℕ} → m ≡ m' → n ≡ n' → ◌≡◌ {A = Option (ℕ × ℕ)} (some (m, n)) (some (m', n'))
pairs_at e f i = some (e i, f i)

closes :
    (n i : ℕ) (lines : List Bytes) (a b : ℕ)
    → check_loop n lines 1 0 ≡ some true
    → Closes i lines a b
unfolding check_loop bracket_loop
closes zero i lines a b h = absurd (ground arith)
closes (suc n) i [] a b h = absurd (cc h)
closes (suc n) i (line ∷ lines) a b h =
    go (is_open line) refl (is_close line) refl (closes n (suc i) lines a b)
  where
    after :
        is_open line ≡ false
        → is_close line ≡ false
        → Closes (suc i) lines a b
        → Closes i (line ∷ lines) a b
    after e f (j, g, k) = (suc j, rw (e, f) (g ∙ pair_at a (omega arith)), k)

    go :
        (v : Bool)
        → is_open line ≡ v
        → (w : Bool) → is_close line ≡ w
        → (check_loop n lines 1 0 ≡ some true → Closes (suc i) lines a b)
        → Closes i (line ∷ lines) a b
    go true e w f IH = absurd (ground arith)
    go false e true f IH =
        (0, rw (e, f) (pair_at a (omega arith)), ap some ((equal_iff line (b'}' ∷ [])).0 f))
    go false e false f IH = after e f (IH (ground arith))

abbrev pub Opens : ℕ → List Bytes → ℕ → ℕ → Type 0
Opens i lines a b =
    (k j : ℕ) × (bracket_loop i lines (a, b) false false ≡ some (i + k, i + j))
    × (k < j)
    × (get_elem? lines k ≡ some (b'{' ∷ []))
    × (get_elem? lines j ≡ some (b'}' ∷ []))

pub opens :
    (n i : ℕ) (lines : List Bytes) (a b : ℕ)
    → check_loop n lines 0 0 ≡ some true
    → Opens i lines a b
unfolding check_loop bracket_loop
opens zero i lines a b h = absurd (ground arith)
opens (suc n) i [] a b h = absurd (cc h)
opens (suc n) i (line ∷ lines) a b h =
    go (is_open line) refl (is_close line) refl (opens n (suc i) lines a b)
      (closes n (suc i) lines i b)
  where
    after_open : is_open line ≡ true → Closes (suc i) lines i b → Opens i (line ∷ lines) a b
    after_open e (j, g, k) = (
      0,
      suc j,
      rw e (g ∙ pairs_at (omega arith) (omega arith)),
      omega arith,
      ap some ((equal_iff line (b'{' ∷ [])).0 e),
      k,
    )

    after :
        is_open line ≡ false
        → is_close line ≡ false
        → Opens (suc i) lines a b
        → Opens i (line ∷ lines) a b
    after e f (k, j, g, l, p, q) =
        (suc k, suc j, rw (e, f) (g ∙ pairs_at (omega arith) (omega arith)), omega arith, p, q)

    go :
        (v : Bool)
        → is_open line ≡ v
        → (w : Bool) → is_close line ≡ w
        → (check_loop n lines 0 0 ≡ some true → Opens (suc i) lines a b)
        → (check_loop n lines 1 0 ≡ some true → Closes (suc i) lines i b)
        → Opens i (line ∷ lines) a b
    go true e w f IH next = after_open e (next (ground arith))
    go false e true f IH next = absurd (ground arith)
    go false e false f IH next = after e f (IH (ground arith))

get_elem?-drop :
    (start k : ℕ) (gnl : List Bytes) → get_elem? (drop start gnl) k ≡ get_elem? gnl (start + k)
get_elem?-drop zero k gnl = let e : 0 + k ≡ k = omega arith in rw e refl
get_elem?-drop (suc start) k [] = refl
get_elem?-drop (suc start) k (line ∷ gnl) =
    let e : suc start + k ≡ suc (start + k) = omega arith in rw e (get_elem?-drop start k gnl)

-- Where the check of the lines from `start` on succeeds, the search from there finds a line "{" and
-- a line "}" behind it.
pub set_server_bracket-finds :
    (gnl : List Bytes) (start end : ℕ)
    → check_bracket_syntax gnl start end ≡ some true
    → (i j : ℕ) × (set_server_bracket gnl start ≡ some (i, j))
      × (start ≤ i)
      × (i < j)
      × (get_elem? gnl i ≡ some (b'{' ∷ []))
      × (get_elem? gnl j ≡ some (b'}' ∷ []))
unfolding check_bracket_syntax set_server_bracket
set_server_bracket-finds gnl start end h =
    let (k, j, g, l, p, q) = opens (suc end - start) start (drop start gnl) 0 0 h in
    (
      start + k,
      start + j,
      g,
      omega arith,
      omega arith,
      sym (get_elem?-drop start k gnl) ∙ p,
      sym (get_elem?-drop start j gnl) ∙ q,
    )
