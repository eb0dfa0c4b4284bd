-- ===== src/Config/Brackets/Check.antt =====
-- What checkBracketSyntax decides.
use ok.Base.{
  ℕ, zero, suc, ◌-◌, List, [], ◌∷◌, Bool, true, false, not, Option, none, some, ◌≡◌, refl, sym, ap,
  ◌∙◌, arith, leb, if◌then◌else◌, take, drop, length,
}
use ok.Text.{Bytes, equal}
use ok.Config.Brackets.{is_open, is_close, check_loop, check_bracket_syntax}

abbrev marked : Bool → Bool → List Bool → List Bool
marked true closes bs = true ∷ bs
marked false true bs = false ∷ bs
marked false false bs = bs

-- The bracket lines in their order: `true` for "{" and `false` for "}".
unfoldable pub brackets : List Bytes → List Bool
unfolding equal
brackets [] = []
brackets (line ∷ lines) = marked (is_open line) (is_close line) (brackets lines)

-- What the first two brackets tell, if there are enough of them: a block must open and then close.
unfoldable pub decide : List Bool → Option Bool
decide [] = none
decide (false ∷ bs) = some false
decide (true ∷ []) = none
decide (true ∷ b ∷ bs) = some (not b)

abbrev second : List Bool → Option Bool
second [] = none
second (b ∷ bs) = some (not b)

-- What comes of no decision: the end of the range, or a read behind the last line.
abbrev pub or_end : ℕ → List Bytes → Option Bool → Option Bool
or_end n lines (some b) = some b
or_end n lines none = if leb n (length lines) then some false else none

or_end-cons :
    (n : ℕ) (line : Bytes) (lines : List Bytes) (o : Option Bool)
    → or_end n lines o ≡ or_end (suc n) (line ∷ lines) o
or_end-cons n line lines (some b) = refl
or_end-cons n line lines none =
    ap (λ (v : Bool). if v then some false else none) (shift n (length lines))
  where
    shift : (n m : ℕ) → leb n m ≡ leb (suc n) (suc m)
    shift n m = ground arith

check_loop-second :
    (n : ℕ) (lines : List Bytes)
    → check_loop n lines 1 0 ≡ or_end n lines (second (brackets (take n lines)))
unfolding check_loop brackets
check_loop-second zero lines = ground arith
check_loop-second (suc n) [] = ground arith
check_loop-second (suc n) (line ∷ lines) =
    go (is_open line) refl (is_close line) refl (check_loop-second n lines)
  where
    go :
        (v : Bool)
        → is_open line ≡ v
        → (w : Bool) → is_close line ≡ w
        → check_loop n lines 1 0 ≡ or_end n lines (second (brackets (take n lines)))
        → check_loop (suc n) (line ∷ lines) 1 0
          ≡ or_end (suc n) (line ∷ lines) (second (brackets (line ∷ take n lines)))
    go true e w f IH = rw e refl
    go false e true f IH = rw (e, f) refl
    go false e false f IH =
        rw (e, f) (IH ∙ or_end-cons n line lines (second (brackets (take n lines))))

decide-open : (bs : List Bool) → decide (true ∷ bs) ≡ second bs
unfolding decide
decide-open [] = refl
decide-open (b ∷ bs) = refl

check_loop-first :
    (n : ℕ) (lines : List Bytes)
    → check_loop n lines 0 0 ≡ or_end n lines (decide (brackets (take n lines)))
unfolding check_loop brackets decide
check_loop-first zero lines = ground arith
check_loop-first (suc n) [] = ground arith
check_loop-first (suc n) (line ∷ lines) =
    go (is_open line) refl (is_close line) refl (check_loop-first n lines)
  where
    go :
        (v : Bool)
        → is_open line ≡ v
        → (w : Bool) → is_close line ≡ w
        → check_loop n lines 0 0 ≡ or_end n lines (decide (brackets (take n lines)))
        → check_loop (suc n) (line ∷ lines) 0 0
          ≡ or_end (suc n) (line ∷ lines) (decide (brackets (line ∷ take n lines)))
    go true e w f IH = rw e (
        check_loop-second n lines
        ∙ or_end-cons n line lines (second (brackets (take n lines)))
        ∙ ap (or_end (suc n) (line ∷ lines)) (sym (decide-open (brackets (take n lines)))))
    go false e true f IH = rw (e, f) refl
    go false e false f IH =
        rw (e, f) (IH ∙ or_end-cons n line lines (decide (brackets (take n lines))))

-- The check of the lines from `start` to `end` is decided by their first two brackets, which must be
-- "{" and "}" in this order. If there are not two to decide it, the answer is no where all the lines
-- exist, and otherwise a line behind the last one is read.
pub check_bracket_syntax-decide :
    (gnl : List Bytes) (start end : ℕ)
    → let lines = drop start gnl in
      let n = suc end - start in
      check_bracket_syntax gnl start end ≡ or_end n lines (decide (brackets (take n lines)))
unfolding check_bracket_syntax
check_bracket_syntax-decide gnl start end = check_loop-first (suc end - start) (drop start gnl)
