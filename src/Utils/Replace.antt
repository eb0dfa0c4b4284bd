-- ===== src/Utils/Replace.antt =====
-- ft::ReplaceAll and ft::ReplaceAllModified of srcs/Utils/utils.cpp.
use mathlib.Core.Path.{ap₂}
use ok.Base.{
  ℕ, zero, suc, ◌+◌, ◌-◌, ◌≤◌, ◌<◌, [], ◌∷◌, ◌++◌, append_assoc, ◌&&◌, none, some, ◌≡◌, inl, inr,
  refl, sym, ap, ◌∙◌, arith, ◌==◌, if◌then◌else◌, take, drop, length, length-append, length-drop,
  take-append-drop, drop-drop, Option-cases,
}
use ok.Text.{Bytes, find, find_from}
use ok.Text.Find.{find_bound}

abbrev replace_at : Bytes → ℕ → ℕ → Bytes → Bytes
replace_at str p n to = take p str ++ (to ++ drop (p + n) str)

replace_loop : ℕ → Bytes → Bytes → Bytes → ℕ → Bytes
replace_loop zero str from to start = str
replace_loop (suc fuel) str from to start = elim (find_from from str start) [
  | none ↦ str
  | some p ↦ replace_loop fuel (replace_at str p (length from) to) from to (p + length to)
]

-- Each round leaves a shorter rest behind `start_pos`, if `from` is not empty.
unfoldable pub replace_all : Bytes → Bytes → Bytes → Bytes
unfolding replace_loop find_from
replace_all str from to = replace_loop (suc (length str)) str from to 0

replace_modified_loop : ℕ → Bytes → Bytes → Bytes → ℕ → Bytes
replace_modified_loop zero str from to start = str
replace_modified_loop (suc fuel) str from to start = elim (find_from from str start) [
  | none ↦ str
  | some p ↦ replace_modified_loop fuel (replace_at str p (length from) to) from to p
]

-- The search goes on at the position of the replacement. Each round shortens the text, as all calls
-- of the program replace "//" by "/".
unfoldable pub replace_all_modified : Bytes → Bytes → Bytes → Bytes
unfolding replace_modified_loop find_from
replace_all_modified str from to = replace_modified_loop (suc (length str)) str from to 0

abbrev pub double_slash : Bytes
double_slash = b'/' ∷ b'/' ∷ []

abbrev pub slash : Bytes
slash = b'/' ∷ []

-- The reference: a slash in front of a slash is left out.
unfoldable pub collapse : Bytes → Bytes
collapse [] = []
collapse (c ∷ []) = c ∷ []
collapse (c ∷ d ∷ s) =
    let rest = collapse (d ∷ s) in if c == b'/' && d == b'/' then rest else c ∷ rest

collapse-none : (s : Bytes) → find double_slash s ≡ none → collapse s ≡ s
unfolding collapse find
collapse-none [] h = refl
collapse-none (c ∷ []) h = refl
collapse-none (c ∷ d ∷ s) h = ground (arith, collapse-none (d ∷ s))

collapse-some :
    (s : Bytes) (j : ℕ)
    → find double_slash s ≡ some j
    → collapse s ≡ take j s ++ collapse (b'/' ∷ drop (suc (suc j)) s)
unfolding collapse find
collapse-some [] j h = cc
collapse-some (c ∷ []) zero h = ground arith
collapse-some (c ∷ []) (suc j) h = ground arith
collapse-some (c ∷ d ∷ s) zero h = ground arith
collapse-some (c ∷ d ∷ s) (suc j) h = ground (arith, collapse-some (d ∷ s) j)

find-collapse : (s : Bytes) → find double_slash (collapse s) ≡ none
unfolding collapse find
find-collapse [] = refl
find-collapse (c ∷ []) = ground arith
find-collapse (c ∷ d ∷ []) = ground arith
find-collapse (c ∷ d ∷ e ∷ s) = ground (arith, find-collapse (d ∷ e ∷ s))

take-take_append : (str y : Bytes) (p : ℕ) → p ≤ length str → take p (take p str ++ y) ≡ take p str
take-take_append str y zero h = refl
take-take_append [] y (suc p) h = absurd (omega arith)
take-take_append (c ∷ str) y (suc p) h = ap (◌∷◌ c) (take-take_append str y p (omega arith))

drop-take_append : (str y : Bytes) (p : ℕ) → p ≤ length str → drop p (take p str ++ y) ≡ y
drop-take_append str y zero h = refl
drop-take_append [] y (suc p) h = absurd (omega arith)
drop-take_append (c ∷ str) y (suc p) h = drop-take_append str y p (omega arith)

length-take_append :
    (str y : Bytes) (p : ℕ) → p ≤ length str → length (take p str ++ y) ≡ p + length y
length-take_append str y zero h = omega arith
length-take_append [] y (suc p) h = absurd (omega arith)
length-take_append (c ∷ str) y (suc p) h = omega (arith, length-take_append str y p (omega arith))

length-replace_at :
    (str to : Bytes) (p n : ℕ)
    → p + n ≤ length str
    → length (replace_at str p n to) + n ≡ length str + length to
length-replace_at str to p n h = omega (
  arith,
  length-take_append str (to ++ drop (p + n) str) p (omega arith),
  length-append to (drop (p + n) str),
  length-drop (p + n) str,
)

take-add : (j p : ℕ) (s : Bytes) → take (p + j) s ≡ take p s ++ take j (drop p s)
take-add j zero s = let e : 0 + j ≡ j = omega arith in rw e
take-add zero (suc p) [] = let e : suc p + 0 ≡ suc p = omega arith in rw e
take-add (suc j) (suc p) [] = let e : suc p + suc j ≡ suc (p + suc j) = omega arith in rw e
take-add j (suc p) (c ∷ s) =
    let e : suc p + j ≡ suc (p + j) = omega arith in rw e (ap (◌∷◌ c) (take-add j p s))

collapse_rest :
    (start j : ℕ) (str : Bytes)
    → find double_slash (drop start str) ≡ some j
    → take j (drop start str) ++ collapse (slash ++ drop (start + j + 2) str)
      ≡ collapse (drop start str)
collapse_rest start j str e =
    let a : start + j + 2 ≡ start + suc (suc j) = omega arith in
    rw (a, ← drop-drop (suc (suc j)) start str) (sym (collapse-some _ j e))

replace_modified_loop-collapse :
    (fuel : ℕ) (str : Bytes) (start : ℕ)
    → start ≤ length str
    → length str - start < fuel
    → replace_modified_loop fuel str double_slash slash start
      ≡ take start str ++ collapse (drop start str)
unfolding replace_modified_loop find_from
replace_modified_loop-collapse zero str start h q = absurd (omega arith)
replace_modified_loop-collapse (suc fuel) str start h q =
    elim (Option-cases (find double_slash (drop start str))) [
      | inl e ↦
          rw (e, replace_modified_loop, find_from)
            (sym (ap (◌++◌ (take start str)) (collapse-none _ e) ∙ take-append-drop start str))
      | inr (j, e) ↦
          let bound = find_bound double_slash (drop start str) j e in
          let len = length-drop start str in
          let fits : start + j + 2 ≤ length str = omega arith in
          rw (e, replace_modified_loop, find_from)
            (replace_modified_loop-collapse fuel _ (start + j)
                (omega (arith, length-replace_at str slash (start + j) 2 fits))
                (omega (arith, length-replace_at str slash (start + j) 2 fits))
              ∙ ap₂ (λ (x y : Bytes). x ++ collapse y)
                  (take-take_append str _ (start + j) (omega arith) ∙ take-add j start str)
                  (drop-take_append str _ (start + j) (omega arith))
              ∙ append_assoc (take start str) _ _
              ∙ ap (◌++◌ (take start str)) (collapse_rest start j str e))
    ]

-- Replacing "//" by "/" leaves one slash of each run of slashes, and no "//".
pub replace_all_modified-collapse :
    (str : Bytes)
    → (replace_all_modified str double_slash slash ≡ collapse str)
      × (find double_slash (replace_all_modified str double_slash slash) ≡ none)
unfolding replace_all_modified
replace_all_modified-collapse str =
    let e = replace_modified_loop-collapse (suc (length str)) str 0 (omega arith) (omega arith) in
    (e, rw e (find-collapse str))
