-- ===== src/Utils/Split.antt =====
-- ft::splitVector of srcs/Utils/utils.cpp, which Path::setPath2 repeats, against a scan of the text.
use mathlib.Core.List.{cons-ne-nil}
use ok.Base.{
  ℕ, zero, suc, ◌+◌, ◌-◌, ◌<◌, List, [], ◌∷◌, ◌++◌, append-nil, append_assoc, true, false, none,
  some, ◌≡◌, ◌≢◌, inl, inr, refl, sym, ap, ◌∙◌, arith, ltb, ◌==◌, if◌then◌else◌, take, drop, length,
  length-drop, take_all, drop-drop, All, All-append, Bool-cases, Option-cases, lt→ltb,
}
use ok.Text.{Bytes, npos, find, find_from, slice}
use ok.Text.Find.{Lacks, find_bound}

-- What the function does after its loop.
abbrev push_tail : List Bytes → Bytes → ℕ → List Bytes
push_tail vec str before =
    if ltb before (length str) then vec ++ slice str before (npos - 1) ∷ [] else vec

abbrev push_non_empty : List Bytes → Bytes → List Bytes
push_non_empty vec [] = vec
push_non_empty vec (c ∷ s) = vec ++ (c ∷ s) ∷ []

unfoldable pub split_loop : ℕ → List Bytes → Bytes → Bytes → ℕ → List Bytes
split_loop zero vec str delim before = vec
split_loop (suc fuel) vec str delim before = elim (find_from delim str before) [
  | some after ↦
      split_loop fuel (push_non_empty vec (slice str before (after - before))) str delim (suc after)
  | none ↦ push_tail vec str before
]

-- Each round moves `before` forward, so the text's length bounds the rounds.
unfoldable pub split_vector : List Bytes → Bytes → Bytes → List Bytes
unfolding split_loop find_from
split_vector vec str delim = split_loop (suc (length str)) vec str delim 0

-- The reference: one pass over the bytes, with the word that is being read.
abbrev pub emit : Bytes → List Bytes → List Bytes
emit [] ws = ws
emit (c ∷ s) ws = (c ∷ s) ∷ ws

unfoldable pub words : ℕ → Bytes → Bytes → List Bytes
words d [] cur = emit cur []
words d (c ∷ s) cur = elim (c == d) [
  | true ↦ emit cur (words d s [])
  | false ↦ words d s (cur ++ c ∷ [])
]

find_byte-none : (d : ℕ) (s : Bytes) → find (d ∷ []) s ≡ none → Lacks d s
unfolding find
find_byte-none d [] h = tt
find_byte-none d (c ∷ s) h = ground (arith, find_byte-none d s)

find_byte_sound :
    (d : ℕ) (s : Bytes) (i : ℕ)
    → find (d ∷ []) s ≡ some i
    → Lacks d (take i s) × (s ≡ take i s ++ d ∷ drop (suc i) s)
unfolding find
find_byte_sound d [] i h = cc
find_byte_sound d (c ∷ s) zero h = ground arith
find_byte_sound d (c ∷ s) (suc i) h = ground (arith, find_byte_sound d s i)

pub words-Lacks : (d : ℕ) (s cur : Bytes) → Lacks d s → words d s cur ≡ emit (cur ++ s) []
unfolding words
words-Lacks d [] cur h = rw append-nil
words-Lacks d (c ∷ s) cur h =
    ground (arith, words-Lacks d s (cur ++ c ∷ []), append_assoc cur (c ∷ []) s)

pub words-append :
    (d : ℕ) (s rest cur : Bytes)
    → Lacks d s
    → words d (s ++ d ∷ rest) cur ≡ emit (cur ++ s) (words d rest [])
unfolding words
words-append d [] rest cur h = ground (arith, append-nil cur)
words-append d (c ∷ s) rest cur h =
    ground (arith, words-append d s rest (cur ++ c ∷ []), append_assoc cur (c ∷ []) s)

push_non_empty-emit :
    (vec : List Bytes) (w : Bytes) (ws : List Bytes) → push_non_empty vec w ++ ws ≡ vec ++ emit w ws
push_non_empty-emit vec [] ws = refl
push_non_empty-emit vec (c ∷ s) ws = append_assoc vec ((c ∷ s) ∷ []) ws

push_tail-emit :
    (vec : List Bytes) (str : Bytes) (before : ℕ)
    → length str < npos
    → push_tail vec str before ≡ vec ++ emit (drop before str) []
push_tail-emit vec str before h = go (drop before str) refl
  where
    go : (rest : Bytes) → drop before str ≡ rest → push_tail vec str before ≡ vec ++ emit rest []
    go [] e = ground (arith, length-drop before str, append-nil vec)
    go (c ∷ s) e =
        rw (lt→ltb before (length str) (omega (arith, ap length e, length-drop before str))) (
          ap (λ w. vec ++ w ∷ [])
            (take_all (npos - 1) (drop before str) (omega (arith, length-drop before str)) ∙ e))

-- The loop from `before` adds the words of the text from there on.
split_loop-words :
    (fuel : ℕ) (vec : List Bytes) (str : Bytes) (d before : ℕ)
    → length str < npos
    → length str - before < fuel
    → split_loop fuel vec str (d ∷ []) before ≡ vec ++ words d (drop before str) []
unfolding split_loop find_from
split_loop-words zero vec str d before h q = absurd (omega arith)
split_loop-words (suc fuel) vec str d before h q =
    elim (Option-cases (find (d ∷ []) (drop before str))) [
      | inl e ↦
          rw (e, split_loop, find_from)
            (push_tail-emit vec str before h
              ∙ ap (◌++◌ vec) (sym (words-Lacks d (drop before str) [] (find_byte-none d _ e))))
      | inr (j, e) ↦
          let rest = drop before str in
          let sound = find_byte_sound d rest j e in
          let bound = find_bound (d ∷ []) rest j e in
          let a : suc (before + j) ≡ before + suc j = omega arith in
          let b : before + j - before ≡ j = omega arith in
          rw (e, split_loop, find_from)
            (rw (b, a)
              (split_loop-words fuel _ str d (before + suc j) h
                  (omega (arith, length-drop before str))
                ∙ push_non_empty-emit vec (take j rest) _
                ∙ ap (◌++◌ vec) (
                    rw (← drop-drop (suc j) before str) (
                      sym (
                        ap (λ t. words d t []) sound.1
                        ∙ words-append d (take j rest) (drop (suc j) rest) [] sound.0)))))
    ]

-- Splitting at one byte gives the words between its occurrences, the empty ones left out.
pub split_vector-words :
    (d : ℕ) (str : Bytes) → length str < npos → split_vector [] str (d ∷ []) ≡ words d str []
unfolding split_vector
split_vector-words d str h = split_loop-words (suc (length str)) [] str d 0 h (omega arith)

abbrev pub IsWord : ℕ → Bytes → Type 0
IsWord d w = (w ≢ []) × Lacks d w

emit-IsWord :
    (d : ℕ) (w : Bytes) (ws : List Bytes)
    → Lacks d w
    → All (IsWord d) ws
    → All (IsWord d) (emit w ws)
emit-IsWord d [] ws h hs = hs
emit-IsWord d (c ∷ s) ws h hs = ((cons-ne-nil c s, h), hs)

pub words-IsWord : (d : ℕ) (s cur : Bytes) → Lacks d cur → All (IsWord d) (words d s cur)
unfolding words
words-IsWord d [] cur h = emit-IsWord d cur [] h tt
words-IsWord d (c ∷ s) cur h = elim (Bool-cases (c == d)) [
  | inl e ↦ rw (e, All, words) (emit-IsWord d cur _ h (words-IsWord d s [] tt))
  | inr e ↦
      rw (e, All, words)
        (words-IsWord d s (cur ++ c ∷ []) (All-append _ cur (c ∷ []) h (ground arith, tt)))
]

pub emit_word : (w : Bytes) (ws : List Bytes) → w ≢ [] → emit w ws ≡ w ∷ ws
emit_word [] ws h = absurd (h refl)
emit_word (c ∷ s) ws h = refl
