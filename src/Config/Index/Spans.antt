-- ===== src/Config/Index/Spans.antt =====
-- SetLocationBracket finds the brackets that checkBracketSyntax has accepted, inside the range.
use ok.Base.{
  ℕ, zero, suc, ◌+◌, ◌-◌, ◌≤◌, ◌<◌, List, [], ◌∷◌, Bool, true, false, ◌&&◌, ◌||◌, not, Option, none,
  some, ◌≡◌, inl, inr, refl, sym, ◌∙◌, arith, if◌then◌else◌, take, drop, get_elem?, length,
  Bool-cases,
}
use ok.Text.{Bytes, codes, equal, find}
use ok.Text.Find.{equal_iff}
use ok.Utils.Split.{split_vector}
use ok.Config.Parsed.{good}
use ok.Config.Brackets.{is_open, is_close, bracket_loop, check_loop, check_bracket_syntax}
use ok.Config.Brackets.Search.{opens}
use ok.Config.Index.{
  LocationBracket, location_loop, set_location_bracket, location_found, location_block_at,
}
use ok.Config.Index.Blocks.{get_elem?-bound}

location_loop-bracket_loop :
    (n i : ℕ) (lines : List Bytes) (temp : ℕ × ℕ) (s e : Bool)
    → (location_loop n i lines temp s e).1 ≡ bracket_loop i (take n lines) temp s e
unfolding location_loop bracket_loop
location_loop-bracket_loop zero i lines temp s e = refl
location_loop-bracket_loop (suc n) i [] temp s e = refl
location_loop-bracket_loop (suc n) i (line ∷ lines) (a, b) s e =
    let opens = is_open line in
    let closes = not opens && is_close line in
    ground (
      arith,
      location_loop-bracket_loop n (suc i) lines (if opens then i else a, if closes then i else b)
          (opens || s) (closes || e),
    )

check_loop-take :
    (n : ℕ) (lines : List Bytes) (s e : ℕ)
    → check_loop n (take n lines) s e ≡ check_loop n lines s e
unfolding check_loop
check_loop-take zero lines s e = refl
check_loop-take (suc n) [] s e = refl
check_loop-take (suc n) (line ∷ lines) s e =
    rw
      (check_loop-take n lines (if is_open line then suc s else s)
        (if is_open line then e else if is_close line then suc e else e))
      refl

length-take : (n : ℕ) (lines : List Bytes) → length (take n lines) ≤ n
length-take zero lines = omega arith
length-take (suc n) [] = omega arith
length-take (suc n) (x ∷ lines) = omega (arith, length-take n lines)

drop-get_elem? :
    (i : ℕ) (gnl : List Bytes) (line : Bytes)
    → get_elem? gnl i ≡ some line
    → drop i gnl ≡ line ∷ drop (suc i) gnl
drop-get_elem? i [] line h = absurd (cc h)
drop-get_elem? zero (x ∷ gnl) line h = ground arith
drop-get_elem? (suc i) (x ∷ gnl) line h = drop-get_elem? i gnl line h

no_bracket :
    (line : Bytes) (c at : ℕ)
    → find (codes "location ") line ≡ some at
    → equal line (c ∷ []) ≡ false
unfolding find
no_bracket line c at h = elim (Bool-cases (equal line (c ∷ []))) [
  | inr e ↦ e
  | inl e ↦ absurd (ground (arith, equal_iff line (c ∷ [])))
]

past_name :
    (n start at : ℕ) (line : Bytes) (rest : List Bytes)
    → find (codes "location ") line ≡ some at
    → (location_loop (suc n) start (line ∷ rest) (0, 0) false false).1
      ≡ bracket_loop (suc start) (take n rest) (0, 0) false false
unfolding bracket_loop
past_name n start at line rest h =
    location_loop-bracket_loop (suc n) start (line ∷ rest) (0, 0) false false
    ∙ rw (no_bracket line b'{' at h, no_bracket line b'}' at h) refl

abbrev Span : List Bytes → ℕ → ℕ → Type 0
Span gnl start end =
    (i j : ℕ) × ((set_location_bracket gnl start end).1 ≡ some (i, j))
    × (start < i)
    × (i < j)
    × (j ≤ end)

search_past :
    (gnl : List Bytes) (line : Bytes) (start end at : ℕ)
    → get_elem? gnl start ≡ some line
    → find (codes "location ") line ≡ some at
    → start ≤ end
    → (set_location_bracket gnl start end).1
      ≡ bracket_loop (suc start) (take (end - start) (drop (suc start) gnl)) (0, 0) false false
unfolding set_location_bracket
search_past gnl line start end at g h o =
    let e : suc end - start ≡ suc (end - start) = omega arith in
    rw (e, drop-get_elem? start gnl line g)
      (past_name (end - start) start at line (drop (suc start) gnl) h)

set_location_bracket_finds :
    (gnl : List Bytes) (line : Bytes) (start end at : ℕ)
    → get_elem? gnl start ≡ some line
    → find (codes "location ") line ≡ some at
    → start ≤ end
    → check_bracket_syntax gnl (suc start) end ≡ some true
    → Span gnl start end
unfolding check_bracket_syntax
set_location_bracket_finds gnl line start end at g h o c =
    let n = end - start in
    let rest = drop (suc start) gnl in
    let f : suc end - suc start ≡ n = omega arith in
    let (k, j, found, order, p, q) =
      opens n (suc start) (take n rest) 0 0 (check_loop-take n rest 0 0 ∙ (rw f at c)) in
    (
      suc start + k,
      suc start + j,
      search_past gnl line start end at g h o ∙ found,
      omega arith,
      omega arith,
      omega (arith, length-take n rest, get_elem?-bound (take n rest) j q),
    )

location_found-good :
    (ws : List Bytes) (o : Option Bool) (p : List Bytes × Option (ℕ × ℕ))
    (r : List Bytes × LocationBracket)
    → location_found ws o p ≡ good r
    → (o ≡ some true) × (p.1 ≡ some ((r.1).m_start, (r.1).m_end))
location_found-good [] o p r h = absurd (cc h)
location_found-good (w ∷ []) o p r h = absurd (cc h)
location_found-good (w ∷ v ∷ u ∷ ws) o p r h = absurd (cc h)
location_found-good (w ∷ v ∷ []) none p r h = absurd (cc h)
location_found-good (w ∷ v ∷ []) (some false) p r h = absurd (cc h)
location_found-good (w ∷ v ∷ []) (some true) (gnl, none) r h = absurd (cc h)
location_found-good (w ∷ v ∷ []) (some true) (gnl, some (i, j)) r h = ground arith

pub location_span :
    (gnl : List Bytes) (line : Bytes) (start end at : ℕ) (r : List Bytes × LocationBracket)
    → get_elem? gnl start ≡ some line
    → find (codes "location ") line ≡ some at
    → start ≤ end
    → location_block_at gnl line start end ≡ good r
    → (start < (r.1).m_start) × ((r.1).m_start < (r.1).m_end) × ((r.1).m_end ≤ end)
unfolding location_block_at
location_span gnl line start end at r g h o e =
    let (c, p) =
      location_found-good (split_vector [] line (b' ' ∷ []))
        (check_bracket_syntax gnl (suc start) end) (set_location_bracket gnl start end) r e in
    let (i, j, f, after, order, last) = set_location_bracket_finds gnl line start end at g h o c in
    let q : ◌≡◌ {A = Option (ℕ × ℕ)} (some ((r.1).m_start, (r.1).m_end)) (some (i, j)) =
      sym p ∙ f in
    let u : (r.1).m_start ≡ i = cc q in
    let v : (r.1).m_end ≡ j = cc q in (omega arith, omega arith, omega arith)
