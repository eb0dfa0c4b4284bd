-- ===== src/Config/Index.antt =====
-- Where the blocks of the configuration file stand: SetLocationBracket, Step1 and Step2 of
-- srcs/ServerConfigIdx/ServerConfigIdx.cpp.
pub mod Blocks
pub mod Spans
pub mod Locations
pub mod Ends
use ok.Base.{
  ℕ, zero, suc, ◌+◌, ◌-◌, List, [], ◌∷◌, ◌++◌, Bool, true, false, ◌&&◌, ◌||◌, not, Option, none,
  some, ltb, ◌==◌, if◌then◌else◌, take, drop, get_elem?, length,
}
use ok.Text.{Bytes, codes, equal, find}
use ok.FilePath.{FilePath, of_string}
use ok.Utils.Split.{split_vector}
use ok.Config.Parsed.{Parsed, good, refused, undefined, stuck, ◌>>=◌}
use ok.Config.Brackets.{
  outdent_tab, is_open, is_close, check_loop, check_bracket_syntax, bracket_loop,
  set_server_bracket,
}

pub record LocationBracket : Type 0 where
  pub m_start : ℕ
  pub m_end : ℕ
  pub location_path : FilePath

-- mLocationBlockNum counts the location brackets: both grow together.
pub record ServerBracket : Type 0 where
  pub location_brackets : List LocationBracket
  pub m_start : ℕ
  pub m_end : ℕ

-- The loop of SetLocationBracket over the lines from `i` on, the lines as it leaves them, and the
-- pair that it has found. A line that it passes loses a tab.
unfoldable pub location_loop :
    ℕ → ℕ → List Bytes → ℕ × ℕ → Bool → Bool → List Bytes × Option (ℕ × ℕ)
unfolding equal outdent_tab
location_loop zero i lines temp start_check end_check = (lines, none)
location_loop (suc n) i [] temp start_check end_check = ([], none)
location_loop (suc n) i (line ∷ lines) (m_start, m_end) start_check end_check =
    let opens = is_open line in
    let closes = not opens && is_close line in
    let temp : ℕ × ℕ = (if opens then i else m_start, if closes then i else m_end) in
    let s = opens || start_check in
    let e = closes || end_check in
    let rest = location_loop n (suc i) lines temp s e in
    let passed = if length line == 1 then line else outdent_tab line in
    if s && e then (line ∷ lines, some temp) else (passed ∷ rest.0, rest.1)

unfoldable pub set_location_bracket : List Bytes → ℕ → ℕ → List Bytes × Option (ℕ × ℕ)
unfolding location_loop
set_location_bracket gnl start end =
    let found = location_loop (suc end - start) start (drop start gnl) (0, 0) false false in
    (take start gnl ++ found.0, found.1)

-- What Step1 does at a line "server", where `check` is the answer of checkBracketSyntax.
abbrev server_found : Option Bool → Option (ℕ × ℕ) → Parsed ServerBracket
server_found none pair = undefined
server_found (some false) pair = refused
server_found (some true) none = undefined
server_found (some true) (some (i, j)) =
    good (record { location_brackets = []; m_start = i; m_end = j })

unfoldable pub server_block_at : List Bytes → ℕ → Parsed ServerBracket
unfolding check_bracket_syntax set_server_bracket
server_block_at gnl i =
    server_found (check_bracket_syntax gnl (suc i) (length gnl)) (set_server_bracket gnl (suc i))

-- The loop of Step1 on fuel, with the brackets that were found; it goes on behind a block's end.
unfoldable pub step1_loop : ℕ → List Bytes → ℕ → List ServerBracket → Parsed (List ServerBracket)
unfolding server_block_at equal
step1_loop zero gnl i found = stuck
step1_loop (suc fuel) gnl i found = elim (get_elem? gnl i) [
  | none ↦ good found
  | some line ↦ elim (equal line (codes "server")) [
    | true ↦ server_block_at gnl i >>= λ b. step1_loop fuel gnl (suc b.m_end) (found ++ (b ∷ []))
    | false ↦ step1_loop fuel gnl (suc i) found
  ]
]

unfoldable pub step1 : List Bytes → Parsed (List ServerBracket)
unfolding step1_loop
step1 gnl = step1_loop (suc (length gnl)) gnl 0 []

-- `while (temp <= end) outdentTab(gnl[temp++])` over `n` lines.
unfoldable pub outdent_first : ℕ → List Bytes → List Bytes
unfolding outdent_tab
outdent_first zero lines = lines
outdent_first (suc n) [] = []
outdent_first (suc n) (line ∷ lines) = outdent_tab line ∷ outdent_first n lines

unfoldable pub outdent_block : List Bytes → ℕ → ℕ → List Bytes
unfolding outdent_first
outdent_block gnl start end = take start gnl ++ outdent_first (suc end - start) (drop start gnl)

-- What Step2 does at a line that names a location: the words of the line, the answer of
-- checkBracketSyntax, and what SetLocationBracket leaves.
abbrev location_found :
    List Bytes → Option Bool → List Bytes × Option (ℕ × ℕ) → Parsed (List Bytes × LocationBracket)
location_found (word ∷ path ∷ []) none found = undefined
location_found (word ∷ path ∷ []) (some false) found = refused
location_found (word ∷ path ∷ []) (some true) (gnl, none) = undefined
location_found (word ∷ path ∷ []) (some true) (gnl, some (i, j)) =
    good (gnl, record { m_start = i; m_end = j; location_path = of_string path })
location_found _ check found = refused

unfoldable pub location_block_at :
    List Bytes → Bytes → ℕ → ℕ → Parsed (List Bytes × LocationBracket)
unfolding check_bracket_syntax set_location_bracket split_vector of_string
location_block_at gnl line start end =
    location_found (split_vector [] line (b' ' ∷ [])) (check_bracket_syntax gnl (suc start) end)
      (set_location_bracket gnl start end)

-- The inner loop of Step2 on fuel, over the lines from `start` to `end`.
unfoldable pub step2_loop :
    ℕ → List Bytes → ℕ → ℕ → List LocationBracket → Parsed (List Bytes × List LocationBracket)
unfolding location_block_at find
step2_loop zero gnl start end found = stuck
step2_loop (suc fuel) gnl start end found = elim (ltb end start) [
  | true ↦ good (gnl, found)
  | false ↦ elim (get_elem? gnl start) [
    | none ↦ undefined
    | some line ↦ elim (find (codes "location ") line) [
      | none ↦ step2_loop fuel gnl (suc start) end found
      | some at ↦ location_block_at gnl line start end >>= λ r.
          step2_loop fuel r.0 (suc (r.1).m_end) end (found ++ (r.1 ∷ []))
    ]
  ]
]

-- One round of Step2's outer loop. A bracket's end lies behind its start, so that `mEnd - 1` is not
-- negative.
unfoldable pub step2_block : List Bytes → ServerBracket → Parsed (List Bytes × ServerBracket)
unfolding outdent_block step2_loop
step2_block gnl b =
    let start = suc b.m_start in
    let end = b.m_end - 1 in
    step2_loop (suc (suc end)) (outdent_block gnl start end) start end [] >>= λ r.
    good (r.0, record b { location_brackets = r.1 })

unfoldable pub step2 : List Bytes → List ServerBracket → Parsed (List Bytes × List ServerBracket)
unfolding step2_block
step2 gnl [] = good (gnl, [])
step2 gnl (b ∷ bs) = step2_block gnl b >>= λ r. step2 r.0 bs >>= λ rest. good (rest.0, r.1 ∷ rest.1)
