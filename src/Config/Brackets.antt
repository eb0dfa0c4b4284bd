-- ===== src/Config/Brackets.antt =====
-- The brackets of the configuration file: srcs/ServerConfigIdx/ServerConfigIdx.cpp, as far as the
-- check of a block's brackets and the search for them.
pub mod Search
pub mod Check
use ok.Base.{
  ℕ, zero, suc, ◌-◌, List, [], ◌∷◌, Bool, true, false, ◌&&◌, ◌||◌, not, Option, none, some, ltb,
  ◌==◌, if◌then◌else◌, drop,
}
use ok.Text.{Bytes, equal}

-- One tab at the start of a line is taken off.
unfoldable pub outdent_tab : Bytes → Bytes
outdent_tab [] = []
outdent_tab (c ∷ []) = c ∷ []
outdent_tab (c ∷ d ∷ str) = if c == 9 then d ∷ str else c ∷ d ∷ str

abbrev pub is_open : Bytes → Bool
is_open line = equal line (b'{' ∷ [])

abbrev pub is_close : Bytes → Bool
is_close line = equal line (b'}' ∷ [])

-- The loop of checkBracketSyntax with its two counters, over the lines from `i` on; `none` is a read
-- behind the last line.
unfoldable pub check_loop : ℕ → List Bytes → ℕ → ℕ → Option Bool
unfolding equal
check_loop zero lines start_check end_check = some false
check_loop (suc n) [] start_check end_check = none
check_loop (suc n) (line ∷ lines) start_check end_check =
    let s = if is_open line then suc start_check else start_check in
    let e =
      if is_open line then end_check else if is_close line then suc end_check else end_check in
    let rest = check_loop n lines s e in
    if s == 1 && e == 1
    then some true
    else if s == 0 && e == 1
    then some false
    else if ltb 1 s && e == 0
    then some false
    else rest

-- The lines from `start` to `end`, both included.
unfoldable pub check_bracket_syntax : List Bytes → ℕ → ℕ → Option Bool
unfolding check_loop
check_bracket_syntax gnl start end = check_loop (suc end - start) (drop start gnl) 0 0

-- The loop of SetServerBracket, with what `temp` holds and which brackets were seen; `none` where it
-- ends without a pair.
unfoldable pub bracket_loop : ℕ → List Bytes → ℕ × ℕ → Bool → Bool → Option (ℕ × ℕ)
unfolding equal
bracket_loop i [] temp start_check end_check = none
bracket_loop i (line ∷ lines) (m_start, m_end) start_check end_check =
    let opens = is_open line in
    let closes = not opens && is_close line in
    let temp : ℕ × ℕ = (if opens then i else m_start, if closes then i else m_end) in
    let s = opens || start_check in
    let e = closes || end_check in
    let rest = bracket_loop (suc i) lines temp s e in if s && e then some temp else rest

unfoldable pub set_server_bracket : List Bytes → ℕ → Option (ℕ × ℕ)
unfolding bracket_loop
set_server_bracket gnl start = bracket_loop start (drop start gnl) (0, 0) false false
