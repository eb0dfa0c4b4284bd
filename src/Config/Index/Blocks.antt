-- ===== src/Config/Index/Blocks.antt =====
-- What Step1 finds: the brackets of the server blocks, in their order.
use ok.Base.{
  ℕ, zero, suc, ◌-◌, ◌≤◌, ◌<◌, List, [], ◌∷◌, ◌++◌, append-nil, append_assoc, Bool, true, false,
  Option, none, some, ◌≡◌, ◌≢◌, inl, inr, refl, sym, ap, subst, ◌∙◌, arith, get_elem?, length,
  Bool-cases,
}
use ok.Text.{Bytes, codes, equal}
use ok.Text.Find.{equal_iff}
use ok.Config.Parsed.{Parsed, good, refused, undefined, stuck, ◌>>=◌}
use ok.Config.Brackets.{check_bracket_syntax, set_server_bracket}
use ok.Config.Brackets.Search.{set_server_bracket-finds}
use ok.Config.Index.{ServerBracket, server_found, server_block_at, step1_loop, step1}

-- Lines "{" and "}" in this order.
abbrev pub IsPair : List Bytes → ℕ → ℕ → Type 0
IsPair gnl i j =
    (i < j) × (get_elem? gnl i ≡ some (b'{' ∷ [])) × (get_elem? gnl j ≡ some (b'}' ∷ []))

-- The blocks from a line on: each stands behind a line "server", and behind the block before it.
abbrev pub IsLaidOut : List Bytes → ℕ → List ServerBracket → Type 0
IsLaidOut gnl from [] = Unit
IsLaidOut gnl from (b ∷ bs) =
    ((k : ℕ) × (from ≤ k) × (k < b.m_start) × (get_elem? gnl k ≡ some (codes "server")))
    × IsPair gnl b.m_start b.m_end
    × (b.location_brackets ≡ [])
    × IsLaidOut gnl (suc b.m_end) bs

server_found-good :
    (o : Option Bool) (p : Option (ℕ × ℕ)) (b : ServerBracket)
    → server_found o p ≡ good b
    → (o ≡ some true) × (p ≡ some (b.m_start, b.m_end)) × (b.location_brackets ≡ [])
server_found-good none p b h = absurd (cc h)
server_found-good (some false) p b h = absurd (cc h)
server_found-good (some true) none b h = absurd (cc h)
server_found-good (some true) (some (i, j)) b h = ground arith

block-IsPair :
    (gnl : List Bytes) (i : ℕ) (b : ServerBracket)
    → server_block_at gnl i ≡ good b
    → (i < b.m_start) × IsPair gnl b.m_start b.m_end × (b.location_brackets ≡ [])
unfolding server_block_at
block-IsPair gnl i b h =
    let (c, p, l) =
      server_found-good (check_bracket_syntax gnl (suc i) (length gnl))
        (set_server_bracket gnl (suc i)) b h in
    let (s, e, f, after, order, opens, closes) =
      set_server_bracket-finds gnl (suc i) (length gnl) c in
    let q : ◌≡◌ {A = Option (ℕ × ℕ)} (some (b.m_start, b.m_end)) (some (s, e)) = sym p ∙ f in
    let u : s ≡ b.m_start = cc q in
    let v : e ≡ b.m_end = cc q in
    (
      omega arith,
      (
        omega arith,
        subst (λ k. get_elem? gnl k ≡ some (b'{' ∷ [])) u opens,
        subst (λ k. get_elem? gnl k ≡ some (b'}' ∷ [])) v closes,
      ),
      l,
    )

abbrev Continues : List Bytes → ℕ → List ServerBracket → List ServerBracket → Type 0
Continues gnl i found bs = (rest : List ServerBracket) × (bs ≡ found ++ rest) × IsLaidOut gnl i rest

earlier :
    (gnl : List Bytes) (i j : ℕ) (bs : List ServerBracket)
    → j ≤ i
    → IsLaidOut gnl i bs
    → IsLaidOut gnl j bs
earlier gnl i j [] h l = tt
earlier gnl i j (b ∷ bs) h ((k, p, q, e), r, l, t) = ((k, omega arith, q, e), r, l, t)

module _ (gnl : List Bytes) (fuel : ℕ)
    (IH : (i : ℕ) (found bs : List ServerBracket)
      → step1_loop fuel gnl i found ≡ good bs
      → Continues gnl i found bs) where
  after_block :
      (i : ℕ) (found bs : List ServerBracket) (r : Parsed ServerBracket)
      → get_elem? gnl i ≡ some (codes "server")
      → server_block_at gnl i ≡ r
      → (r >>= λ b. step1_loop fuel gnl (suc b.m_end) (found ++ (b ∷ []))) ≡ good bs
      → Continues gnl i found bs
  after_block i found bs (good b) e f h =
      let (rest, g, l) = IH (suc b.m_end) (found ++ (b ∷ [])) bs h in
      let (p, pair, none_yet) = block-IsPair gnl i b f in
      (b ∷ rest, g ∙ append_assoc found (b ∷ []) rest, ((i, omega arith, p, e), pair, none_yet, l))
  after_block i found bs refused e f h = absurd (cc h)
  after_block i found bs undefined e f h = absurd (cc h)
  after_block i found bs stuck e f h = absurd (cc h)

  after_line :
      (i : ℕ) (found bs : List ServerBracket)
      → Continues gnl (suc i) found bs
      → Continues gnl i found bs
  after_line i found bs (rest, e, l) = (rest, e, earlier gnl (suc i) i rest (omega arith) l)

  at_line :
      (i : ℕ) (found bs : List ServerBracket) (line : Bytes)
      → get_elem? gnl i ≡ some line
      → (v : Bool) → equal line (codes "server") ≡ v
      → step1_loop (suc fuel) gnl i found ≡ good bs
      → Continues gnl i found bs
  unfolding step1_loop
  at_line i found bs line e true f h =
      after_block i found bs (server_block_at gnl i)
        (e ∙ ap some ((equal_iff line (codes "server")).0 f)) refl (rw (e, f, step1_loop) at h)
  at_line i found bs line e false f h =
      after_line i found bs (IH (suc i) found bs (rw (e, f, step1_loop) at h))

  at_index :
      (i : ℕ) (found bs : List ServerBracket) (o : Option Bytes)
      → get_elem? gnl i ≡ o
      → step1_loop (suc fuel) gnl i found ≡ good bs
      → Continues gnl i found bs
  unfolding step1_loop
  at_index i found bs none e h = ([], ground (arith, append-nil found), tt)
  at_index i found bs (some line) e h =
      at_line i found bs line e (equal line (codes "server")) refl h

step1_loop-IsLaidOut :
    (fuel : ℕ) (gnl : List Bytes) (i : ℕ) (found bs : List ServerBracket)
    → step1_loop fuel gnl i found ≡ good bs
    → Continues gnl i found bs
unfolding step1_loop
step1_loop-IsLaidOut zero gnl i found bs h = absurd (cc h)
step1_loop-IsLaidOut (suc fuel) gnl i found bs h =
    at_index gnl fuel (step1_loop-IsLaidOut fuel gnl) i found bs (get_elem? gnl i) refl h

-- The server blocks that Step1 gives stand one behind the other: each has a line "server" in front
-- of it, begins with a line "{" and ends with a later line "}".
pub step1-IsLaidOut :
    (gnl : List Bytes) (bs : List ServerBracket) → step1 gnl ≡ good bs → IsLaidOut gnl 0 bs
unfolding step1
step1-IsLaidOut gnl bs h =
    let (rest, e, l) = step1_loop-IsLaidOut (suc (length gnl)) gnl 0 [] bs h in
    subst (IsLaidOut gnl 0) (sym e) l

server_found-ne-stuck : (o : Option Bool) (p : Option (ℕ × ℕ)) → server_found o p ≢ stuck
server_found-ne-stuck none p h = cc h
server_found-ne-stuck (some false) p h = cc h
server_found-ne-stuck (some true) none h = cc h
server_found-ne-stuck (some true) (some (i, j)) h = cc h

pub get_elem?-bound :
    (gnl : List Bytes) (i : ℕ) {line : Bytes} → get_elem? gnl i ≡ some line → i < length gnl
get_elem?-bound [] i h = absurd (cc h)
get_elem?-bound (x ∷ gnl) zero h = omega arith
get_elem?-bound (x ∷ gnl) (suc i) h = omega (arith, get_elem?-bound gnl i h)

module _ (gnl : List Bytes) (fuel : ℕ)
    (IH : (i : ℕ) (found : List ServerBracket)
      → length gnl - i < fuel
      → step1_loop fuel gnl i found ≢ stuck) where
  block_goes_on :
      (i : ℕ) (found : List ServerBracket) (r : Parsed ServerBracket)
      → i < length gnl
      → length gnl - i < suc fuel
      → server_block_at gnl i ≡ r
      → (r >>= λ b. step1_loop fuel gnl (suc b.m_end) (found ++ (b ∷ []))) ≢ stuck
  unfolding server_block_at
  block_goes_on i found (good b) k n f h =
      let (p, pair, none_yet) = block-IsPair gnl i b f in
      IH (suc b.m_end) (found ++ (b ∷ [])) (omega arith) h
  block_goes_on i found refused k n f h = cc h
  block_goes_on i found undefined k n f h = cc h
  block_goes_on i found stuck k n f h =
      server_found-ne-stuck (check_bracket_syntax gnl (suc i) (length gnl))
        (set_server_bracket gnl (suc i)) f

  round_goes_on :
      (i : ℕ) (found : List ServerBracket) (o : Option Bytes)
      → get_elem? gnl i ≡ o
      → length gnl - i < suc fuel
      → step1_loop (suc fuel) gnl i found ≢ stuck
  unfolding step1_loop
  round_goes_on i found none e n = rw (e, step1_loop) (λ h. cc h)
  round_goes_on i found (some line) e n =
      let k : i < length gnl = get_elem?-bound gnl i e in
      elim (Bool-cases (equal line (codes "server"))) [
        | inl f ↦ rw (e, f, step1_loop) (block_goes_on i found (server_block_at gnl i) k n refl)
        | inr f ↦ rw (e, f, step1_loop) (IH (suc i) found (omega arith))
      ]

step1_loop-ne-stuck :
    (fuel : ℕ) (gnl : List Bytes) (i : ℕ) (found : List ServerBracket)
    → length gnl - i < fuel
    → step1_loop fuel gnl i found ≢ stuck
step1_loop-ne-stuck zero gnl i found n = absurd (omega arith)
step1_loop-ne-stuck (suc fuel) gnl i found n =
    round_goes_on gnl fuel (step1_loop-ne-stuck fuel gnl) i found (get_elem? gnl i) refl n

-- Step1 ends on all lines.
pub step1-ne-stuck : (gnl : List Bytes) → step1 gnl ≢ stuck
unfolding step1
step1-ne-stuck gnl = step1_loop-ne-stuck (suc (length gnl)) gnl 0 [] (omega arith)
