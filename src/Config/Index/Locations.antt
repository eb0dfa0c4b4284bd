-- ===== src/Config/Index/Locations.antt =====
-- What Step2 finds: the brackets of the locations, inside the block that they belong to.
use ok.Base.{
  ℕ, zero, suc, ◌-◌, ◌≤◌, ◌<◌, List, [], ◌∷◌, ◌++◌, append-nil, append_assoc, false, Option, none,
  some, ◌≡◌, inl, inr, refl, subst, ◌∙◌, arith, ltb, get_elem?, Bool-cases, ltb-false→le,
}
use ok.Text.{Bytes, codes, find}
use ok.Config.Parsed.{Parsed, good, refused, undefined, stuck, ◌>>=◌, bind-good}
use ok.Config.Index.{
  LocationBracket, ServerBracket, location_block_at, step2_loop, outdent_block, step2_block, step2,
}
use ok.Config.Index.Spans.{location_span}

-- Brackets that stand one behind the other from a line on, and end at the last line at most.
abbrev pub ArePlaced : ℕ → ℕ → List LocationBracket → Type 0
ArePlaced end from [] = Unit
ArePlaced end from (l ∷ ls) =
    (from < l.m_start) × (l.m_start < l.m_end) × (l.m_end ≤ end) × ArePlaced end (suc l.m_end) ls

abbrev Placed : ℕ → ℕ → List LocationBracket → List LocationBracket → Type 0
Placed end start found ls =
    (rest : List LocationBracket) × (ls ≡ found ++ rest) × ArePlaced end start rest

earlier :
    (end i j : ℕ) (ls : List LocationBracket) → j ≤ i → ArePlaced end i ls → ArePlaced end j ls
earlier end i j [] h l = tt
earlier end i j (b ∷ bs) h (p, q, r, t) = (omega arith, q, r, t)

module _ (fuel end : ℕ)
    (IH : (gnl : List Bytes) (start : ℕ) (found : List LocationBracket)
        (r : List Bytes × List LocationBracket)
      → step2_loop fuel gnl start end found ≡ good r
      → Placed end start found r.1) where
  after_location :
      (gnl : List Bytes) (start at : ℕ) (found : List LocationBracket) (line : Bytes)
      (r : List Bytes × List LocationBracket) (l : Parsed (List Bytes × LocationBracket))
      → get_elem? gnl start ≡ some line
      → find (codes "location ") line ≡ some at
      → start ≤ end
      → location_block_at gnl line start end ≡ l
      → (l >>= λ r. step2_loop fuel r.0 (suc (r.1).m_end) end (found ++ (r.1 ∷ []))) ≡ good r
      → Placed end start found r.1
  after_location gnl start at found line r (good l) g h o e f =
      let (rest, eq, placed) = IH l.0 (suc (l.1).m_end) (found ++ (l.1 ∷ [])) r f in
      let (p, q, s) = location_span gnl line start end at l g h o e in
      (l.1 ∷ rest, eq ∙ append_assoc found (l.1 ∷ []) rest, (p, q, s, placed))
  after_location gnl start at found line r refused g h o e f = absurd (cc f)
  after_location gnl start at found line r undefined g h o e f = absurd (cc f)
  after_location gnl start at found line r stuck g h o e f = absurd (cc f)

  after_line :
      (gnl : List Bytes) (start : ℕ) (found : List LocationBracket) (line : Bytes)
      (r : List Bytes × List LocationBracket) (o : Option ℕ)
      → get_elem? gnl start ≡ some line
      → ltb end start ≡ false
      → find (codes "location ") line ≡ o
      → step2_loop (suc fuel) gnl start end found ≡ good r
      → Placed end start found r.1
  unfolding step2_loop
  after_line gnl start found line r none g t h e =
      let (rest, eq, placed) = IH gnl (suc start) found r (rw (t, g, h, step2_loop) at e) in
      (rest, eq, earlier end (suc start) start rest (omega arith) placed)
  after_line gnl start found line r (some at) g t h e =
      after_location gnl start at found line r (location_block_at gnl line start end) g h
        (ltb-false→le end start t) refl (rw (t, g, h, step2_loop) at e)

  after_index :
      (gnl : List Bytes) (start : ℕ) (found : List LocationBracket)
      (r : List Bytes × List LocationBracket) (o : Option Bytes)
      → get_elem? gnl start ≡ o
      → ltb end start ≡ false
      → step2_loop (suc fuel) gnl start end found ≡ good r
      → Placed end start found r.1
  unfolding step2_loop
  after_index gnl start found r none g t e = absurd (ground arith)
  after_index gnl start found r (some line) g t e =
      after_line gnl start found line r (find (codes "location ") line) g t refl e

step2_loop-Placed :
    (fuel : ℕ) (gnl : List Bytes) (start end : ℕ) (found : List LocationBracket)
    (r : List Bytes × List LocationBracket)
    → step2_loop fuel gnl start end found ≡ good r
    → Placed end start found r.1
unfolding step2_loop
step2_loop-Placed zero gnl start end found r h = absurd (cc h)
step2_loop-Placed (suc fuel) gnl start end found r h = elim (Bool-cases (ltb end start)) [
  | inl t ↦ ([], ground (arith, append-nil found), tt)
  | inr t ↦
      after_index fuel end (λ gnl start found r. step2_loop-Placed fuel gnl start end found r) gnl
        start found r (get_elem? gnl start) refl t h
]

-- A block as it was, with locations that are placed in it.
abbrev pub IsFurnished : ServerBracket → ServerBracket → Type 0
IsFurnished b c =
    (c.m_start ≡ b.m_start)
    × (c.m_end ≡ b.m_end)
    × ArePlaced (b.m_end - 1) (suc b.m_start) c.location_brackets

abbrev pub AreFurnished : List ServerBracket → List ServerBracket → Type 0
AreFurnished [] [] = Unit
AreFurnished (b ∷ bs) (c ∷ cs) = IsFurnished b c × AreFurnished bs cs
AreFurnished _ _ = ⊥

step2_block-IsFurnished :
    (gnl : List Bytes) (b : ServerBracket) (r : List Bytes × ServerBracket)
    → step2_block gnl b ≡ good r
    → IsFurnished b r.1
unfolding step2_block
step2_block-IsFurnished gnl b r h =
    let start = suc b.m_start in
    let end = b.m_end - 1 in
    let lines = outdent_block gnl start end in
    let (q, e, f) =
      bind-good (step2_loop (suc (suc end)) lines start end [])
        (λ q. good (q.0, record b { location_brackets = q.1 })) r h in
    let (rest, g, placed) = step2_loop-Placed (suc (suc end)) lines start end [] q e in
    let s : (r.1).m_start ≡ b.m_start = ground arith in
    let t : (r.1).m_end ≡ b.m_end = ground arith in
    let u : rest ≡ (r.1).location_brackets = ground arith in
    (s, t, subst (ArePlaced end start) u placed)

-- Step2 leaves the server blocks where they are. The locations that it adds to a block stand one
-- behind the other, each with its end behind its start, and all between the brackets of the block.
pub step2-AreFurnished :
    (gnl : List Bytes) (bs : List ServerBracket) (r : List Bytes × List ServerBracket)
    → step2 gnl bs ≡ good r
    → AreFurnished bs r.1
unfolding step2
step2-AreFurnished gnl [] r h = ground arith
step2-AreFurnished gnl (b ∷ bs) r h =
    let (q, e, f) =
      bind-good (step2_block gnl b) (λ q. step2 q.0 bs >>= λ rest. good (rest.0, q.1 ∷ rest.1)) r
        h in
    let (rest, g, k) = bind-good (step2 q.0 bs) (λ rest. good (rest.0, q.1 ∷ rest.1)) r f in
    let u : q.1 ∷ rest.1 ≡ r.1 = ground arith in
    subst (AreFurnished (b ∷ bs)) u
      (step2_block-IsFurnished gnl b q e, step2-AreFurnished q.0 bs rest g)
