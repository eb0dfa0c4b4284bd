-- ===== src/Config/Index/Ends.antt =====
-- Step2 ends: every round goes to a later line.
use ok.Base.{
  ℕ, zero, suc, ◌-◌, ◌≤◌, ◌<◌, List, [], ◌∷◌, ◌++◌, Bool, true, false, Option, none, some, ◌≡◌, ◌≢◌,
  inl, inr, refl, arith, ltb, get_elem?, Bool-cases, ltb-false→le,
}
use ok.Text.{Bytes, codes, find}
use ok.Utils.Split.{split_vector}
use ok.Config.Parsed.{Parsed, good, refused, undefined, stuck, ◌>>=◌, bind-ne-stuck}
use ok.Config.Brackets.{check_bracket_syntax}
use ok.Config.Index.{
  LocationBracket, ServerBracket, set_location_bracket, location_found, location_block_at,
  step2_loop, outdent_block, step2_block, step2,
}
use ok.Config.Index.Spans.{location_span}

location_found-ne-stuck :
    (ws : List Bytes) (o : Option Bool) (p : List Bytes × Option (ℕ × ℕ))
    → location_found ws o p ≢ stuck
location_found-ne-stuck [] o p h = cc h
location_found-ne-stuck (w ∷ []) o p h = cc h
location_found-ne-stuck (w ∷ v ∷ u ∷ ws) o p h = cc h
location_found-ne-stuck (w ∷ v ∷ []) none p h = cc h
location_found-ne-stuck (w ∷ v ∷ []) (some false) p h = cc h
location_found-ne-stuck (w ∷ v ∷ []) (some true) (gnl, none) h = cc h
location_found-ne-stuck (w ∷ v ∷ []) (some true) (gnl, some (i, j)) h = cc h

module _ (fuel end : ℕ)
    (IH : (gnl : List Bytes) (start : ℕ) (found : List LocationBracket)
      → suc end - start < fuel
      → step2_loop fuel gnl start end found ≢ stuck) where
  location_goes_on :
      (gnl : List Bytes) (start at : ℕ) (found : List LocationBracket) (line : Bytes)
      (l : Parsed (List Bytes × LocationBracket))
      → get_elem? gnl start ≡ some line
      → find (codes "location ") line ≡ some at
      → start ≤ end
      → suc end - start < suc fuel
      → location_block_at gnl line start end ≡ l
      → (l >>= λ r. step2_loop fuel r.0 (suc (r.1).m_end) end (found ++ (r.1 ∷ []))) ≢ stuck
  unfolding location_block_at
  location_goes_on gnl start at found line (good l) g h o n e f =
      let (p, q, s) = location_span gnl line start end at l g h o e in
      IH l.0 (suc (l.1).m_end) (found ++ (l.1 ∷ [])) (omega arith) f
  location_goes_on gnl start at found line refused g h o n e f = cc f
  location_goes_on gnl start at found line undefined g h o n e f = cc f
  location_goes_on gnl start at found line stuck g h o n e f =
      location_found-ne-stuck (split_vector [] line (b' ' ∷ []))
        (check_bracket_syntax gnl (suc start) end) (set_location_bracket gnl start end) e

  line_goes_on :
      (gnl : List Bytes) (start : ℕ) (found : List LocationBracket) (line : Bytes) (o : Option ℕ)
      → get_elem? gnl start ≡ some line
      → ltb end start ≡ false
      → suc end - start < suc fuel
      → find (codes "location ") line ≡ o
      → step2_loop (suc fuel) gnl start end found ≢ stuck
  unfolding step2_loop
  line_goes_on gnl start found line none g t n h =
      let o = ltb-false→le end start t in
      rw (t, g, h, step2_loop) (IH gnl (suc start) found (omega arith))
  line_goes_on gnl start found line (some at) g t n h =
      rw (t, g, h, step2_loop)
        (location_goes_on gnl start at found line (location_block_at gnl line start end) g h
          (ltb-false→le end start t) n refl)

  round_goes_on :
      (gnl : List Bytes) (start : ℕ) (found : List LocationBracket) (o : Option Bytes)
      → get_elem? gnl start ≡ o
      → ltb end start ≡ false
      → suc end - start < suc fuel
      → step2_loop (suc fuel) gnl start end found ≢ stuck
  unfolding step2_loop
  round_goes_on gnl start found none g t n = rw (t, g, step2_loop) (λ h. cc h)
  round_goes_on gnl start found (some line) g t n =
      line_goes_on gnl start found line (find (codes "location ") line) g t n refl

step2_loop-ne-stuck :
    (fuel : ℕ) (gnl : List Bytes) (start end : ℕ) (found : List LocationBracket)
    → suc end - start < fuel
    → step2_loop fuel gnl start end found ≢ stuck
unfolding step2_loop
step2_loop-ne-stuck zero gnl start end found n = absurd (omega arith)
step2_loop-ne-stuck (suc fuel) gnl start end found n = elim (Bool-cases (ltb end start)) [
  | inl t ↦ rw (t, step2_loop) (λ h. cc h)
  | inr t ↦
      round_goes_on fuel end (λ gnl start found. step2_loop-ne-stuck fuel gnl start end found) gnl
        start found (get_elem? gnl start) refl t n
]

-- Step2 ends, whatever lines and blocks it is given.
pub step2-ne-stuck : (gnl : List Bytes) (bs : List ServerBracket) → step2 gnl bs ≢ stuck
unfolding step2 step2_block
step2-ne-stuck gnl [] = λ h. cc h
step2-ne-stuck gnl (b ∷ bs) =
    let start = suc b.m_start in
    let end = b.m_end - 1 in
    bind-ne-stuck (step2_block gnl b) (λ q. step2 q.0 bs >>= λ rest. good (rest.0, q.1 ∷ rest.1))
      (bind-ne-stuck (step2_loop (suc (suc end)) (outdent_block gnl start end) start end [])
        (λ q. good (q.0, record b { location_brackets = q.1 }))
        (step2_loop-ne-stuck (suc (suc end)) (outdent_block gnl start end) start end []
          (omega arith))
        (λ q h. cc h))
      (λ q.
        bind-ne-stuck (step2 q.0 bs) (λ rest. good (rest.0, q.1 ∷ rest.1)) (step2-ne-stuck q.0 bs)
          (λ rest h. cc h))
