-- ===== src/Server/Receive/Block.antt =====
-- What is stored from a block of header lines.
use ok.Base.{
  ℕ, zero, suc, ◌+◌, ◌<◌, List, [], ◌∷◌, ◌++◌, append_assoc, none, ◌≡◌, ◌≢◌, refl, sym, ap, subst,
  ◌∙◌, arith, drop, length, length-append, All,
}
use ok.Text.{Bytes, codes, crlf, find}
use ok.Text.Find.{find-ne-none, starts_with_blank}
use ok.Result.{Result, done, thrown, failed, Act, and_then}
use ok.Request.{Request, set_seek, add_header, store_header, note_transfer}
use ok.Server.Receive.{header_loop, header_round}
use ok.Server.Receive.Headers.{header_loop-at}
use ok.Server.Receive.Decode.{line_at, find-crlf-nil}

-- The header lines of a block, each of which holds a ": ", up to the empty line.
unfoldable pub block : List Bytes → Bytes → Bytes
block [] rest = 13 ∷ 10 ∷ rest
block (line ∷ lines) rest = line ++ 13 ∷ 10 ∷ block lines rest

-- Storing the lines one after the other.
unfoldable pub store_lines : List Bytes → Request → Request
store_lines [] r = r
store_lines (line ∷ lines) r = store_lines lines (add_header line r).0

pub record IsLine (line : Bytes) : Type 0 where
  pub no_crlf : find crlf line ≡ none
  pub has_colon : find (codes ": ") line ≢ none
  pub not_empty : 0 < length line

pub add_header-done :
    (line : Bytes) (r : Request)
    → find (codes ": ") line ≢ none
    → (n : ℕ)
    → ((add_header line r).1 ≡ done tt)
      × ((add_header line r).0.http_message ≡ r.http_message)
      × (set_seek n (add_header line r).0 ≡ (add_header line (set_seek n r)).0)
unfolding add_header store_header note_transfer
add_header-done line r h n = ground arith

header_round-line :
    (next : Act Request (Unit {0})) (i : ℕ) (line : Bytes) (r : Request)
    → IsLine line
    → header_round next i line r ≡ next (set_seek (i + 2) (add_header line r).0)
header_round-line next i [] r h = absurd (omega (arith, h.not_empty))
header_round-line next i (c ∷ line) r h =
    unfold header_round in
    go (add_header (c ∷ line) r) (add_header-done (c ∷ line) r h.has_colon 0).0
  where
    go :
        (x : Request × Result (Unit {0}))
        → x.1 ≡ done tt
        → and_then x (λ _ s. next (set_seek (i + 2) s)) ≡ next (set_seek (i + 2) x.0)
    go (s, done tt) e = refl
    go (s, thrown n) e = cc
    go (s, failed y) e = cc

store_lines-set_seek :
    (lines : List Bytes) (r : Request) (n : ℕ)
    → All IsLine lines
    → set_seek n (store_lines lines r) ≡ store_lines lines (set_seek n r)
unfolding store_lines
store_lines-set_seek [] r n h = refl
store_lines-set_seek (line ∷ lines) r n h =
    store_lines-set_seek lines (add_header line r).0 n h.1
    ∙ ap (store_lines lines) (add_header-done line r h.0.has_colon n).2

header_loop-rest :
    (fuel : ℕ) (r t : Request) (line : Bytes) (lines : List Bytes) (m : ℕ)
    → t ≡ (add_header line r).0
    → header_loop fuel (set_seek m t)
      ≡ (set_seek (m + length (block lines [])) (store_lines lines (set_seek m t)), done tt)
    → All IsLine lines
    → header_loop fuel (set_seek m (add_header line r).0)
      ≡ (set_seek (m + length (block lines [])) (store_lines lines (add_header line r).0), done tt)
header_loop-rest fuel r t line lines m e h hs =
    ap (λ x. header_loop fuel (set_seek m x)) (sym e)
    ∙ h
    ∙ ap (λ x. (set_seek (m + length (block lines [])) x, done tt))
        (sym (store_lines-set_seek lines t m hs))
    ∙ ap (λ x. (set_seek (m + length (block lines [])) (store_lines lines x), done tt)) e

-- A block of header lines, each of which holds a ": " and no CRLF, is stored line by line, and
-- parseHeader goes behind the empty line that ends the block.
pub header_loop-block :
    (fuel : ℕ) (r : Request) (lines : List Bytes) (rest : Bytes)
    → length lines < fuel
    → All IsLine lines
    → drop r.seek r.http_message ≡ block lines rest
    → header_loop fuel r
      ≡ (set_seek (r.seek + length (block lines [])) (store_lines lines r), done tt)
unfolding block store_lines
header_loop-block zero r lines rest b h e = absurd (omega arith)
header_loop-block (suc fuel) r [] rest b h e =
    let a = line_at r.http_message r.seek [] rest e find-crlf-nil in
    header_loop-at fuel r _ a.found
    ∙ ap (λ w. header_round (header_loop fuel) (r.seek + 0) w r) a.sliced
    ∙ unfold header_round in ap (λ (k : ℕ). (set_seek k r, done tt)) (omega arith)
header_loop-block (suc fuel) r (line ∷ lines) rest b h e =
    let a = line_at r.http_message r.seek line _ e h.0.no_crlf in
    let m = r.seek + length line + 2 in
    let t = (add_header line r).0 in
    let kept = (add_header-done line r h.0.has_colon 0).1 in
    header_loop-at fuel r _ a.found
    ∙ ap (λ w. header_round (header_loop fuel) (r.seek + length line) w r) a.sliced
    ∙ header_round-line (header_loop fuel) (r.seek + length line) line r h.0
    ∙ header_loop-rest fuel r t line lines m refl
        (header_loop-block fuel (set_seek m t) lines rest (omega arith) h.1
          (ap (drop m) kept ∙ a.behind))
        h.1
    ∙ ap (λ (k : ℕ). (set_seek k (store_lines lines t), done tt))
        (omega (arith, length-append line (13 ∷ 10 ∷ block lines [])))

pub block-append : (lines : List Bytes) (rest : Bytes) → block lines rest ≡ block lines [] ++ rest
unfolding block
block-append [] rest = refl
block-append (line ∷ lines) rest =
    ap (λ t. line ++ (13 ∷ 10 ∷ t)) (block-append lines rest)
    ∙ sym (append_assoc line (13 ∷ 10 ∷ block lines []) rest)

pub length-block : (lines : List Bytes) (rest : Bytes) → length lines < length (block lines rest)
unfolding block
length-block [] rest = omega arith
length-block (line ∷ lines) rest =
    omega (arith, length-block lines rest, length-append line (13 ∷ 10 ∷ block lines rest))

-- The empty line stands behind the CRLF of the last line.
pub block_end :
    (line : Bytes) (lines : List Bytes) (rest : Bytes)
    → (a : Bytes) × (block (line ∷ lines) rest ≡ a ++ (13 ∷ 10 ∷ 13 ∷ 10 ∷ rest))
unfolding block
block_end line [] rest = (line, refl)
block_end line (next ∷ lines) rest =
    let (a, e) = block_end next lines rest in
    (
      line ++ (13 ∷ 10 ∷ a),
      ap (λ t. line ++ (13 ∷ 10 ∷ t)) e
          ∙ sym (append_assoc line (13 ∷ 10 ∷ a) (13 ∷ 10 ∷ 13 ∷ 10 ∷ rest)),
    )

pub store_lines-message :
    (lines : List Bytes) (r : Request)
    → All IsLine lines
    → (store_lines lines r).http_message ≡ r.http_message
unfolding store_lines
store_lines-message [] r h = refl
store_lines-message (line ∷ lines) r h =
    store_lines-message lines (add_header line r).0 h.1 ∙ (add_header-done line r h.0.has_colon 0).1

pub block-ne-none :
    (line : Bytes) (lines : List Bytes) (rest : Bytes)
    → find (codes "\r\n\r\n") (block (line ∷ lines) rest) ≢ none
block-ne-none line lines rest =
    let (a, e) = block_end line lines rest in
    subst (λ t. find (codes "\r\n\r\n") t ≢ none) (sym e)
      (find-ne-none (codes "\r\n\r\n") a (13 ∷ 10 ∷ 13 ∷ 10 ∷ rest) (starts_with_blank rest))
