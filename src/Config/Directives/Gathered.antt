-- ===== src/Config/Directives/Gathered.antt =====
-- What a server block's directives with several values give, over all its lines.
use ok.Base.{
  ℕ, zero, suc, ◌-◌, List, [], ◌∷◌, ◌++◌, append_assoc, Bool, true, false, ◌||◌, Option, none, some,
  ◌≡◌, refl, ap, ◌∙◌, arith, if◌then◌else◌, drop,
}
use ok.Text.{Bytes}
use ok.Config.{ConfigFile}
use ok.Config.Parsed.{good, bind-good}
use ok.Config.Index.{LocationBracket}
use ok.Config.Directives.{
  Directive, method, cgi_program_path, cgi_extension, Draft, new_draft, gathered, apply_directive,
  words_of, server_directive, server_line, is_corresponded_server_directive, server_block_loop,
  parsing_server_block,
}

abbrev pub is_method : Directive → Bool
is_method method = true
is_method _ = false

abbrev pub is_program : Directive → Bool
is_program cgi_program_path = true
is_program _ = false

abbrev pub is_extension : Directive → Bool
is_extension cgi_extension = true
is_extension _ = false

-- The lines of a block that stand outside of its locations, as words.
unfoldable pub own_lines : ℕ → ℕ → List Bytes → List LocationBracket → List (List Bytes)
unfolding is_corresponded_server_directive
own_lines zero i lines brackets = []
own_lines (suc n) i [] brackets = []
own_lines (suc n) i (line ∷ lines) brackets =
    if is_corresponded_server_directive i brackets
    then words_of line ∷ own_lines n (suc i) lines brackets
    else own_lines n (suc i) lines brackets

-- The values of all lines whose directive passes the test, in their order; `none` if there is no
-- such line.
abbrev joined : Bool → List Bytes → Option (List Bytes) → Option (List Bytes)
joined false ws o = o
joined true ws none = some ws
joined true ws (some us) = some (ws ++ us)

abbrev pub all_values : (Directive → Bool) → List (List Bytes) → Option (List Bytes)
all_values p [] = none
all_values p ([] ∷ lines) = all_values p lines
all_values p ((w ∷ []) ∷ lines) = all_values p lines
all_values p ((w ∷ v ∷ ws) ∷ lines) = joined (p (server_directive w)) (v ∷ ws) (all_values p lines)

-- The list after such lines: without one it stays, and the first line replaces what is not flagged.
abbrev pub after : Bool → List Bytes → Option (List Bytes) → List Bytes
after exist old none = old
after exist old (some vs) = gathered exist old vs

after-joined :
    (b exist : Bool) (old ws : List Bytes) (o : Option (List Bytes))
    → after (b || exist) (if b then gathered exist old ws else old) o
      ≡ after exist old (joined b ws o)
after-joined false exist old ws o = refl
after-joined true true old ws none = refl
after-joined true true old ws (some us) = append_assoc old ws us
after-joined true false old ws none = refl
after-joined true false old ws (some us) = refl

module _ (p : Directive → Bool) (field : Draft → List Bytes) (flag : Draft → Bool)
    (law : (d : Directive) (ws : List Bytes) (s t : Draft)
      → apply_directive d ws s ≡ good t
      → (field t ≡ (if p d then gathered (flag s) (field s) ws else field s))
        × (flag t ≡ (p d || flag s))) where
  line-after :
      (ws : List Bytes) (lines : List (List Bytes)) (s t : Draft)
      → server_line ws s ≡ good t
      → after (flag t) (field t) (all_values p lines)
        ≡ after (flag s) (field s) (all_values p (ws ∷ lines))
  unfolding server_line
  line-after [] lines s t h = let e : s ≡ t = cc h in rw e refl
  line-after (w ∷ []) lines s t h = let e : s ≡ t = cc h in rw e refl
  line-after (w ∷ v ∷ ws) lines s t h =
      let (e, f) = law (server_directive w) (v ∷ ws) s t h in
      rw (e, f)
        (after-joined (p (server_directive w)) (flag s) (field s) (v ∷ ws) (all_values p lines))

  server_block_loop-after :
      (n i : ℕ) (lines : List Bytes) (brackets : List LocationBracket) (s t : Draft)
      → server_block_loop n i lines brackets s ≡ good t
      → field t ≡ after (flag s) (field s) (all_values p (own_lines n i lines brackets))
  unfolding server_block_loop own_lines
  server_block_loop-after zero i lines brackets s t h = let e : s ≡ t = cc h in rw e refl
  server_block_loop-after (suc n) i [] brackets s t h = absurd (cc h)
  server_block_loop-after (suc n) i (line ∷ lines) brackets s t h =
      go (is_corresponded_server_directive i brackets) refl
        (server_block_loop-after n (suc i) lines brackets)
    where
      go :
          (v : Bool)
          → is_corresponded_server_directive i brackets ≡ v
          → ((s t : Draft)
              → server_block_loop n (suc i) lines brackets s ≡ good t
              → field t
                ≡ after (flag s) (field s) (all_values p (own_lines n (suc i) lines brackets)))
          → field t
            ≡ after (flag s) (field s) (all_values p (own_lines (suc n) i (line ∷ lines) brackets))
      go true e IH =
          let (u, f, g) =
            bind-good (server_line (words_of line) s) (server_block_loop n (suc i) lines brackets) t
              (rw (e, server_block_loop) at h) in
          rw (e, own_lines)
            (IH u t g ∙ line-after (words_of line) (own_lines n (suc i) lines brackets) s u f)
      go false e IH = rw (e, own_lines) (IH s t (rw (e, server_block_loop) at h))

method_law :
    (d : Directive) (ws : List Bytes) (s t : Draft)
    → apply_directive d ws s ≡ good t
    → ((t.config).method
        ≡ (if is_method d then gathered s.exist_method (s.config).method ws else (s.config).method))
      × (t.exist_method ≡ (is_method d || s.exist_method))
unfolding apply_directive
method_law d [] s t h = ground arith
method_law d (v ∷ []) s t h = ground arith
method_law d (v ∷ w ∷ ws) s t h = ground arith

program_law :
    (d : Directive) (ws : List Bytes) (s t : Draft)
    → apply_directive d ws s ≡ good t
    → ((t.config).cgi_program_path ≡ (
        if is_program d
        then gathered s.exist_cgi_program_path (s.config).cgi_program_path ws
        else (s.config).cgi_program_path))
      × (t.exist_cgi_program_path ≡ (is_program d || s.exist_cgi_program_path))
unfolding apply_directive
program_law d [] s t h = ground arith
program_law d (v ∷ []) s t h = ground arith
program_law d (v ∷ w ∷ ws) s t h = ground arith

extension_law :
    (d : Directive) (ws : List Bytes) (s t : Draft)
    → apply_directive d ws s ≡ good t
    → ((t.config).cgi_extension ≡ (
        if is_extension d
        then gathered s.exist_cgi_extension (s.config).cgi_extension ws
        else (s.config).cgi_extension))
      × (t.exist_cgi_extension ≡ (is_extension d || s.exist_cgi_extension))
unfolding apply_directive
extension_law d [] s t h = ground arith
extension_law d (v ∷ []) s t h = ground arith
extension_law d (v ∷ w ∷ ws) s t h = ground arith

-- After a server block has been read, its methods, the paths of its programs and their extensions
-- are the values of all its lines for them outside of the locations, in the order of the lines, or
-- what was there before if there is no such line.
pub parsing_server_block-all_values :
    (gnl : List Bytes) (default_location : ConfigFile) (start end : ℕ)
    (brackets : List LocationBracket) (c : ConfigFile)
    → parsing_server_block gnl default_location start end brackets ≡ good c
    → let lines = own_lines (suc end - start) start (drop start gnl) brackets in
      (c.method ≡ after false default_location.method (all_values is_method lines))
      × (c.cgi_program_path
          ≡ after false default_location.cgi_program_path (all_values is_program lines))
      × (c.cgi_extension
          ≡ after false default_location.cgi_extension (all_values is_extension lines))
unfolding parsing_server_block new_draft
parsing_server_block-all_values gnl default_location start end brackets c h =
    let n = suc end - start in
    let lines = drop start gnl in
    let s = new_draft default_location in
    let (t, e, f) =
      bind-good (server_block_loop n start lines brackets s) (λ d. good d.config) c h in
    let g : c ≡ t.config = ground arith in
    (
      ap (λ d. d.method) g
          ∙ server_block_loop-after is_method (λ d. (d.config).method) (λ d. d.exist_method)
              method_law n start lines brackets s t e,
      ap (λ d. d.cgi_program_path) g
          ∙ server_block_loop-after is_program (λ d. (d.config).cgi_program_path)
              (λ d. d.exist_cgi_program_path) program_law n start lines brackets s t e,
      ap (λ d. d.cgi_extension) g
          ∙ server_block_loop-after is_extension (λ d. (d.config).cgi_extension)
              (λ d. d.exist_cgi_extension) extension_law n start lines brackets s t e,
    )
