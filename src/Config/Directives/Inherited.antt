-- ===== src/Config/Directives/Inherited.antt =====
-- What a location's settings have from its server block.
use ok.Base.{
  ℕ, zero, suc, ◌-◌, List, [], ◌∷◌, Bool, true, false, ◌≡◌, refl, sym, ap, subst, ◌∙◌, arith,
  if◌then◌else◌, drop,
}
use ok.Text.{Bytes}
use ok.Config.{ConfigFile}
use ok.Config.Parsed.{good, bind-good}
use ok.Config.Directives.{
  Directive, server_name, root, port, host, client_max_body_size, index_pages, error_page,
  autoindex, timeout, method, cgi_program_path, cgi_extension, auth_basic_user_file, other,
  shared_directive, Draft, new_draft, one_value, apply_directive, location_line, words_of,
  location_block_loop, parsing_location_block, server_directive, server_line,
  is_corresponded_server_directive, server_block_loop, parsing_server_block,
}
use ok.Config.Index.{LocationBracket}

-- The settings that no directive of a location changes.
abbrev pub IsInherited : ConfigFile → ConfigFile → Type 0
IsInherited c d =
    (d.host ≡ c.host)
    × (d.time_out ≡ c.time_out)
    × (d.cgi_extension ≡ c.cgi_extension)
    × (d.location_path ≡ c.location_path)

abbrev IsShared : Directive → Type 0
IsShared host = ⊥
IsShared timeout = ⊥
IsShared cgi_extension = ⊥
IsShared _ = Unit

shared_directive-IsShared : (word : Bytes) → IsShared (shared_directive word)
unfolding shared_directive
shared_directive-IsShared word = ground arith

one_value-IsInherited :
    (f : Bytes → ConfigFile → ConfigFile) (ws : List Bytes) (s t : Draft)
    → ((v : Bytes) → IsInherited s.config (f v s.config))
    → one_value f ws s ≡ good t
    → IsInherited s.config t.config
one_value-IsInherited f [] s t k h = absurd (cc h)
one_value-IsInherited f (v ∷ w ∷ ws) s t k h = absurd (cc h)
one_value-IsInherited f (v ∷ []) s t k h =
    let e : f v s.config ≡ t.config = ground arith in subst (IsInherited s.config) e (k v)

apply_directive-IsInherited :
    (d : Directive) (ws : List Bytes) (s t : Draft)
    → IsShared d
    → apply_directive d ws s ≡ good t
    → IsInherited s.config t.config
unfolding apply_directive
apply_directive-IsInherited host ws s t k h = absurd k
apply_directive-IsInherited timeout ws s t k h = absurd k
apply_directive-IsInherited cgi_extension ws s t k h = absurd k
apply_directive-IsInherited server_name ws s t k h =
    one_value-IsInherited _ ws s t (λ v. (refl, refl, refl, refl)) h
apply_directive-IsInherited root ws s t k h =
    one_value-IsInherited _ ws s t (λ v. (refl, refl, refl, refl)) h
apply_directive-IsInherited port ws s t k h =
    one_value-IsInherited _ ws s t (λ v. (refl, refl, refl, refl)) h
apply_directive-IsInherited client_max_body_size ws s t k h =
    one_value-IsInherited _ ws s t (λ v. (refl, refl, refl, refl)) h
apply_directive-IsInherited error_page ws s t k h =
    one_value-IsInherited _ ws s t (λ v. (refl, refl, refl, refl)) h
apply_directive-IsInherited auth_basic_user_file ws s t k h =
    one_value-IsInherited _ ws s t (λ v. (refl, refl, refl, refl)) h
apply_directive-IsInherited index_pages ws s t k h = ground arith
apply_directive-IsInherited method [] s t k h = absurd (cc h)
apply_directive-IsInherited method (v ∷ ws) s t k h = ground arith
apply_directive-IsInherited cgi_program_path [] s t k h = absurd (cc h)
apply_directive-IsInherited cgi_program_path (v ∷ ws) s t k h = ground arith
apply_directive-IsInherited autoindex [] s t k h = absurd (cc h)
apply_directive-IsInherited autoindex (v ∷ w ∷ ws) s t k h = absurd (cc h)
apply_directive-IsInherited autoindex (v ∷ []) s t k h = ground arith
apply_directive-IsInherited other ws s t k h = ground arith

location_line-IsInherited :
    (ws : List Bytes) (s t : Draft) → location_line ws s ≡ good t → IsInherited s.config t.config
unfolding location_line
location_line-IsInherited [] s t h = absurd (cc h)
location_line-IsInherited (w ∷ ws) s t h =
    apply_directive-IsInherited (shared_directive w) ws s t (shared_directive-IsShared w) h

IsInherited-trans : (c d e : ConfigFile) → IsInherited c d → IsInherited d e → IsInherited c e
IsInherited-trans c d e (p, q, r, s) (p', q', r', s') = (p' ∙ p, q' ∙ q, r' ∙ r, s' ∙ s)

location_block_loop-IsInherited :
    (n : ℕ) (lines : List Bytes) (s t : Draft)
    → location_block_loop n lines s ≡ good t
    → IsInherited s.config t.config
unfolding location_block_loop
location_block_loop-IsInherited zero lines s t h = ground arith
location_block_loop-IsInherited (suc n) [] s t h = absurd (cc h)
location_block_loop-IsInherited (suc n) (line ∷ lines) s t h =
    let (u, e, f) = bind-good (location_line (words_of line) s) (location_block_loop n lines) t h in
    IsInherited-trans s.config u.config t.config (location_line-IsInherited (words_of line) s u e)
      (location_block_loop-IsInherited n lines u t f)

-- Reading a location block changes neither the host, the timeout, the extensions of programs nor the
-- path that it was started with.
pub parsing_location_block-IsInherited :
    (gnl : List Bytes) (default_location : ConfigFile) (start end : ℕ) (c : ConfigFile)
    → parsing_location_block gnl default_location start end ≡ good c
    → IsInherited default_location c
unfolding parsing_location_block new_draft
parsing_location_block-IsInherited gnl default_location start end c h =
    let lines = drop start gnl in
    let (t, e, f) =
      bind-good (location_block_loop (suc end - start) lines (new_draft default_location))
        (λ d. good d.config) c h in
    let g : t.config ≡ c = ground arith in
    subst (IsInherited default_location) g
      (location_block_loop-IsInherited (suc end - start) lines (new_draft default_location) t e)

one_value-path :
    (f : Bytes → ConfigFile → ConfigFile) (ws : List Bytes) (s t : Draft)
    → ((v : Bytes) → (f v s.config).location_path ≡ (s.config).location_path)
    → one_value f ws s ≡ good t
    → (t.config).location_path ≡ (s.config).location_path
one_value-path f [] s t k h = absurd (cc h)
one_value-path f (v ∷ w ∷ ws) s t k h = absurd (cc h)
one_value-path f (v ∷ []) s t k h =
    let e : f v s.config ≡ t.config = ground arith in ap (λ c. c.location_path) (sym e) ∙ k v

apply_directive-path :
    (d : Directive) (ws : List Bytes) (s t : Draft)
    → apply_directive d ws s ≡ good t
    → (t.config).location_path ≡ (s.config).location_path
unfolding apply_directive
apply_directive-path host ws s t h = one_value-path _ ws s t (λ v. refl) h
apply_directive-path timeout ws s t h = one_value-path _ ws s t (λ v. refl) h
apply_directive-path cgi_extension [] s t h = absurd (cc h)
apply_directive-path cgi_extension (v ∷ ws) s t h = ground arith
apply_directive-path d ws s t h = (apply_directive-IsInherited d ws s t tt h).3

server_line-path :
    (ws : List Bytes) (s t : Draft)
    → server_line ws s ≡ good t
    → (t.config).location_path ≡ (s.config).location_path
unfolding server_line
server_line-path [] s t h = ground arith
server_line-path (w ∷ []) s t h = ground arith
server_line-path (w ∷ v ∷ ws) s t h = apply_directive-path (server_directive w) (v ∷ ws) s t h

server_block_loop-path :
    (n i : ℕ) (lines : List Bytes) (brackets : List LocationBracket) (s t : Draft)
    → server_block_loop n i lines brackets s ≡ good t
    → (t.config).location_path ≡ (s.config).location_path
unfolding server_block_loop
server_block_loop-path zero i lines brackets s t h = ground arith
server_block_loop-path (suc n) i [] brackets s t h = absurd (cc h)
server_block_loop-path (suc n) i (line ∷ lines) brackets s t h =
    let (u, e, f) =
      bind-good
        (if is_corresponded_server_directive i brackets
          then server_line (words_of line) s
          else good s)
        (server_block_loop n (suc i) lines brackets) t h in
    server_block_loop-path n (suc i) lines brackets u t f
    ∙ first (is_corresponded_server_directive i brackets) u e
  where
    first :
        (v : Bool) (u : Draft)
        → (if v then server_line (words_of line) s else good s) ≡ good u
        → (u.config).location_path ≡ (s.config).location_path
    first true u e = server_line-path (words_of line) s u e
    first false u e = ground arith

-- Reading a server block leaves the location path as it was.
pub parsing_server_block-path :
    (gnl : List Bytes) (default_location : ConfigFile) (start end : ℕ)
    (brackets : List LocationBracket) (c : ConfigFile)
    → parsing_server_block gnl default_location start end brackets ≡ good c
    → c.location_path ≡ default_location.location_path
unfolding parsing_server_block new_draft
parsing_server_block-path gnl default_location start end brackets c h =
    let n = suc end - start in
    let lines = drop start gnl in
    let (t, e, f) =
      bind-good (server_block_loop n start lines brackets (new_draft default_location))
        (λ d. good d.config) c h in
    let g : t.config ≡ c = ground arith in
    ap (λ d. d.location_path) (sym g)
    ∙ server_block_loop-path n start lines brackets (new_draft default_location) t e
