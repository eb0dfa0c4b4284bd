-- ===== src/Config/Files/Ends.antt =====
-- Reading the configuration ends.
use ok.Base.{
  if_holds, ℕ, zero, suc, ◌-◌, List, [], ◌∷◌, ◌++◌, ◌≢◌, refl, arith, if◌then◌else◌, drop,
}
use ok.Text.{Bytes}
use ok.Config.{ConfigFile, default_config_file}
use ok.Config.Parsed.{Parsed, good, refused, undefined, stuck, bind-ne-stuck}
use ok.Config.Index.{LocationBracket, ServerBracket, step1, step2}
use ok.Config.Index.Blocks.{step1-ne-stuck}
use ok.Config.Index.Ends.{step2-ne-stuck}
use ok.Config.Directives.{
  Directive, Draft, new_draft, apply_directive, words_of, server_directive, shared_directive,
  server_line, is_corresponded_server_directive, server_block_loop, parsing_server_block,
  location_line, location_block_loop, parsing_location_block,
}
use ok.Config.Files.{
  Outcome, and_then, goes_on, location_configs, server_configs, all_configs, set_configs,
}

apply_directive-ne-stuck :
    (d : Directive) (ws : List Bytes) (s : Draft) → apply_directive d ws s ≢ stuck
unfolding apply_directive
apply_directive-ne-stuck d [] s = ground arith
apply_directive-ne-stuck d (v ∷ []) s = ground arith
apply_directive-ne-stuck d (v ∷ w ∷ ws) s = ground arith

server_line-ne-stuck : (ws : List Bytes) (s : Draft) → server_line ws s ≢ stuck
unfolding server_line
server_line-ne-stuck [] s = λ h. cc h
server_line-ne-stuck (w ∷ []) s = λ h. cc h
server_line-ne-stuck (w ∷ v ∷ ws) s = apply_directive-ne-stuck (server_directive w) (v ∷ ws) s

location_line-ne-stuck : (ws : List Bytes) (s : Draft) → location_line ws s ≢ stuck
unfolding location_line
location_line-ne-stuck [] s = λ h. cc h
location_line-ne-stuck (w ∷ ws) s = apply_directive-ne-stuck (shared_directive w) ws s

server_block_loop-ne-stuck :
    (n i : ℕ) (lines : List Bytes) (brackets : List LocationBracket) (s : Draft)
    → server_block_loop n i lines brackets s ≢ stuck
unfolding server_block_loop
server_block_loop-ne-stuck zero i lines brackets s = λ h. cc h
server_block_loop-ne-stuck (suc n) i [] brackets s = λ h. cc h
server_block_loop-ne-stuck (suc n) i (line ∷ lines) brackets s =
    bind-ne-stuck
      (if is_corresponded_server_directive i brackets
        then server_line (words_of line) s
        else good s)
      (server_block_loop n (suc i) lines brackets)
      (if_holds (λ (m : Parsed Draft). m ≢ stuck) (is_corresponded_server_directive i brackets)
        (λ _. server_line-ne-stuck (words_of line) s) (λ _ h. cc h))
      (server_block_loop-ne-stuck n (suc i) lines brackets)

location_block_loop-ne-stuck :
    (n : ℕ) (lines : List Bytes) (s : Draft) → location_block_loop n lines s ≢ stuck
unfolding location_block_loop
location_block_loop-ne-stuck zero lines s = λ h. cc h
location_block_loop-ne-stuck (suc n) [] s = λ h. cc h
location_block_loop-ne-stuck (suc n) (line ∷ lines) s =
    bind-ne-stuck (location_line (words_of line) s) (location_block_loop n lines)
      (location_line-ne-stuck (words_of line) s) (location_block_loop-ne-stuck n lines)

abbrev Ends : Outcome → Type 0
Ends o = o.1 ≢ stuck

and_then-Ends {ℓ} :
    {A : Type ℓ} (configs : List ConfigFile) (m : Parsed A) (f : A → Outcome)
    → m ≢ stuck
    → ((a : A) → Ends (f a))
    → Ends (and_then configs m f)
and_then-Ends configs (good a) f h k = k a
and_then-Ends configs refused f h k = λ e. cc e
and_then-Ends configs undefined f h k = λ e. cc e
and_then-Ends configs stuck f h k = absurd (h refl)

goes_on-Ends :
    (o : Outcome) (f : List ConfigFile → Outcome)
    → Ends o
    → ((more : List ConfigFile) → Ends (f more))
    → Ends (goes_on o f)
goes_on-Ends (configs, good a) f h k = k configs
goes_on-Ends (configs, refused) f h k = λ e. cc e
goes_on-Ends (configs, undefined) f h k = λ e. cc e
goes_on-Ends (configs, stuck) f h k = absurd (h refl)

location_configs-Ends :
    (gnl : List Bytes) (own : ConfigFile) (ls : List LocationBracket) (configs : List ConfigFile)
    → Ends (location_configs gnl own ls configs)
unfolding location_configs parsing_location_block
location_configs-Ends gnl own [] configs = λ e. cc e
location_configs-Ends gnl own (l ∷ ls) configs =
    let temp = record own { location_path = l.location_path } in
    and_then-Ends configs (parsing_location_block gnl temp (suc l.m_start) (l.m_end - 1))
      (λ c. location_configs gnl own ls (configs ++ (c ∷ [])))
      (bind-ne-stuck _ (λ d. good d.config)
        (location_block_loop-ne-stuck (suc (l.m_end - 1) - suc l.m_start) (drop (suc l.m_start) gnl)
          (new_draft temp))
        (λ d e. cc e))
      (λ c. location_configs-Ends gnl own ls (configs ++ (c ∷ [])))

all_configs-Ends :
    (gnl : List Bytes) (bs : List ServerBracket) (configs : List ConfigFile)
    → Ends (all_configs gnl bs configs)
unfolding all_configs server_configs parsing_server_block
all_configs-Ends gnl [] configs = λ e. cc e
all_configs-Ends gnl (b ∷ bs) configs =
    goes_on-Ends (server_configs gnl b configs) (all_configs gnl bs)
      (and_then-Ends configs
        (parsing_server_block gnl default_config_file (suc b.m_start) (b.m_end - 1)
          b.location_brackets)
        (λ c. location_configs gnl c b.location_brackets (configs ++ (c ∷ [])))
        (bind-ne-stuck _ (λ d. good d.config)
          (server_block_loop-ne-stuck (suc (b.m_end - 1) - suc b.m_start) (suc b.m_start)
            (drop (suc b.m_start) gnl) b.location_brackets (new_draft default_config_file))
          (λ d e. cc e))
        (λ c. location_configs-Ends gnl c b.location_brackets (configs ++ (c ∷ []))))
      (all_configs-Ends gnl bs)

-- Reading a configuration ends, whatever its lines are: the rounds given to the loops are enough.
pub set_configs-ne-stuck : (gnl : List Bytes) → (set_configs gnl).1 ≢ stuck
unfolding set_configs
set_configs-ne-stuck gnl =
    and_then-Ends [] (step1 gnl) (λ bs. and_then [] (step2 gnl bs) λ r. all_configs r.0 r.1 [])
      (step1-ne-stuck gnl)
      (λ bs.
        and_then-Ends [] (step2 gnl bs) (λ r. all_configs r.0 r.1 []) (step2-ne-stuck gnl bs)
          (λ r. all_configs-Ends r.0 r.1 []))
