-- ===== src/Config/Files/Grouped.antt =====
-- The settings that SetConfigs gives for a file that it accepts.
use ok.Base.{
  suc, ◌-◌, List, [], ◌∷◌, ◌++◌, append-nil, append_assoc, ◌≡◌, refl, sym, ap, subst, ◌∙◌, arith,
}
use ok.Text.{Bytes}
use ok.FilePath.{empty_path}
use ok.Config.{ConfigFile, default_config_file}
use ok.Config.Parsed.{Parsed, good, refused, undefined, stuck}
use ok.Config.Index.{LocationBracket, ServerBracket, step1, step2}
use ok.Config.Directives.{parsing_server_block, parsing_location_block}
use ok.Config.Directives.Inherited.{parsing_location_block-IsInherited, parsing_server_block-path}
use ok.Config.Files.{
  Outcome, and_then, goes_on, location_configs, server_configs, all_configs, set_configs,
}

-- One setting for each location, with its path, and with what the server's own setting says of the
-- host, the timeout and the extensions of programs.
abbrev pub AreLocations : ConfigFile → List LocationBracket → List ConfigFile → Type 0
AreLocations own [] [] = Unit
AreLocations own (l ∷ ls) (c ∷ cs) =
    (c.location_path ≡ l.location_path)
    × (c.host ≡ own.host)
    × (c.time_out ≡ own.time_out)
    × (c.cgi_extension ≡ own.cgi_extension)
    × AreLocations own ls cs
AreLocations own _ _ = ⊥

-- The settings of the blocks in their order: of each its own setting, which has no location path,
-- and then those of its locations.
abbrev pub IsGrouped : List ServerBracket → List ConfigFile → Type 0
IsGrouped [] configs = configs ≡ []
IsGrouped (b ∷ bs) configs =
    (own : ConfigFile) × (locations rest : List ConfigFile) × (configs ≡ own ∷ (locations ++ rest))
    × (own.location_path ≡ empty_path)
    × AreLocations own b.location_brackets locations
    × IsGrouped bs rest

and_then-good {ℓ} :
    {A : Type ℓ} (configs : List ConfigFile) (m : Parsed A) (f : A → Outcome)
    (out : List ConfigFile)
    → and_then configs m f ≡ (out, good tt)
    → (a : A) × (m ≡ good a) × (f a ≡ (out, good tt))
and_then-good configs (good a) f out h = (a, refl, h)
and_then-good configs refused f out h = absurd (cc h)
and_then-good configs undefined f out h = absurd (cc h)
and_then-good configs stuck f out h = absurd (cc h)

goes_on-good :
    (o : Outcome) (f : List ConfigFile → Outcome) (out : List ConfigFile)
    → goes_on o f ≡ (out, good tt)
    → (more : List ConfigFile) × (o ≡ (more, good tt)) × (f more ≡ (out, good tt))
goes_on-good (configs, good tt) f out h = (configs, refl, h)
goes_on-good (configs, refused) f out h = absurd (cc h)
goes_on-good (configs, undefined) f out h = absurd (cc h)
goes_on-good (configs, stuck) f out h = absurd (cc h)

location_configs-AreLocations :
    (gnl : List Bytes) (own : ConfigFile) (ls : List LocationBracket)
    (configs out : List ConfigFile)
    → location_configs gnl own ls configs ≡ (out, good tt)
    → (cs : List ConfigFile) × (out ≡ configs ++ cs) × AreLocations own ls cs
unfolding location_configs
location_configs-AreLocations gnl own [] configs out h =
    ([], ground (arith, append-nil configs), tt)
location_configs-AreLocations gnl own (l ∷ ls) configs out h =
    let temp = record own { location_path = l.location_path } in
    let (c, e, f) =
      and_then-good configs (parsing_location_block gnl temp (suc l.m_start) (l.m_end - 1))
        (λ c. location_configs gnl own ls (configs ++ (c ∷ []))) out h in
    let (cs, g, k) = location_configs-AreLocations gnl own ls (configs ++ (c ∷ [])) out f in
    let (p, q, r, s) =
      parsing_location_block-IsInherited gnl temp (suc l.m_start) (l.m_end - 1) c e in
    (c ∷ cs, g ∙ append_assoc configs (c ∷ []) cs, (s, p, q, r, k))

all_configs-IsGrouped :
    (gnl : List Bytes) (bs : List ServerBracket) (configs out : List ConfigFile)
    → all_configs gnl bs configs ≡ (out, good tt)
    → (cs : List ConfigFile) × (out ≡ configs ++ cs) × IsGrouped bs cs
unfolding all_configs server_configs default_config_file
all_configs-IsGrouped gnl [] configs out h = ([], ground (arith, append-nil configs), refl)
all_configs-IsGrouped gnl (b ∷ bs) configs out h =
    let (more, e, f) = goes_on-good (server_configs gnl b configs) (all_configs gnl bs) out h in
    let (own, g, k) =
      and_then-good configs
        (parsing_server_block gnl default_config_file (suc b.m_start) (b.m_end - 1)
          b.location_brackets)
        (λ c. location_configs gnl c b.location_brackets (configs ++ (c ∷ []))) more e in
    let (locations, p, q) =
      location_configs-AreLocations gnl own b.location_brackets (configs ++ (own ∷ [])) more k in
    let (rest, r, s) = all_configs-IsGrouped gnl bs more out f in
    let path =
      parsing_server_block-path gnl default_config_file (suc b.m_start) (b.m_end - 1)
        b.location_brackets own g in
    (
      own ∷ (locations ++ rest),
      r
          ∙ ap (λ c. c ++ rest) (p ∙ append_assoc configs (own ∷ []) locations)
          ∙ append_assoc configs (own ∷ locations) rest,
      (own, locations, rest, refl, path, q, s),
    )

-- The settings of an accepted file stand in the order of its server blocks: for each block first its
-- own setting, with an empty location path, and then one setting for each of its locations, which
-- has the location's path, and the host, the timeout and the extensions of its block.
pub set_configs-IsGrouped :
    (gnl : List Bytes) (configs : List ConfigFile)
    → set_configs gnl ≡ (configs, good tt)
    → (bs : List ServerBracket) × (r : List Bytes × List ServerBracket) × (step1 gnl ≡ good bs)
      × (step2 gnl bs ≡ good r)
      × IsGrouped r.1 configs
unfolding set_configs
set_configs-IsGrouped gnl configs h =
    let (bs, e, f) =
      and_then-good [] (step1 gnl) (λ bs. and_then [] (step2 gnl bs) λ r. all_configs r.0 r.1 [])
        configs h in
    let (r, g, k) = and_then-good [] (step2 gnl bs) (λ r. all_configs r.0 r.1 []) configs f in
    let (cs, p, q) = all_configs-IsGrouped r.0 r.1 [] configs k in
    (bs, r, e, g, subst (IsGrouped r.1) (sym p) q)
