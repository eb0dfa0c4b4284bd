-- ===== src/Config/Files.antt =====
-- From the lines of the configuration file to the settings: ConfigFiles::SetConfigs of
-- srcs/ConfigFile/ConfigFiles.cpp.
pub mod Grouped
pub mod Ends
use ok.Base.{suc, ◌-◌, List, [], ◌∷◌, ◌++◌}
use ok.Text.{Bytes}
use ok.Config.{ConfigFile, default_config_file}
use ok.Config.Parsed.{Parsed, good, refused, undefined, stuck}
use ok.Config.Index.{LocationBracket, ServerBracket, step1, step2}
use ok.Config.Directives.{parsing_server_block, parsing_location_block}

-- The settings as they are left (mConfigs), and the result. The constructor does not look at the
-- result, so that the settings in front of an error are used.
abbrev pub Outcome : Type 0
Outcome = List ConfigFile × Parsed (Unit {0})

abbrev pub and_then {ℓ} : {A : Type ℓ} → List ConfigFile → Parsed A → (A → Outcome) → Outcome
and_then configs (good a) f = f a
and_then configs refused f = (configs, refused)
and_then configs undefined f = (configs, undefined)
and_then configs stuck f = (configs, stuck)

abbrev pub goes_on : Outcome → (List ConfigFile → Outcome) → Outcome
goes_on (configs, good a) f = f configs
goes_on (configs, refused) f = (configs, refused)
goes_on (configs, undefined) f = (configs, undefined)
goes_on (configs, stuck) f = (configs, stuck)

-- The inner loop: the locations of a server, which start from its default location.
unfoldable pub location_configs :
    List Bytes → ConfigFile → List LocationBracket → List ConfigFile → Outcome
unfolding parsing_location_block
location_configs gnl default_location [] configs = (configs, good tt)
location_configs gnl default_location (l ∷ ls) configs =
    let temp = record default_location { location_path = l.location_path } in
    and_then configs (parsing_location_block gnl temp (suc l.m_start) (l.m_end - 1))
      λ parsed. location_configs gnl default_location ls (configs ++ (parsed ∷ []))

-- One round of the outer loop.
unfoldable pub server_configs : List Bytes → ServerBracket → List ConfigFile → Outcome
unfolding parsing_server_block location_configs default_config_file
server_configs gnl b configs =
    and_then configs
      (parsing_server_block gnl default_config_file (suc b.m_start) (b.m_end - 1)
        b.location_brackets)
      λ default_location.
        location_configs gnl default_location b.location_brackets
          (configs ++ (default_location ∷ []))

unfoldable pub all_configs : List Bytes → List ServerBracket → List ConfigFile → Outcome
unfolding server_configs
all_configs gnl [] configs = (configs, good tt)
all_configs gnl (b ∷ bs) configs =
    goes_on (server_configs gnl b configs) (λ more. all_configs gnl bs more)

unfoldable pub set_configs : List Bytes → Outcome
unfolding step1 step2 all_configs
set_configs gnl =
    and_then [] (step1 gnl) λ bs. and_then [] (step2 gnl bs) λ r. all_configs r.0 r.1 []
