-- ===== src/Tests/Settings.antt =====
-- The choice of blocks and locations, and the checks of the settings: Config.
use ok.Base.{List, [], ◌∷◌, ◌++◌, true, none, some, ◌≡◌, ◌↔◌, ◌⊎◌, refl, All}
use ok.Text.{Bytes, codes, equal}
use ok.Config.{LocationPath}
use ok.Config.Select.{select_location_path}
use ok.FilePath.{get_size, of_string}
use ok.Config.{default_config_file, default_location_path}
use ok.Config.Build.{set_servers_value, listener_of}
use ok.Config.Build.{is_overlaped_server, overlaped_loop, same_value}
use ok.Config.Build.Overlaps.{own_values, HasDuplicate, is_overlaped_server_iff}
use ok.FilePath.{get_size}
use ok.Config.Brackets.{check_bracket_syntax, check_loop}
use ok.Config.Brackets.Check.{decide, brackets, check_bracket_syntax-decide}
use ok.Config.Select.{covers, common, Begins, select_location_path-first}

set_servers_value_runs :
    set_servers_value (default_config_file ∷ []) ≡ (listener_of default_config_file ∷ [], true)
unfolding set_servers_value
set_servers_value_runs = refl

abbrev root_location : LocationPath
root_location = default_location_path

abbrev img_location : LocationPath
img_location = record default_location_path {
  location_path = record { segments = codes "img" ∷ [] };
}

img_selected :
    select_location_path (img_location ∷ root_location ∷ []) (codes "/img/a.png")
    ≡ some img_location
unfolding select_location_path covers common of_string get_size equal
img_selected = refl

select_location_path-first_example :
    (before after : List LocationPath) × (img_location ∷ root_location ∷ []
      ≡ before ++ (img_location ∷ after))
    × All (λ l. ¬ Begins l.location_path.segments (of_string (codes "/img/a.png")).segments) before
    × (Begins img_location.location_path.segments (of_string (codes "/img/a.png")).segments
        ⊎ (after ≡ []))
select_location_path-first_example =
    select_location_path-first (img_location ∷ root_location ∷ []) (codes "/img/a.png") img_location
      img_selected

is_overlaped_server_iff_example :
    (is_overlaped_server (default_config_file ∷ default_config_file ∷ []) ≡ true)
    ↔ HasDuplicate (own_values (default_config_file ∷ default_config_file ∷ []))
is_overlaped_server_iff_example =
    is_overlaped_server_iff (default_config_file ∷ default_config_file ∷ [])

-- The second of two equal settings is refused.
overlaped_runs : is_overlaped_server (default_config_file ∷ default_config_file ∷ []) ≡ true
unfolding is_overlaped_server overlaped_loop same_value get_size equal default_config_file
overlaped_runs = refl

-- The call of Step1, whose last line is the one behind the end: a block that is not closed makes it
-- read there.
check_bracket_syntax-decide_example :
    check_bracket_syntax (codes "server" ∷ codes "{" ∷ []) 1 2 ≡ none
unfolding decide brackets equal
check_bracket_syntax-decide_example =
    check_bracket_syntax-decide (codes "server" ∷ codes "{" ∷ []) 1 2

abbrev closed_block : List Bytes
closed_block = codes "server" ∷ codes "{" ∷ codes "}" ∷ []

closed_block_checks : check_bracket_syntax closed_block 1 2 ≡ some true
unfolding check_bracket_syntax check_loop equal
closed_block_checks = refl
