-- ===== src/Tests/Parsing.antt =====
-- The configuration file: Config/Index, Config/Directives and Config/Files.
use ok.Base.{List, [], ◌∷◌, false, ◌≡◌, ◌≢◌, refl, All}
use ok.Text.{Bytes, codes}
use ok.FilePath.{of_string}
use ok.Config.{ConfigFile, default_config_file}
use ok.Config.Parsed.{good, undefined, stuck}
use ok.Config.Index.{LocationBracket, ServerBracket, step1, step2}
use ok.Config.Index.Blocks.{IsLaidOut, step1-IsLaidOut}
use ok.Config.Index.Locations.{AreFurnished, step2-AreFurnished}
use ok.Config.Directives.{parsing_server_block, parsing_location_block}
use ok.Config.Directives.Gathered.{
  own_lines, all_values, after, is_method, is_program, is_extension,
  parsing_server_block-all_values,
}
use ok.Config.{Listener}
use ok.Config.Build.{listener_of, block_of, location_of}
use ok.Config.Build.Filled.{IsFilled}
use ok.Config.Build.Distinct.{AreDistinct}
use ok.Config.Create.{create_servers, create_servers-AreReady}
use ok.Config.Files.{set_configs}
use ok.Config.Files.Ends.{set_configs-ne-stuck}
use ok.Config.Files.Grouped.{IsGrouped, set_configs-IsGrouped}

abbrev tabbed : Bytes → Bytes
tabbed line = 9 ∷ line

abbrev sample : List Bytes
sample =
    codes "server"
    ∷ codes "{"
    ∷ tabbed (codes "port 8080")
    ∷ tabbed (codes "method GET")
    ∷ tabbed (codes "location /a")
    ∷ tabbed (codes "{")
    ∷ tabbed (tabbed (codes "method PUT POST"))
    ∷ tabbed (codes "}")
    ∷ codes "}"
    ∷ []

abbrev sample_block : ServerBracket
sample_block = record { location_brackets = []; m_start = 1; m_end = 8 }

sample_brackets : step1 sample ≡ good (sample_block ∷ [])
unfolding step1
sample_brackets = refl

step1-IsLaidOut_example : IsLaidOut sample 0 (sample_block ∷ [])
step1-IsLaidOut_example = step1-IsLaidOut sample (sample_block ∷ []) sample_brackets

abbrev sample_location : LocationBracket
sample_location = record { m_start = 5; m_end = 7; location_path = of_string (codes "/a") }

abbrev sample_furnished : ServerBracket
sample_furnished = record sample_block { location_brackets = sample_location ∷ [] }

abbrev outdented : List Bytes
outdented =
    codes "server"
    ∷ codes "{"
    ∷ codes "port 8080"
    ∷ codes "method GET"
    ∷ codes "location /a"
    ∷ codes "{"
    ∷ codes "method PUT POST"
    ∷ codes "}"
    ∷ codes "}"
    ∷ []

sample_with_locations : step2 sample (sample_block ∷ []) ≡ good (outdented, sample_furnished ∷ [])
unfolding step2 of_string
sample_with_locations = refl

step2-AreFurnished_example : AreFurnished (sample_block ∷ []) (sample_furnished ∷ [])
step2-AreFurnished_example =
    step2-AreFurnished sample (sample_block ∷ []) (outdented, sample_furnished ∷ [])
      sample_with_locations

abbrev sample_own : ConfigFile
sample_own = record default_config_file { port = 8080; method = codes "GET" ∷ [] }

abbrev sample_config : ConfigFile
sample_config = record sample_own {
  location_path = of_string (codes "/a");
  method = codes "PUT" ∷ codes "POST" ∷ [];
}

sample_settings : set_configs sample ≡ (sample_own ∷ sample_config ∷ [], good tt)
unfolding set_configs of_string
sample_settings = refl

set_configs-IsGrouped_example :
    (bs : List ServerBracket) × (r : List Bytes × List ServerBracket) × (step1 sample ≡ good bs)
    × (step2 sample bs ≡ good r)
    × IsGrouped r.1 (sample_own ∷ sample_config ∷ [])
set_configs-IsGrouped_example =
    set_configs-IsGrouped sample (sample_own ∷ sample_config ∷ []) sample_settings

set_configs-ne-stuck_example : (set_configs sample).1 ≢ stuck
set_configs-ne-stuck_example = set_configs-ne-stuck sample

abbrev two_method_lines : List Bytes
two_method_lines = codes "method GET" ∷ codes "method PUT POST" ∷ []

abbrev three_methods : ConfigFile
three_methods = record default_config_file {
  method = codes "GET" ∷ codes "PUT" ∷ codes "POST" ∷ [];
}

two_method_lines_parsed :
    parsing_server_block two_method_lines default_config_file 0 1 [] ≡ good three_methods
unfolding parsing_server_block default_config_file
two_method_lines_parsed = refl

parsing_server_block-all_values_example :
    let lines = own_lines 2 0 two_method_lines [] in
    (three_methods.method ≡ after false default_config_file.method (all_values is_method lines))
    × (three_methods.cgi_program_path
        ≡ after false default_config_file.cgi_program_path (all_values is_program lines))
    × (three_methods.cgi_extension
        ≡ after false default_config_file.cgi_extension (all_values is_extension lines))
parsing_server_block-all_values_example =
    parsing_server_block-all_values two_method_lines default_config_file 0 1 [] three_methods
      two_method_lines_parsed

abbrev bad_lines : List Bytes
bad_lines = codes "root /a /b" ∷ []

-- A blank line in a location has no first word to read.
blank_line_runs : parsing_location_block ([] ∷ []) default_config_file 0 0 ≡ undefined
unfolding parsing_location_block
blank_line_runs = refl

abbrev sample_servers : List Listener
sample_servers =
    record (listener_of sample_own) {
      server_blocks =
          record (block_of sample_config) {
            location_paths = location_of sample_config ∷ location_of sample_own ∷ [];
          }
          ∷ [];
    }
    ∷ []

sample_listeners : create_servers sample ≡ good sample_servers
unfolding create_servers listener_of block_of location_of default_config_file of_string
sample_listeners = refl

create_servers-AreReady_example : All IsFilled sample_servers × AreDistinct sample_servers
create_servers-AreReady_example = create_servers-AreReady sample sample_servers sample_listeners
