-- ===== src/Config/Directives.antt =====
-- The directives of the configuration file: isCorrespondedServerDirective, parsingserverBlock and
-- parsingLocationBlock of srcs/ServerConfigIdx/ServerConfigIdx.cpp.
pub mod Inherited
pub mod Gathered
pub mod Refused
use ok.Base.{
  ℕ, zero, suc, ◌-◌, ◌%◌, ◌^◌, List, [], ◌∷◌, ◌++◌, map, Bool, true, false, ◌&&◌, not, leb,
  if◌then◌else◌, drop, any,
}
use ok.Base.Int.{ℤ, pos, negsuc}
use ok.Text.{Bytes, codes, equal}
use ok.FilePath.{FilePath, of_string}
use ok.Utils.Split.{split_vector}
use ok.Utils.Number.{atoi}
use ok.Config.{ConfigFile}
use ok.Config.Parsed.{Parsed, good, refused, undefined, ◌>>=◌}
use ok.Config.Index.{LocationBracket}

pub data Directive : Type 0 where
  server_name root port host client_max_body_size index_pages error_page autoindex : Directive
  timeout method cgi_program_path cgi_extension auth_basic_user_file other : Directive

-- The comparisons that both functions make with the first word of a line.
unfoldable pub shared_directive : Bytes → Directive
unfolding equal
shared_directive word =
    if equal word (codes "server_name")
    then server_name
    else if equal word (codes "root")
    then root
    else if equal word (codes "port")
    then port
    else if equal word (codes "client_max_body_size")
    then client_max_body_size
    else if equal word (codes "index_pages")
    then index_pages
    else if equal word (codes "error_page")
    then error_page
    else if equal word (codes "autoindex")
    then autoindex
    else if equal word (codes "method")
    then method
    else if equal word (codes "cgi_program_path")
    then cgi_program_path
    else if equal word (codes "auth_basic_user_file")
    then auth_basic_user_file
    else other

-- Three more are read in a server block only. The words are different, so that their order does not
-- matter.
unfoldable pub server_directive : Bytes → Directive
unfolding equal shared_directive
server_directive word =
    if equal word (codes "host")
    then host
    else if equal word (codes "timeout")
    then timeout
    else if equal word (codes "cgi_extension")
    then cgi_extension
    else shared_directive word

-- The settings that are filled in, and the flags of the lists that have been replaced.
pub record Draft : Type 0 where
  pub config : ConfigFile
  pub exist_index_pages : Bool
  pub exist_cgi_program_path : Bool
  pub exist_cgi_extension : Bool
  pub exist_method : Bool

unfoldable pub new_draft : ConfigFile → Draft
new_draft config = record {
  config = config;
  exist_index_pages = false;
  exist_cgi_program_path = false;
  exist_cgi_extension = false;
  exist_method = false;
}

-- An `int` put into an unsigned field of `w` bits.
unfoldable pub unsigned : ℕ → ℤ → ℕ
unsigned w (pos n) = n % 2 ^ w
unsigned w (negsuc n) = 2 ^ w - 1 - n % 2 ^ w

-- A directive that takes one value.
abbrev one_value : (Bytes → ConfigFile → ConfigFile) → List Bytes → Draft → Parsed Draft
one_value f [] d = refused
one_value f (v ∷ []) d = good (record d { config = f v d.config })
one_value f (v ∷ w ∷ ws) d = refused

-- `bool value` is set by "on" and "off" only.
abbrev switch : List Bytes → Draft → Parsed Draft
switch [] d = refused
switch (v ∷ w ∷ ws) d = refused
switch (v ∷ []) d =
    if equal v (codes "on")
    then good (record d { config = record (d.config) { auto_index = true } })
    else if equal v (codes "off")
    then good (record d { config = record (d.config) { auto_index = false } })
    else undefined

-- The values of the first line replace the list, those of the later ones are added to it.
abbrev pub gathered {ℓ} : {A : Type ℓ} → Bool → List A → List A → List A
gathered exist old values = if exist then old ++ values else values

unfoldable pub put_methods : List Bytes → Draft → Draft
put_methods ws d = record d {
  config = record (d.config) { method = gathered d.exist_method (d.config).method ws };
  exist_method = true;
}

unfoldable pub put_programs : List Bytes → Draft → Draft
put_programs ws d = record d {
  config = record (d.config) {
    cgi_program_path = gathered d.exist_cgi_program_path (d.config).cgi_program_path ws;
  };
  exist_cgi_program_path = true;
}

unfoldable pub put_extensions : List Bytes → Draft → Draft
put_extensions ws d = record d {
  config = record (d.config) {
    cgi_extension = gathered d.exist_cgi_extension (d.config).cgi_extension ws;
  };
  exist_cgi_extension = true;
}

unfoldable pub put_index_pages : List Bytes → Draft → Draft
unfolding of_string
put_index_pages ws d = record d {
  config = record (d.config) {
    index_pages = gathered d.exist_index_pages (d.config).index_pages (map of_string ws);
  };
  exist_index_pages = true;
}

-- A directive that takes one value or more.
abbrev values : (List Bytes → Draft → Draft) → List Bytes → Draft → Parsed Draft
values f [] d = refused
values f (v ∷ ws) d = good (f (v ∷ ws) d)

-- What is done with the words behind a directive.
unfoldable pub apply_directive : Directive → List Bytes → Draft → Parsed Draft
unfolding equal of_string atoi unsigned put_methods put_programs put_extensions put_index_pages
apply_directive server_name = one_value (λ v c. record c { server_name = v })
apply_directive root = one_value (λ v c. record c { root = of_string v })
apply_directive port = one_value (λ v c. record c { port = unsigned 16 (atoi v) })
apply_directive host = one_value (λ v c. record c { host = v })
apply_directive client_max_body_size =
    one_value (λ v c. record c { client_max_body_size = unsigned 64 (atoi v) })
apply_directive index_pages = λ ws d. good (put_index_pages ws d)
apply_directive error_page = one_value (λ v c. record c { error_page = of_string v })
apply_directive autoindex = switch
apply_directive timeout = one_value (λ v c. record c { time_out = atoi v })
apply_directive method = values put_methods
apply_directive cgi_program_path = values put_programs
apply_directive cgi_extension = values put_extensions
apply_directive auth_basic_user_file =
    one_value (λ v c. record c { auth_basic_user_file = of_string v })
apply_directive other = λ ws d. good d

abbrev pub words_of : Bytes → List Bytes
words_of line = split_vector [] line (b' ' ∷ [])

-- A line of a server block: with less than two words it is passed over.
unfoldable pub server_line : List Bytes → Draft → Parsed Draft
unfolding server_directive apply_directive
server_line [] d = good d
server_line (word ∷ []) d = good d
server_line (word ∷ v ∷ ws) d = apply_directive (server_directive word) (v ∷ ws) d

-- A line of a location block: `splitVector[0]` is read of an empty line too.
unfoldable pub location_line : List Bytes → Draft → Parsed Draft
unfolding shared_directive apply_directive
location_line [] d = undefined
location_line (word ∷ ws) d = apply_directive (shared_directive word) ws d

-- Is the line outside of all locations?
unfoldable pub is_corresponded_server_directive : ℕ → List LocationBracket → Bool
is_corresponded_server_directive index brackets =
    not (any (λ l. leb l.m_start index && leb index l.m_end) brackets)

unfoldable pub server_block_loop : ℕ → ℕ → List Bytes → List LocationBracket → Draft → Parsed Draft
unfolding is_corresponded_server_directive server_line split_vector
server_block_loop zero i lines brackets d = good d
server_block_loop (suc n) i [] brackets d = undefined
server_block_loop (suc n) i (line ∷ lines) brackets d =
    (if is_corresponded_server_directive i brackets then server_line (words_of line) d else good d)
    >>= server_block_loop n (suc i) lines brackets

unfoldable pub parsing_server_block :
    List Bytes → ConfigFile → ℕ → ℕ → List LocationBracket → Parsed ConfigFile
unfolding server_block_loop new_draft
parsing_server_block gnl default_location start end brackets =
    server_block_loop (suc end - start) start (drop start gnl) brackets (new_draft default_location)
    >>= λ d. good d.config

unfoldable pub location_block_loop : ℕ → List Bytes → Draft → Parsed Draft
unfolding location_line split_vector
location_block_loop zero lines d = good d
location_block_loop (suc n) [] d = undefined
location_block_loop (suc n) (line ∷ lines) d =
    location_line (words_of line) d >>= location_block_loop n lines

unfoldable pub parsing_location_block : List Bytes → ConfigFile → ℕ → ℕ → Parsed ConfigFile
unfolding location_block_loop new_draft
parsing_location_block gnl default_location start end =
    location_block_loop (suc end - start) (drop start gnl) (new_draft default_location) >>= λ d.
    good d.config
