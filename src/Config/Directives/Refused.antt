-- ===== src/Config/Directives/Refused.antt =====
-- Which lines make the configuration's blocks be refused.
use ok.Base.{ℕ, suc, List, [], ◌∷◌, Bool, true, false, not, ◌≡◌, ltb, ◌==◌, length}
use ok.Text.{Bytes}
use ok.Config.Parsed.{Parsed, good, refused, undefined, stuck}
use ok.Config.Directives.{
  Directive, index_pages, method, cgi_program_path, cgi_extension, other, server_directive,
  shared_directive,
}

-- How many values a directive takes: any number, at least one, or one.
abbrev pub takes : Directive → ℕ → Bool
takes index_pages n = true
takes other n = true
takes method n = ltb 0 n
takes cgi_program_path n = ltb 0 n
takes cgi_extension n = ltb 0 n
takes _ n = n == 1

-- A line of less than two words counts for nothing in a server block.
abbrev pub is_malformed : List Bytes → Bool
is_malformed [] = false
is_malformed (w ∷ []) = false
is_malformed (w ∷ v ∷ ws) = not (takes (server_directive w) (suc (length ws)))

abbrev pub is_malformed_in_location : List Bytes → Bool
is_malformed_in_location [] = false
is_malformed_in_location (w ∷ ws) = not (takes (shared_directive w) (length ws))

-- A result that agrees with the answer whether there is such a line: none where it is accepted, and
-- one where it is refused.
abbrev pub Tells {ℓ} : {A : Type ℓ} → Parsed A → Bool → Type 0
Tells (good a) b = b ≡ false
Tells refused b = b ≡ true
Tells undefined b = Unit
Tells stuck b = Unit
