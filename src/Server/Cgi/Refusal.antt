-- ===== src/Server/Cgi/Refusal.antt =====
-- A program that answers with a status other than 200.
use ok.Base.{List, ◌∷◌, ◌++◌, map, true, false, none, ◌≡◌}
use ok.Text.{Bytes, codes, equal, find}
use ok.Text.{crlf, lower}
use ok.Result.{Result}
use ok.Request.{Request}
use ok.Response.{Response}
use ok.Server.Site.{Site}
use ok.Server.Cgi.{status_code, is_200}
use ok.Server.Cgi.Lines.{lines_before}

-- A line whose key is that of the status, in any case, and whose value is not 200.
pub record IsRefusal (key value : Bytes) : Type 0 where
  pub no_crlf : find crlf (key ++ (b':' ∷ b' ' ∷ value)) ≡ none
  pub no_colon : find (codes ": ") key ≡ none
  pub is_status : equal (map lower key) (codes "status") ≡ true
  pub not_200 : is_200 (status_code value) ≡ false

unfoldable pub refusal : List (Bytes × Bytes) → Bytes → Bytes → Bytes → Bytes
unfolding lines_before
refusal hs key value rest = lines_before hs ((key ++ (b':' ∷ b' ' ∷ value)) ++ (13 ∷ 10 ∷ rest))
