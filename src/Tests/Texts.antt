-- ===== src/Tests/Texts.antt =====
-- Texts, numbers, paths and the parts of a request: Utils, Path and Request.
use mathlib.Core.List.{cons-ne-nil}
use ok.Base.{◌≤◌, ◌<◌, [], ◌∷◌, none, some, ◌≡◌, refl, arith}
use ok.Base.Int.{negsuc}
use ok.Text.{codes, find, lower}
use ok.Text.Find.{Lacks}
use ok.Dict.{lookup}
use ok.Result.{done, thrown}
use ok.Request.{add_header, parse_uri, parse_version, classify, new_request}
use ok.Request.{host_value}
use ok.FilePath.{of_string, get_path}
use ok.FilePath.RoundTrip.{of_string-get_path}
use ok.Utils.Net.{ft_inet_addr, inet_ntos, ft_inet_addr-inet_ntos}
use ok.Utils.Split.{split_vector, words, split_vector-words}
use ok.Utils.Replace.{
  replace_all_modified, double_slash, slash, collapse, replace_all_modified-collapse,
}
use ok.Utils.Number.{itos, atoi}
use ok.Utils.Number.RoundTrip.{atoi-itos}
use ok.Request.Uri.{located, with_parameter, with_query, parse_uri-parts, parse_uri_refuses}
use ok.Request.Parts.{add_header-lookup, parse_version_range}

split_vector-words_example :
    split_vector [] (codes "usr//bin/") (b'/' ∷ []) ≡ codes "usr" ∷ codes "bin" ∷ []
unfolding words
split_vector-words_example = split_vector-words b'/' (codes "usr//bin/") (omega arith)

replace_all_modified-collapse_example :
    (replace_all_modified (codes "a///b//") double_slash slash ≡ codes "a/b/")
    × (find double_slash (replace_all_modified (codes "a///b//") double_slash slash) ≡ none)
unfolding collapse
replace_all_modified-collapse_example = replace_all_modified-collapse (codes "a///b//")

atoi-itos_example : atoi (itos (negsuc 41)) ≡ negsuc 41
atoi-itos_example = atoi-itos (negsuc 41) (omega arith, omega arith)

of_string-get_path_example :
    of_string (get_path (record { segments = codes "a" ∷ codes "b" ∷ [] }))
    ≡ record { segments = codes "a" ∷ codes "b" ∷ [] }
unfolding get_path
of_string-get_path_example =
    of_string-get_path (record { segments = codes "a" ∷ codes "b" ∷ [] })
      ((cons-ne-nil _ _, (omega arith, tt)), ((cons-ne-nil _ _, (omega arith, tt)), tt))
      (omega arith)

parse_uri-parts_example : parse_uri (codes "/x/y.php;p?q=1") new_request ≡ (
  classify (
      located (codes "/x") (codes "y.php") (
        with_parameter
          (some (codes "p"))
          (with_query (some (codes "q=1")) (record new_request { uri = codes "/x/y.php;p?q=1" })))),
  done tt,
)
parse_uri-parts_example =
    parse_uri-parts new_request (codes "/x") (codes "y.php") (some (codes "p")) (some (codes "q=1"))
      (omega arith, (omega arith, (omega arith, (omega arith, (omega arith, tt)))))
      (omega arith, tt) (omega arith, (omega arith, (omega arith, tt))) (omega arith)

parse_uri_refuses_example :
    (200 < 6 → (parse_uri (codes "abc?/x") new_request).1 ≡ thrown 414)
    × (6 ≤ 200 → Lacks b'/' (codes "abc") → (parse_uri (codes "abc?/x") new_request).1 ≡ thrown 400)
parse_uri_refuses_example =
    parse_uri_refuses new_request (codes "abc") none (some (codes "/x"))
      (omega arith, (omega arith, (omega arith, tt))) (omega arith, (omega arith, tt))

add_header-lookup_example :
    let (r, result) = add_header (codes "Host: a.b:80") new_request in
    (result ≡ done tt) × (lookup (codes "host") r.headers ≡ some (codes "a.b"))
unfolding lookup new_request lower host_value find
add_header-lookup_example =
    add_header-lookup new_request (codes "Host") (codes "a.b:80") (codes "host") refl

parse_version_range_example : (parse_version (codes "HTTP/1.1") new_request).1 ≡ done tt
parse_version_range_example = parse_version_range new_request 1 1 (omega arith) (omega arith)

ft_inet_addr-inet_ntos_example : ft_inet_addr (inet_ntos 16777343) ≡ 16777343
ft_inet_addr-inet_ntos_example = ft_inet_addr-inet_ntos 16777343 (omega arith)
