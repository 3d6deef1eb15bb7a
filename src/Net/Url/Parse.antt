-- ===== src/Net/Url/Parse.antt =====
-- net/http/http_url.cc: `HttpUrl::Builder::Parse`, cut where the comments of the source cut it.
use nbsdk.Prelude.{
  ℕ, ◌+◌, ◌||◌, Option, none, some, List, [], ◌∷◌, map, Text, leb, ◌==◌, if◌then◌else◌, ◌>>=◌,
  length,
}
use nbsdk.Prelude.Int.{ℤ}
use nbsdk.Net.Strings.{
  codes, is_empty, text_eq, to_lower, split, find, npos, add_size, sub_size, substr, atoi,
  find_first_not_of, find_last_not_of, erase_front, erase_from,
}
use nbsdk.Net.Url.{
  Builder, empty_builder, http, https, default_port, add_encoded_path_segments,
  add_encoded_query_parameter, add_encoded_fragment,
}

-- How `Parse` ends, and the builder that it leaves: true, false, or `std::out_of_range` of a
-- `substr`. A port that is too large for `int` makes `atoi` undefined.
pub data Parsed : Type 0 where
  accepted refused out_of_range : Builder → Parsed
  undefined : Parsed

abbrev pub or_throw {ℓ} : {A : Type ℓ} → Builder → Option A → (A → Parsed) → Parsed
or_throw b none k = out_of_range b
or_throw b (some a) k = k a

abbrev pub or_undefined {ℓ} : {A : Type ℓ} → Option A → (A → Parsed) → Parsed
or_undefined none k = undefined
or_undefined (some a) k = k a

unfoldable pub trim_front : List ℕ → Text → Text
trim_front [] url = url
trim_front (c ∷ cs) url = trim_front cs (erase_front url (find_first_not_of url c))

unfoldable pub trim_back : List ℕ → Text → Text
trim_back [] url = url
trim_back (c ∷ cs) url = trim_back cs (erase_from url (add_size (find_last_not_of url c) 1))

-- The blanks, in the order in which they are erased.
abbrev pub blanks : List ℕ
blanks = codes " \t\n\u{c}\r"

unfoldable pub trim : Text → Text
trim url = trim_back blanks (trim_front blanks url)

-- The fragment behind the first `#`.
unfoldable pub parse_fragment : Builder → Text → Parsed
parse_fragment b url =
    let start = find url b'#' in
    if start == npos
    then accepted b
    else or_throw b (substr url (add_size start 1) npos) (λ f. accepted (add_encoded_fragment b f))

unfoldable pub add_parameter : Builder → Text → Option Builder
add_parameter b s =
    let p = find s b'=' in
    if p == npos
    then some (add_encoded_query_parameter b s [])
    else (substr s 0 p >>= λ param.
        substr s (add_size p 1) npos >>= λ value. some (add_encoded_query_parameter b param value))

unfoldable pub add_parameters : Builder → List Text → (Builder → Parsed) → Parsed
add_parameters b [] k = k b
add_parameters b (s ∷ parts) k =
    or_throw b (if is_empty s then some b else add_parameter b s) (λ b'. add_parameters b' parts k)

-- What stands between the first `?` and the first `#`.
unfoldable pub query_of : Text → Option Text
query_of url =
    let query_start = find url b'?' in
    let fragment_start = find url b'#' in
    if query_start == npos
    then some []
    else if fragment_start == npos
    then substr url (add_size query_start 1) npos
    else substr url (add_size query_start 1) (sub_size fragment_start (add_size query_start 1))

unfoldable pub parse_query : Builder → Text → Parsed
parse_query b url = or_throw b (query_of url) (λ query.
    if is_empty query
    then parse_fragment b url
    else add_parameters b (split b'&' query) (λ b'. parse_fragment b' url))

-- `pathStart` may be `npos`, and then the path is all of `hostPath`.
unfoldable pub parse_path : Builder → Text → Text → Parsed
parse_path b url host_path =
    or_throw b (substr host_path (add_size (find host_path b'/') 1) npos)
      (λ path. parse_query (if is_empty path then b else add_encoded_path_segments b path) url)

unfoldable pub host_of : Text → Option Text
host_of host_path =
    let path_start = find host_path b'/' in
    if path_start == npos then some host_path else substr host_path 0 path_start

unfoldable pub port_text : Text → ℕ → Option Text
port_text host_path port_start =
    let port_end = find host_path b'/' in
    if port_end == npos
    then substr host_path (add_size port_start 1) npos
    else substr host_path (add_size port_start 1) (sub_size port_end (add_size port_start 1))

-- The port, `none` where `atoi` is undefined.
unfoldable pub port_of : Text → Text → Option ℤ
port_of scheme [] = some (default_port scheme)
port_of scheme (c ∷ s) = atoi (c ∷ s)

unfoldable pub parse_host : Builder → Text → Text → Parsed
parse_host b url host_path =
    let port_start = find host_path b':' in
    let b₁ = record b { port = default_port b.scheme } in
    if port_start == npos
    then or_throw b₁ (host_of host_path)
        (λ host. parse_path (record b₁ { host = host }) url host_path)
    else or_throw b (substr host_path 0 port_start) (λ host.
      let b₂ = record b { host = host } in
      or_throw b₂ (port_text host_path port_start) (λ port_s.
        or_undefined (port_of b.scheme port_s)
          (λ port. parse_path (record b₂ { port = port }) url host_path)))

-- Where host and path end: at the first `?`, or else at the first `#`, or else with the text.
unfoldable pub path_end : Text → ℕ
path_end url =
    let question = find url b'?' in
    let hash = find url b'#' in
    if question == npos then (if hash == npos then length url else hash) else question

unfoldable pub parse_host_path : Builder → Text → Parsed
parse_host_path b url =
    let path_start = length b.scheme + 3 in
    or_throw b (substr url path_start (sub_size (path_end url) path_start))
      (λ host_path. if is_empty host_path then refused b else parse_host b url host_path)

unfoldable pub parse_scheme : Text → Parsed
parse_scheme url = or_throw empty_builder (substr url 0 (find url b':')) (λ text.
    if is_empty text
    then refused empty_builder
    else let scheme = map to_lower text in
      if text_eq scheme http
      then parse_host_path (record empty_builder { scheme = http }) url
      else if text_eq scheme https
      then parse_host_path (record empty_builder { scheme = https }) url
      else refused empty_builder)

-- `Clear` comes behind the first test.
unfoldable pub parse : Builder → Text → Parsed
parse b url = if is_empty url || leb (length url) 7 then refused b else parse_scheme (trim url)
