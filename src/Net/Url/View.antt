-- ===== src/Net/Url/View.antt =====
-- net/http/http_url.cc: the constructors and the accessors of `HttpUrl`.
use nbsdk.Prelude.{
  ℕ, zero, suc, ◌+◌, Bool, Option, none, some, List, [], Text, ◌==◌, if◌then◌else◌, length, drop,
  ◌>>=◌,
}
use nbsdk.Prelude.Int.{ℤ, pos, negsuc}
use nbsdk.Net.Strings.{text_eq, find, npos, add_size, sub_size, substr, or_npos, index_where}
use nbsdk.Net.Url.{empty_builder, Builder, https, to_string}
use nbsdk.Net.Url.Parse.{accepted, refused, out_of_range, undefined, parse, path_end}

pub record HttpUrl : Type 0 where
  pub url : Text
  pub scheme : Text
  pub port : ℤ
  pub host : Text
  pub fragment : Text
  pub path_segments : List Text
  pub query_names_and_values : List (Text × List Text)

unfoldable pub init : Builder → HttpUrl
init b = record {
  url = to_string b;
  scheme = b.scheme;
  port = b.port;
  host = b.host;
  fragment = b.encoded_fragment;
  path_segments = b.encoded_path_segments;
  query_names_and_values = b.encoded_query_names_and_values;
}

-- The test of `Build` only logs.
unfoldable pub build : Builder → HttpUrl
build b = init b

-- `HttpUrl(std::string url)`. The result of `Parse` is not looked at; `none`
-- stands for the exception and for undefined behaviour.
unfoldable pub from_text : Text → Option HttpUrl
from_text url = elim (parse empty_builder url) [
  | accepted b ↦ some (init b)
  | refused b ↦ some (init b)
  | out_of_range b ↦ none
  | undefined ↦ none
]

unfoldable pub is_https : HttpUrl → Bool
is_https u = text_eq u.scheme https

unfoldable pub path_size : HttpUrl → ℤ
path_size u = elim (length u.path_segments) [ zero ↦ negsuc 0 | suc n ↦ pos n ]

-- `s.find_first_of(c, position)`
unfoldable pub find_from : Text → ℕ → ℕ → ℕ
find_from s c position =
    or_npos (index_where (λ d. d == c) (drop position s) >>= λ i. some (position + i))

-- `none` stands for `std::out_of_range`, in the two that cut the text.
unfoldable pub encoded_path : HttpUrl → Option Text
encoded_path u =
    let path_start = find_from u.url b'/' (length u.scheme + 3) in
    substr u.url path_start (sub_size (path_end u.url) path_start)

unfoldable pub encoded_query : HttpUrl → Option Text
encoded_query u =
    let query_start = find u.url b'?' in
    let query_end = find u.url b'#' in
    if query_start == npos
    then some []
    else if query_end == npos
    then substr u.url (add_size query_start 1) npos
    else substr u.url (add_size query_start 1) (sub_size query_end (add_size query_start 1))

unfoldable pub query_size : HttpUrl → ℕ
query_size u = length u.query_names_and_values

unfoldable pub query_parameter : HttpUrl → List Text
query_parameter u = []
