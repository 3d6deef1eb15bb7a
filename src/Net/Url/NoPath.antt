-- ===== src/Net/Url/NoPath.antt =====
-- `HttpUrl::Builder::Parse` of a text that ends with the host.
use nbsdk.Prelude.{
  ◌<◌, Bool, [], ◌∷◌, ◌++◌, ◌≡◌, refl, ap, subst, ◌∙◌, Text, arith, length, append_assoc,
  length-append,
}
use nbsdk.Net.Strings.{codes, npos}
use nbsdk.Net.Strings.Search.{IsWithout, IsFree, find_nothing, append-IsFree, substr_behind}
use nbsdk.Net.Url.{Builder, empty_builder, default_port}
use nbsdk.Net.Url.Parse.{parse_query, accepted, parse, parse_host, host_of, parse_path}
use nbsdk.Net.Url.Normal.{IsSegment}
use nbsdk.Net.Url.Segments.{add_segment}
use nbsdk.Net.Url.Front.{scheme_of, parse_front, marks}
use nbsdk.Net.Url.Trip.{parse_query_nothing}
use nbsdk.Net.Url.Free.{scheme_of-IsFree}

-- What is left behind: the host, also as a path segment.
abbrev pub host_twice : Bool → Text → Builder
host_twice secure host = record {
  scheme = scheme_of secure;
  host = host;
  port = default_port (scheme_of secure);
  encoded_path_segments = host ∷ [];
  encoded_query_names_and_values = [];
  encoded_fragment = [];
}

parse_host_only :
    (secure : Bool) (host url : Text)
    → IsSegment host
    → IsWithout b':' host
    → IsWithout b'/' host
    → IsFree marks url
    → length host < npos
    → parse_host (record empty_builder { scheme = scheme_of secure }) url host
      ≡ accepted (host_twice secure host)
unfolding parse_host host_of parse_path
parse_host_only secure host url good colons slashes free short =
    let b = record (host_twice secure host) { encoded_path_segments = [] } in
    let all = substr_behind host [] host 0 refl refl short in
    rw (find_nothing b':' host colons, find_nothing b'/' host slashes, all, good.0)
      (ap (λ c. parse_query c url) (add_segment b host good slashes)
        ∙ parse_query_nothing (host_twice secure host) url free.0 free.1.0)

-- A text of only a scheme and a host gives a builder with the scheme's port whose one path segment is
-- the host. The host can be a path segment, holds no `:`, `/`, `?`, `#` or blank, and the text is longer
-- than 7 and shorter than npos.
pub parse_no_path :
    (b : Builder) (secure : Bool) (host : Text)
    → IsSegment host
    → IsWithout b':' host
    → IsWithout b'/' host
    → IsFree marks host
    → 7 < length (scheme_of secure ++ (codes "://" ++ host))
    → length (scheme_of secure ++ (codes "://" ++ host)) < npos
    → parse b (scheme_of secure ++ (codes "://" ++ host)) ≡ accepted (host_twice secure host)
parse_no_path b secure host good colons slashes free many short =
    let url = scheme_of secure ++ (codes "://" ++ host) in
    let url_free : IsFree marks url =
      subst (IsFree marks) (append_assoc (scheme_of secure) (codes "://") host) (
        append-IsFree marks (scheme_of secure ++ codes "://") host (scheme_of-IsFree secure)
          free) in
    let sum = length-append (scheme_of secure) (codes "://" ++ host) in
    parse_front b secure host url_free good.0 many short
    ∙ parse_host_only secure host url good colons slashes url_free (omega arith)
