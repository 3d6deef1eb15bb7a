-- ===== src/Net/Url/Tests.antt =====
-- Runs of `HttpUrl` and its builder, and the theorems about them at concrete inputs.
use nbsdk.Prelude.{
  true, false, ◌<◌, length, arith, [], ◌∷◌, ◌++◌, some, none, ◌≡◌, refl, Text, Option, not, ◌&&◌,
  ◌||◌,
}
use nbsdk.Prelude.Int.{pos}
use nbsdk.Net.Strings.{
  is_empty, npos, codes, text_eq, text_lt, to_lower, split, find, index_where, last_index_where,
  find_first_not_of, find_last_not_of, substr, value, atoi, digits,
}
use nbsdk.Net.Params
use nbsdk.Net.Url.{
  Builder, empty_builder, http, to_string, default_port, overwrite, set_host, push, pop, pop_back,
  push_all, add_encoded_path_segments, add_encoded_query_parameter, remove_encoded_query_value,
  remove_encoded_query_parameter, add_encoded_fragment, shown_host, shown_segments, shown_values,
  shown_params, shown_query, shown_fragment,
}
use nbsdk.Net.Url.Parse.{
  Parsed, accepted, out_of_range, parse, trim, trim_front, trim_back, parse_scheme, parse_host_path,
  path_end, parse_host, host_of, port_text, port_of, parse_path, parse_query, query_of,
  add_parameters, add_parameter, parse_fragment,
}
use nbsdk.Net.Url.View.{build, init, from_text, encoded_query, encoded_path, find_from}
use nbsdk.Net.Url.Normal.{IsNormal, empty_builder-IsNormal}
use nbsdk.Net.Url.Entries.{add_encoded_query_parameter-IsNormal}
use nbsdk.Net.Url.Made.{fresh, edited, segments, parameter, Made-IsNormal}
use nbsdk.Net.Url.Segments.{add_encoded_path_segments-append}
use nbsdk.Net.Strings.Search.{IsWithout, lacks_all, lacks_all-IsFree}
use nbsdk.Net.Url.Pieces.{query_marks, IsPair, joined, pairs_of}
use nbsdk.Net.Url.Front.{marks}
use nbsdk.Net.Url.Roundtrip.{IsPlain, plain_builder, parse-to_string}
use nbsdk.Net.Url.Parts.{build_lem}
use nbsdk.Net.Url.NoPath.{host_twice, parse_no_path}
use nbsdk.Net.Url.Queries.{
  has, add_encoded_query_parameter-has, remove_encoded_query_value-has,
  remove_encoded_query_parameter-has,
}

-- What `ToString` makes of an accepted text.
abbrev printed : Parsed → Option Text
printed (accepted b) = some (to_string b)
printed _ = none

abbrev messy : Text
messy = codes " HTTP://a.b:8080/x/../y?q=2&q=1&&r#f "

printed-messy : printed (parse empty_builder messy) ≡ some (codes "http://a.b:8080/y?q=1&q=2&r=#f")
unfolding parse trim trim_front trim_back parse_scheme parse_host_path path_end parse_host host_of
    port_text port_of parse_path parse_query query_of add_parameters add_parameter parse_fragment
    add_encoded_path_segments push_all push pop pop_back add_encoded_query_parameter
    add_encoded_fragment to_string shown_host shown_segments shown_query shown_params shown_values
    shown_fragment text_eq text_lt to_lower split find index_where last_index_where
    find_first_not_of find_last_not_of substr value atoi digits Params.add Params.find
    Params.emplace Params.update
printed-messy = refl

-- Without a path, the host becomes a path segment too.
no_path :
    parse empty_builder (codes "http://a.org")
    ≡ accepted record empty_builder {
      scheme = http;
      host = codes "a.org";
      port = pos 80;
      encoded_path_segments = codes "a.org" ∷ [];
    }
unfolding parse trim trim_front trim_back parse_scheme parse_host_path path_end parse_host host_of
    parse_path parse_query query_of parse_fragment default_port add_encoded_path_segments push_all
    push text_eq to_lower split find index_where last_index_where find_first_not_of find_last_not_of
    substr
no_path = refl

-- The blanks at the end do not count, and what is left is too short.
too_short :
    parse empty_builder (codes "http:      ") ≡ out_of_range record empty_builder { scheme = http }
unfolding parse trim trim_front trim_back parse_scheme parse_host_path path_end text_eq to_lower
    find index_where last_index_where find_first_not_of find_last_not_of substr
too_short = refl

host_into_nothing : set_host empty_builder (codes "a") ≡ none
unfolding set_host overwrite
host_into_nothing = refl

-- A URL without a path: `EncodedPath` throws.
no_encoded_path :
    encoded_path (build (record empty_builder { scheme = http; host = codes "a" })) ≡ none
unfolding encoded_path build init find_from path_end to_string shown_host default_port
    shown_segments shown_query shown_fragment text_eq find index_where substr digits
no_encoded_path = refl

abbrev one_pair : Builder
one_pair = add_encoded_query_parameter empty_builder (codes "q") (codes "1")

one_pair-IsNormal : IsNormal one_pair
one_pair-IsNormal =
    add_encoded_query_parameter-IsNormal empty_builder (codes "q") (codes "1")
      empty_builder-IsNormal

Made-IsNormal_example : IsNormal (
    add_encoded_query_parameter
      (add_encoded_path_segments empty_builder (codes "a/../b"))
      (codes "q")
      (codes "1"))
Made-IsNormal_example =
    Made-IsNormal
      (edited (edited fresh (segments (codes "a/../b"))) (parameter (codes "q") (codes "1")))

add_encoded_path_segments-append_run :
    add_encoded_path_segments empty_builder (codes "a" ++ (b'/' ∷ codes "../b"))
    ≡ add_encoded_path_segments (add_encoded_path_segments empty_builder (codes "a")) (codes "../b")
add_encoded_path_segments-append_run =
    add_encoded_path_segments-append empty_builder (codes "a") (codes "../b")

add_encoded_query_parameter-has_example :
    has (add_encoded_query_parameter one_pair (codes "q") (codes "0")) (codes "q") (codes "1") ≡ (
      (text_eq (codes "q") (codes "q") && text_eq (codes "1") (codes "0"))
      || has one_pair (codes "q") (codes "1"))
add_encoded_query_parameter-has_example =
    add_encoded_query_parameter-has one_pair (codes "q") (codes "0") (codes "q") (codes "1") refl

remove_encoded_query_value-has_example :
    has (remove_encoded_query_value one_pair (codes "q") (codes "1")) (codes "q") (codes "1") ≡ (
      has one_pair (codes "q") (codes "1")
      && not (text_eq (codes "q") (codes "q") && text_eq (codes "1") (codes "1")))
remove_encoded_query_value-has_example =
    remove_encoded_query_value-has one_pair (codes "q") (codes "1") (codes "q") (codes "1")
      one_pair-IsNormal refl

remove_encoded_query_parameter-has_example :
    has (remove_encoded_query_parameter one_pair (codes "q")) (codes "q") (codes "1")
    ≡ (has one_pair (codes "q") (codes "1") && not (text_eq (codes "q") (codes "q")))
remove_encoded_query_parameter-has_example =
    remove_encoded_query_parameter-has one_pair (codes "q") (codes "q") (codes "1")
      one_pair-IsNormal refl

abbrev plain_example : Builder
plain_example =
    plain_builder false (codes "a.b") 8080 (codes "x" ∷ codes "y" ∷ [])
      ((codes "k", codes "1" ∷ codes "2" ∷ []) ∷ (codes "q", codes "0" ∷ []) ∷ []) (codes "top")

-- A pair of the query that is read back, from its computed tests.
free-IsPair :
    (name value : Text)
    → is_empty name ≡ false
    → IsWithout b'=' name
    → lacks_all query_marks name ≡ true
    → lacks_all query_marks value ≡ true
    → IsPair (name, value)
free-IsPair name value e w n v =
    (e, w, lacks_all-IsFree query_marks name n, lacks_all-IsFree query_marks value v)

plain_example-IsPlain : IsPlain plain_example
unfolding text_eq text_lt
plain_example-IsPlain = record {
  secure = false;
  scheme_is = refl;
  host_free = lacks_all-IsFree marks (codes "a.b") refl;
  host_colons = (refl, (refl, (refl, tt)));
  host_slashes = (refl, (refl, (refl, tt)));
  number = 8080;
  port_is = refl;
  port_fits = omega arith;
  segment = codes "x";
  others = codes "y" ∷ [];
  segments_are = refl;
  segments_good = ((refl, refl, refl), ((refl, refl, refl), tt));
  segments_slashes = ((refl, tt), ((refl, tt), tt));
  segments_free =
      (lacks_all-IsFree marks (codes "x") refl, (lacks_all-IsFree marks (codes "y") refl, tt));
  query_ordered = ((refl, tt), (tt, tt));
  query_entries = ((refl, (λ e. cc), ((refl, tt), (tt, tt))), ((refl, (λ e. cc), (tt, tt)), tt));
  query_pairs = (
    free-IsPair (codes "k") (codes "1") refl (refl, tt) refl refl,
    (
      free-IsPair (codes "k") (codes "2") refl (refl, tt) refl refl,
      (free-IsPair (codes "q") (codes "0") refl (refl, tt) refl refl, tt),
    ),
  );
  fragment_free = lacks_all-IsFree marks (codes "top") refl;
}

plain_example_short : length (to_string plain_example) < npos
unfolding to_string shown_host shown_segments shown_query shown_fragment find index_where digits
    shown_params shown_values
plain_example_short = omega arith

parse-to_string_example : parse empty_builder (to_string plain_example) ≡ accepted plain_example
parse-to_string_example =
    parse-to_string empty_builder plain_example plain_example-IsPlain plain_example_short

build_lem_example :
    (encoded_path (build plain_example) ≡ some (shown_segments plain_example.encoded_path_segments))
    × (encoded_query (build plain_example)
        ≡ some (joined (pairs_of plain_example.encoded_query_names_and_values)))
    × (from_text (to_string plain_example) ≡ some (build plain_example))
build_lem_example = build_lem plain_example plain_example-IsPlain plain_example_short

parse_no_path_example :
    parse empty_builder (codes "http://a.org") ≡ accepted (host_twice false (codes "a.org"))
unfolding text_eq
parse_no_path_example =
    parse_no_path empty_builder false (codes "a.org") (refl, refl, refl)
      (refl, (refl, (refl, (refl, (refl, tt))))) (refl, (refl, (refl, (refl, (refl, tt)))))
      (lacks_all-IsFree marks (codes "a.org") refl) (omega arith) (omega arith)
