-- ===== src/Net/Url/Roundtrip.antt =====
-- `HttpUrl::Builder::Parse` reads what `ToString` writes.
use nbsdk.Prelude.{
  ℕ, ◌<◌, ◌≤◌, Bool, List, [], ◌∷◌, ◌++◌, ◌≡◌, refl, sym, ap, subst, ◌∙◌, Text, arith, length,
  append_assoc, length-append,
}
use nbsdk.Prelude.Int.{pos}
use nbsdk.Net.Strings.{codes, npos, show_ℕ, int_max}
use nbsdk.Net.Strings.Search.{
  IsWithout, AreWithout, IsFree, find_nothing, append-IsWithout, append-IsFree, lacks_all-IsFree,
}
use nbsdk.Net.Strings.Decimal.{show_ℕ-IsWithout}
use nbsdk.Net.Url.{
  Builder, empty_builder, to_string, shown_host, shown_segments, add_encoded_path_segments,
}
use nbsdk.Net.Url.Parse.{accepted, blanks, parse, parse_host, parse_path, parse_query, path_end}
use nbsdk.Net.Url.Normal.{AreSegments, IsEntry}
use nbsdk.Net.Url.Segments.{add_slash, add_encoded_path_segments-shown_segments}
use nbsdk.Net.Url.Front.{scheme_of, scheme_length, not_empty, parse_front_tail, marks}
use nbsdk.Net.Params.Maps.{All, IsOrdered}
use nbsdk.Net.Url.Pieces.{Params, pairs_of, ArePairs}
use nbsdk.Net.Url.Tail.{tail_of, parse_query_found, path_end_tail}
use nbsdk.Net.Url.Free.{AreFree, shown_segments-IsFree, middle, text-IsFree, tail_of-IsFree}
use nbsdk.Net.Url.Trip.{parse_path_found, parse_host_found}

-- A builder that `ToString` writes without ambiguity.
pub record IsPlain (b : Builder) : Type 0 where
  pub secure : Bool
  pub scheme_is : b.scheme ≡ scheme_of secure
  pub host_free : IsFree marks b.host
  pub host_colons : IsWithout b':' b.host
  pub host_slashes : IsWithout b'/' b.host
  pub number : ℕ
  pub port_is : b.port ≡ pos number
  pub port_fits : number ≤ int_max
  pub segment : Text
  pub others : List Text
  pub segments_are : b.encoded_path_segments ≡ segment ∷ others
  pub segments_good : AreSegments (segment ∷ others)
  pub segments_slashes : AreWithout b'/' (segment ∷ others)
  pub segments_free : AreFree marks (segment ∷ others)
  pub query_ordered : IsOrdered b.encoded_query_names_and_values
  pub query_entries : All IsEntry b.encoded_query_names_and_values
  pub query_pairs : ArePairs (pairs_of b.encoded_query_names_and_values)
  pub fragment_free : IsFree marks b.encoded_fragment

abbrev pub plain_builder : Bool → Text → ℕ → List Text → Params → Text → Builder
plain_builder secure host port segments params fragment = record {
  scheme = scheme_of secure;
  host = host;
  port = pos port;
  encoded_path_segments = segments;
  encoded_query_names_and_values = params;
  encoded_fragment = fragment;
}

pub to_string_plain :
    (secure : Bool) (host : Text) (port : ℕ) (s : Text) (segments : List Text) (params : Params)
    (fragment : Text)
    → IsWithout b':' host
    → to_string (plain_builder secure host port (s ∷ segments) params fragment)
      ≡ scheme_of secure
        ++ (codes "://"
            ++ (middle host port (s ++ shown_segments segments) ++ tail_of params fragment))
unfolding to_string shown_host shown_segments
to_string_plain secure host port s segments params fragment w =
    let path = b'/' ∷ (s ++ shown_segments segments) in
    let tail = tail_of params fragment in
    rw (find_nothing b':' host w) (
      ap (λ t. scheme_of secure ++ (codes "://" ++ t))
        (sym (
          append_assoc host (b':' ∷ (show_ℕ port ++ path)) tail
          ∙ ap (λ t. host ++ (b':' ∷ t)) (append_assoc (show_ℕ port) path tail))))

-- From the host to the query, in a text with these parts.
parse_middle :
    (secure : Bool) (host : Text) (port : ℕ) (path url : Text)
    → IsWithout b':' host
    → IsWithout b'/' host
    → port ≤ int_max
    → length (middle host port path) < npos
    → parse_host (record empty_builder { scheme = scheme_of secure }) url (middle host port path)
      ≡ parse_query (add_encoded_path_segments (plain_builder secure host port [] [] []) path) url
parse_middle secure host port path url colons slashes fits short =
    let b = plain_builder secure host port [] [] [] in
    let front = host ++ (b':' ∷ show_ℕ port) in
    let split = sym (append_assoc host (b':' ∷ show_ℕ port) (b'/' ∷ path)) in
    let start = record empty_builder { scheme = scheme_of secure } in
    let no_slash =
      append-IsWithout b'/' host (b':' ∷ show_ℕ port) slashes
        (refl, show_ℕ-IsWithout b'/' port refl) in
    parse_host_found start url host path port colons slashes fits short
    ∙ (ap (parse_path b url) split
        ∙ parse_path_found b url front path no_slash (subst (λ t. length t < npos) split short))

-- Scheme, host, port and path, which stand before the tail.
abbrev pub front_of : Bool → Text → ℕ → Text → Text
front_of secure host port path = scheme_of secure ++ (codes "://" ++ middle host port path)

pub front_tail :
    (secure : Bool) (host : Text) (port : ℕ) (path tail : Text)
    → scheme_of secure ++ (codes "://" ++ (middle host port path ++ tail))
      ≡ front_of secure host port path ++ tail
front_tail secure host port path tail =
    sym (append_assoc (scheme_of secure) (codes "://" ++ middle host port path) tail)

-- `Parse` of such a text comes to the query.
parse_front_of :
    (b : Builder) (secure : Bool) (host : Text) (port : ℕ) (path : Text) (params : Params)
    (fragment url : Text)
    → url ≡ scheme_of secure ++ (codes "://" ++ (middle host port path ++ tail_of params fragment))
    → IsFree marks host
    → IsWithout b':' host
    → IsWithout b'/' host
    → port ≤ int_max
    → IsFree marks path
    → IsFree marks fragment
    → IsFree blanks (tail_of params fragment)
    → length url < npos
    → parse b url
      ≡ parse_query (add_encoded_path_segments (plain_builder secure host port [] [] []) path) url
parse_front_of b secure host port path params fragment url e free colons slashes fits path_free
      fragment_free tail_free short =
    let host_path = middle host port path in
    let tail = tail_of params fragment in
    let front = front_of secure host port path in
    let parted = e ∙ front_tail secure host port path tail in
    let front_free = text-IsFree secure host port path free path_free in
    let url_free =
      subst (IsFree blanks) (sym (front_tail secure host port path tail))
        (append-IsFree blanks front tail front_free.1.1 tail_free) in
    let at =
      path_end_tail url front params fragment parted front_free.0 front_free.1.0 fragment_free.0
        short in
    let full = not_empty host b':' (show_ℕ port ++ (b'/' ∷ path)) in
    let total = ap length e in
    let sum = length-append (scheme_of secure) (codes "://" ++ (host_path ++ tail)) in
    let sum' = length-append host_path tail in
    let sum₁ = length-append host (b':' ∷ (show_ℕ port ++ (b'/' ∷ path))) in
    let sum₂ = length-append (show_ℕ port) (b'/' ∷ path) in
    let size = length-append (scheme_of secure) (codes "://" ++ host_path) in
    let size' = length-append (scheme_of secure) (codes "://") in
    let four = scheme_length secure in
    subst
      (λ u.
        parse b u
        ≡ parse_query (add_encoded_path_segments (plain_builder secure host port [] [] []) path) u)
      (sym e)
      (parse_front_tail b secure host_path tail url_free (ap path_end (sym e) ∙ (at ∙ omega arith))
          full (omega arith) (omega arith)
        ∙ parse_middle secure host port path _ colons slashes fits (omega arith))

pub plain_path :
    (b : Builder) (p : IsPlain b)
    → b
      ≡ plain_builder p.secure b.host p.number
          (p.segment ∷ p.others)
          b.encoded_query_names_and_values
          b.encoded_fragment
plain_path b p = let e = p.scheme_is in let f = p.port_is in let g = p.segments_are in cc

read_path :
    (c : Builder) {b : Builder} (p : IsPlain b)
    → add_encoded_path_segments c (p.segment ++ shown_segments p.others)
      ≡ record c { encoded_path_segments = c.encoded_path_segments ++ (p.segment ∷ p.others) }
unfolding shown_segments
read_path c p =
    sym (add_slash c (p.segment ++ shown_segments p.others))
    ∙ add_encoded_path_segments-shown_segments c (p.segment ∷ p.others) p.segments_good
        p.segments_slashes

pub path-IsFree :
    (b : Builder) (p : IsPlain b) → IsFree marks (p.segment ++ shown_segments p.others)
path-IsFree b p = append-IsFree marks p.segment (shown_segments p.others) p.segments_free.0 (
    shown_segments-IsFree marks p.others (lacks_all-IsFree marks (b'/' ∷ []) refl)
      (lacks_all-IsFree marks [] refl) p.segments_free.1)

-- What `ToString` writes of a builder, `Parse` reads back as that builder, whichever builder it is called
-- on. The scheme is http or https; the port is set, so that it is not negative, and fits `int`; there is a
-- path segment, and each is one that `Push` keeps. Host, segments and fragment hold no `?`, `#` or blank,
-- host and segments no `/`, and the host no `:`. The query is a map in order, of names that are not empty to
-- sets in order that are not empty; its names and values hold no `&`, `#` or blank, and its names no `=`. The
-- text is shorter than npos.
pub parse-to_string :
    (b₀ b : Builder) → IsPlain b → length (to_string b) < npos → parse b₀ (to_string b) ≡ accepted b
parse-to_string b₀ b p short =
    let path = p.segment ++ shown_segments p.others in
    let params = b.encoded_query_names_and_values in
    let fragment = b.encoded_fragment in
    let is_plain = plain_path b p in
    let written =
      ap to_string is_plain
      ∙ to_string_plain p.secure b.host p.number p.segment p.others params fragment p.host_colons in
    let path_free = path-IsFree b p in
    let front_free = text-IsFree p.secure b.host p.number path p.host_free path_free in
    let tail_free =
      tail_of-IsFree params fragment p.query_entries p.query_pairs p.fragment_free.1.1 in
    let bare = plain_builder p.secure b.host p.number in
    parse_front_of b₀ p.secure b.host p.number path params fragment (to_string b) written
      p.host_free p.host_colons p.host_slashes p.port_fits path_free p.fragment_free tail_free short
    ∙ (ap (λ c. parse_query c (to_string b)) (read_path (bare [] [] []) p)
        ∙ (parse_query_found (bare (p.segment ∷ p.others) [] []) (to_string b)
              (front_of p.secure b.host p.number path) params fragment
              (written ∙ front_tail p.secure b.host p.number path (tail_of params fragment))
              front_free.0 front_free.1.0 p.fragment_free.0 p.query_ordered p.query_entries
              p.query_pairs short refl refl
            ∙ ap accepted (sym is_plain)))
