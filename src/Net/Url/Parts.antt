-- ===== src/Net/Url/Parts.antt =====
-- The parts that `HttpUrl` cuts out of the text of a URL that was built.
use nbsdk.Prelude.{
  ℕ, ◌+◌, ◌<◌, Bool, Option, some, [], ◌∷◌, ◌++◌, ◌≡◌, refl, sym, ap, subst, ◌∙◌, Text, arith,
  length, drop, drop-append, append_assoc, length-append,
}
use nbsdk.Net.Strings.{codes, npos, show_ℕ, find, substr, sub_size}
use nbsdk.Net.Strings.Search.{
  IsWithout, IsFree, find_nothing, append-IsWithout, index-append, substr_at,
}
use nbsdk.Net.Strings.Decimal.{show_ℕ-IsWithout}
use nbsdk.Net.Url.{Builder, empty_builder, to_string, shown_segments, shown_query, shown_fragment}
use nbsdk.Net.Url.Parse.{query_of, path_end}
use nbsdk.Net.Url.View.{from_text, init, build, find_from, encoded_path, encoded_query}
use nbsdk.Net.Url.Normal.{IsEntry}
use nbsdk.Net.Params.Maps.{All}
use nbsdk.Net.Url.Front.{scheme_of, marks}
use nbsdk.Net.Url.Pieces.{Params, joined, pairs_of, ArePairs, joined-IsFree, shown_params-joined}
use nbsdk.Net.Url.Tail.{tail_of, path_end_tail, query_of_found, shown_fragment-IsWithout}
use nbsdk.Net.Url.Free.{middle, text-IsFree}
use nbsdk.Net.Url.Roundtrip.{
  IsPlain, parse-to_string, to_string_plain, front_of, front_tail, plain_path, path-IsFree,
}

find_from_at :
    (c : ℕ) (x s t u : Text) (position : ℕ)
    → x ≡ s ++ (t ++ (c ∷ u))
    → position ≡ length s
    → IsWithout c t
    → find_from x c position ≡ length s + length t
unfolding find_from
find_from_at c x s t u position e p w =
    let sum = length-append s (t ++ (c ∷ u)) in
    let cut : drop position x ≡ t ++ (c ∷ u) =
      ap (drop position) e ∙ drop-append position s (t ++ (c ∷ u)) (omega arith) in
    rw (cut, index-append c t u w) (ap (λ i. i + length t) p)

-- The query of a text that ends with one and a fragment.
query_of_tail :
    (url front : Text) (params : Params) (fragment : Text)
    → url ≡ front ++ tail_of params fragment
    → IsWithout b'?' front
    → IsWithout b'#' front
    → All IsEntry params
    → ArePairs (pairs_of params)
    → IsWithout b'?' fragment
    → length url < npos
    → query_of url ≡ some (joined (pairs_of params))
unfolding query_of shown_query
query_of_tail url front [] fragment e w w' a h v short =
    let no_question : find url b'?' ≡ npos =
      ap (λ u. find u b'?') e
      ∙ find_nothing b'?' (front ++ shown_fragment fragment) (
          append-IsWithout b'?' front (shown_fragment fragment) w
            (shown_fragment-IsWithout fragment v)) in
    rw no_question refl
query_of_tail url front (p ∷ params) fragment e w w' a h v short =
    let all = p ∷ params in
    let shown = shown_params-joined (length all) 0 all (omega arith) a in
    query_of_found url front (joined (pairs_of all)) fragment
      (e ∙ ap (λ q. front ++ ((b'?' ∷ q) ++ shown_fragment fragment)) shown) w w'
      (joined-IsFree (pairs_of all) h).0 short

-- Scheme, host and port.
abbrev start_of : Bool → Text → ℕ → Text
start_of secure host port = (scheme_of secure ++ codes "://") ++ (host ++ (b':' ∷ show_ℕ port))

front_start :
    (secure : Bool) (host : Text) (port : ℕ) (path : Text)
    → front_of secure host port path ≡ start_of secure host port ++ (b'/' ∷ path)
front_start secure host port path =
    let rest = b'/' ∷ path in
    sym (
      append_assoc (scheme_of secure ++ codes "://") (host ++ (b':' ∷ show_ℕ port)) rest
      ∙ (ap (λ t. (scheme_of secure ++ codes "://") ++ t)
            (append_assoc host (b':' ∷ show_ℕ port) rest)
          ∙ append_assoc (scheme_of secure) (codes "://") (middle host port path)))

-- What `EncodedPath` cuts out of a text, by its scheme.
abbrev cut_of : Text → Text → Option Text
cut_of scheme url =
    let start = find_from url b'/' (length scheme + 3) in
    substr url start (sub_size (path_end url) start)

-- Where the path begins, and the path.
path_cut :
    (secure : Bool) (host : Text) (port : ℕ) (path tail url : Text)
    → url ≡ front_of secure host port path ++ tail
    → IsWithout b'/' host
    → path_end url ≡ length (front_of secure host port path)
    → length url < npos
    → cut_of (scheme_of secure) url ≡ some (b'/' ∷ path)
path_cut secure host port path tail url e slashes at short =
    let s = scheme_of secure ++ codes "://" in
    let t = host ++ (b':' ∷ show_ℕ port) in
    let start = s ++ t in
    let front = front_start secure host port path in
    let no_slash =
      append-IsWithout b'/' host (b':' ∷ show_ℕ port) slashes
        (refl, show_ℕ-IsWithout b'/' port refl) in
    let parted : url ≡ start ++ ((b'/' ∷ path) ++ tail) =
      e ∙ (ap (λ f. f ++ tail) front ∙ append_assoc start (b'/' ∷ path) tail) in
    let sum = length-append (scheme_of secure) (codes "://") in
    let sum' = length-append s t in
    let sum₁ = length-append start ((b'/' ∷ path) ++ tail) in
    let sum₂ = length-append (b'/' ∷ path) tail in
    let sum₃ = length-append start (b'/' ∷ path) in
    let size = ap length front in
    let total = ap length parted in
    let found =
      find_from_at b'/' url s t (path ++ tail) (length (scheme_of secure) + 3)
        (parted ∙ append_assoc s t ((b'/' ∷ path) ++ tail)) (omega arith) no_slash in
    substr_at url start (b'/' ∷ path) tail _ _ parted (found ∙ sym sum') (ground arith)

-- The text of a URL that was built, and that none of the bytes at which it is cut is in its front.
front_text :
    (b : Builder) (p : IsPlain b)
    → (to_string b
        ≡ front_of p.secure b.host p.number (p.segment ++ shown_segments p.others)
          ++ tail_of b.encoded_query_names_and_values b.encoded_fragment)
      × IsFree marks (front_of p.secure b.host p.number (p.segment ++ shown_segments p.others))
front_text b p =
    let path = p.segment ++ shown_segments p.others in
    let tail = tail_of b.encoded_query_names_and_values b.encoded_fragment in
    (
      ap to_string (plain_path b p)
          ∙ (to_string_plain p.secure b.host p.number p.segment p.others _ _ p.host_colons
              ∙ front_tail p.secure b.host p.number path tail),
      text-IsFree p.secure b.host p.number path p.host_free (path-IsFree b p),
    )

-- Where the scheme is http or https, the port is not negative and fits `int`, there is a path segment, each
-- segment is one that `Push` keeps, the query is a map in order, of names that are not empty to sets in order that are not
-- empty, no part holds a
-- byte at which `Parse` cuts it, and the text is shorter than npos: `EncodedPath` of the URL that is built
-- gives the segments, each behind a `/`, and `EncodedQuery` the pairs of the query, each as a name, `=` and
-- a value, with `&` between them; and the URL that is made of the text is the same.
pub build_lem :
    (b : Builder)
    → IsPlain b
    → length (to_string b) < npos
    → (encoded_path (build b) ≡ some (shown_segments b.encoded_path_segments))
      × (encoded_query (build b) ≡ some (joined (pairs_of b.encoded_query_names_and_values)))
      × (from_text (to_string b) ≡ some (build b))
unfolding build init encoded_path encoded_query from_text shown_segments query_of
build_lem b p short =
    let path = p.segment ++ shown_segments p.others in
    let params = b.encoded_query_names_and_values in
    let fragment = b.encoded_fragment in
    let (written, free) = front_text b p in
    let front = front_of p.secure b.host p.number path in
    let at =
      path_end_tail (to_string b) front params fragment written free.0 free.1.0 p.fragment_free.0
        short in
    let cut =
      path_cut p.secure b.host p.number path (tail_of params fragment) (to_string b) written
        p.host_slashes at short in
    (
      subst (λ scheme. cut_of scheme (to_string b) ≡ some (shown_segments b.encoded_path_segments))
          (sym p.scheme_is)
          (cut ∙ ap (λ segments. some (shown_segments segments)) (sym p.segments_are)),
      query_of_tail (to_string b) front params fragment written free.0 free.1.0 p.query_entries
          p.query_pairs p.fragment_free.0 short,
      rw (parse-to_string empty_builder b p short, from_text) refl,
    )
