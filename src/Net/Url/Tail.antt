-- ===== src/Net/Url/Tail.antt =====
-- What `HttpUrl::Builder::Parse` does with the query and the fragment of a text.
use nbsdk.Prelude.{
  ◌<◌, false, some, List, [], ◌∷◌, ◌++◌, ◌≡◌, refl, sym, ap, ◌∙◌, Text, arith, ◌==◌, length,
  append-nil, append_assoc, length-append,
}
use nbsdk.Net.Strings.{find, npos, is_empty, add_size, sub_size}
use nbsdk.Net.Strings.Search.{
  IsWithout, find_nothing, find_at, append-IsWithout, substr_at, substr_behind,
}
use nbsdk.Net.Params.Maps.{All, IsOrdered}
use nbsdk.Net.Url.{Builder, shown_query, shown_fragment, add_encoded_fragment}
use nbsdk.Net.Url.Parse.{accepted, parse_fragment, parse_query, query_of, path_end}
use nbsdk.Net.Url.Normal.{IsEntry}
use nbsdk.Net.Url.Front.{not_empty}
use nbsdk.Net.Url.Pieces.{
  Params, named, joined, pairs_of, ArePairs, add_all, shown_params-joined, split-joined,
  add_parameters-pieces, joined-IsFree,
}
use nbsdk.Net.Url.Refill.{add_all-pairs_of}

abbrev pub tail_of : Params → Text → Text
tail_of params fragment = shown_query params ++ shown_fragment fragment

fragment_path : (b : Builder) → b.encoded_fragment ≡ [] → b ≡ record b { encoded_fragment = [] }
fragment_path b e = cc

pub parse_fragment_found :
    (b : Builder) (url front fragment : Text)
    → url ≡ front ++ shown_fragment fragment
    → IsWithout b'#' front
    → length url < npos
    → b.encoded_fragment ≡ []
    → parse_fragment b url ≡ accepted (record b { encoded_fragment = fragment })
unfolding parse_fragment shown_fragment add_encoded_fragment
parse_fragment_found b url front [] e w short none_yet =
    let whole : url ≡ front = e ∙ append-nil front in
    rw (whole, find_nothing b'#' front w) (ap accepted (fragment_path b none_yet))
parse_fragment_found b url front (c ∷ fragment) e w short none_yet =
    let sum = length-append front (b'#' ∷ c ∷ fragment) in
    let total = ap length e in
    let sum' = length-append front (b'#' ∷ []) in
    let at = find_at b'#' url front (c ∷ fragment) e w in
    let there : (length front == npos) ≡ false = ground arith in
    let behind : add_size (length front) 1 ≡ length (front ++ (b'#' ∷ [])) = ground arith in
    let cut =
      substr_behind url (front ++ (b'#' ∷ [])) (c ∷ fragment) (add_size (length front) 1)
        (e ∙ sym (append_assoc front (b'#' ∷ []) (c ∷ fragment))) behind short in
    rw (at, there, cut) refl

pub query_of_found :
    (url front query fragment : Text)
    → url ≡ front ++ ((b'?' ∷ query) ++ shown_fragment fragment)
    → IsWithout b'?' front
    → IsWithout b'#' front
    → IsWithout b'#' query
    → length url < npos
    → query_of url ≡ some query
unfolding query_of shown_fragment
query_of_found url front query [] e w w' v short =
    let sum = length-append front (b'?' ∷ query) in
    let sum' = length-append front (b'?' ∷ []) in
    let whole : url ≡ front ++ (b'?' ∷ query) =
      e ∙ ap (λ q. front ++ q) (append-nil (b'?' ∷ query)) in
    let total = ap length whole in
    let at = find_at b'?' url front query whole w in
    let no_hash : find url b'#' ≡ npos =
      ap (λ u. find u b'#') whole
      ∙ find_nothing b'#' (front ++ (b'?' ∷ query))
          (append-IsWithout b'#' front (b'?' ∷ query) w' (refl, v)) in
    let there : (length front == npos) ≡ false = ground arith in
    let behind : add_size (length front) 1 ≡ length (front ++ (b'?' ∷ [])) = ground arith in
    let cut =
      substr_behind url (front ++ (b'?' ∷ [])) query (add_size (length front) 1)
        (whole ∙ sym (append_assoc front (b'?' ∷ []) query)) behind short in
    rw (at, there, no_hash, cut) refl
query_of_found url front query (c ∷ fragment) e w w' v short =
    let rest = b'#' ∷ c ∷ fragment in
    let before = front ++ (b'?' ∷ query) in
    let sum = length-append front (b'?' ∷ query) in
    let sum' = length-append front (b'?' ∷ []) in
    let parted : url ≡ before ++ rest = e ∙ sym (append_assoc front (b'?' ∷ query) rest) in
    let sum'' = length-append before rest in
    let total = ap length parted in
    let at = find_at b'?' url front (query ++ rest) e w in
    let hash =
      find_at b'#' url before (c ∷ fragment) parted
        (append-IsWithout b'#' front (b'?' ∷ query) w' (refl, v)) in
    let there : (length front == npos) ≡ false = ground arith in
    let there' : (length before == npos) ≡ false = ground arith in
    let behind : add_size (length front) 1 ≡ length (front ++ (b'?' ∷ [])) = ground arith in
    let count : sub_size (length before) (add_size (length front) 1) ≡ length query =
      ground arith in
    let cut =
      substr_at url (front ++ (b'?' ∷ [])) query rest (add_size (length front) 1)
        (sub_size (length before) (add_size (length front) 1))
        (e ∙ sym (append_assoc front (b'?' ∷ []) (query ++ rest))) behind count in
    rw (at, there, hash, there', cut) refl

pub shown_fragment-IsWithout : (f : Text) → IsWithout b'?' f → IsWithout b'?' (shown_fragment f)
unfolding shown_fragment
shown_fragment-IsWithout [] w = tt
shown_fragment-IsWithout (c ∷ f) w = (refl, w)

joined_full : (p : Text × Text) (pairs : List (Text × Text)) → is_empty (joined (p ∷ pairs)) ≡ false
joined_full (name, value) [] = not_empty name b'=' value
joined_full ([], value) (q ∷ pairs) = refl
joined_full (c ∷ name, value) (q ∷ pairs) = refl

without_query :
    (b : Builder) (url front fragment : Text)
    → url ≡ front ++ shown_fragment fragment
    → IsWithout b'?' front
    → IsWithout b'#' front
    → IsWithout b'?' fragment
    → length url < npos
    → b.encoded_fragment ≡ []
    → parse_query b url ≡ accepted (record b { encoded_fragment = fragment })
unfolding parse_query query_of
without_query b url front fragment e w w' v short no_fragment =
    let no_question : find url b'?' ≡ npos =
      ap (λ u. find u b'?') e
      ∙ find_nothing b'?' (front ++ shown_fragment fragment) (
          append-IsWithout b'?' front (shown_fragment fragment) w
            (shown_fragment-IsWithout fragment v)) in
    rw (no_question, query_of) (parse_fragment_found b url front fragment e w' short no_fragment)

-- With a query that has pieces.
with_query :
    (b : Builder) (url front : Text) (p : Text × Text) (pairs : List (Text × Text))
    (fragment : Text)
    → url ≡ front ++ ((b'?' ∷ joined (p ∷ pairs)) ++ shown_fragment fragment)
    → IsWithout b'?' front
    → IsWithout b'#' front
    → ArePairs (p ∷ pairs)
    → length url < npos
    → parse_query b url ≡ parse_fragment (add_all b (p ∷ pairs)) url
unfolding parse_query
with_query b url front p pairs fragment e w w' h short =
    let query = joined (p ∷ pairs) in
    let total = ap length e in
    let sum = length-append front ((b'?' ∷ query) ++ shown_fragment fragment) in
    let sum' = length-append (b'?' ∷ query) (shown_fragment fragment) in
    rw
      (
        query_of_found url front query fragment e w w' (joined-IsFree (p ∷ pairs) h).0 short,
        joined_full p pairs,
        split-joined p pairs h,
      )
      (add_parameters-pieces b (p ∷ pairs) (λ b'. parse_fragment b' url) h (omega arith))

record_path :
    (b : Builder) (fragment : Text)
    → b.encoded_query_names_and_values ≡ []
    → record b { encoded_fragment = fragment }
      ≡ record b { encoded_query_names_and_values = []; encoded_fragment = fragment }
record_path b fragment e = cc

-- From the query on.
pub parse_query_found :
    (b : Builder) (url front : Text) (params : Params) (fragment : Text)
    → url ≡ front ++ tail_of params fragment
    → IsWithout b'?' front
    → IsWithout b'#' front
    → IsWithout b'?' fragment
    → IsOrdered params
    → All IsEntry params
    → ArePairs (pairs_of params)
    → length url < npos
    → b.encoded_query_names_and_values ≡ []
    → b.encoded_fragment ≡ []
    → parse_query b url
      ≡ accepted (record b { encoded_query_names_and_values = params; encoded_fragment = fragment })
unfolding shown_query
parse_query_found b url front [] fragment e w w' v o a h short no_query no_fragment =
    without_query b url front fragment e w w' v short no_fragment
    ∙ ap accepted (record_path b fragment no_query)
parse_query_found b url front ((name, []) ∷ params) fragment e w w' v o
      ((full, some_value, sorted), a) h short no_query no_fragment =
    absurd (some_value refl)
parse_query_found b url front ((name, u ∷ us) ∷ params) fragment e w w' v o a h short no_query
      no_fragment =
    let all = (name, u ∷ us) ∷ params in
    let pairs = named name us ++ pairs_of params in
    let query = joined ((name, u) ∷ pairs) in
    let written : shown_query all ≡ b'?' ∷ query =
      ap (λ q. b'?' ∷ q) (shown_params-joined (length all) 0 all (omega arith) a) in
    let parted : url ≡ front ++ ((b'?' ∷ query) ++ shown_fragment fragment) =
      e ∙ ap (λ q. front ++ (q ++ shown_fragment fragment)) written in
    with_query b url front (name, u) pairs fragment parted w w' h short
    ∙ (ap (λ c. parse_fragment c url) (add_all-pairs_of b all no_query o a)
        ∙ parse_fragment_found (record b { encoded_query_names_and_values = all }) url
            (front ++ (b'?' ∷ query)) fragment
            (parted ∙ sym (append_assoc front (b'?' ∷ query) (shown_fragment fragment)))
            (append-IsWithout b'#' front (b'?' ∷ query) w'
              (refl, (joined-IsFree ((name, u) ∷ pairs) h).0))
            short no_fragment)

-- Host and path end where the query or the fragment begins.
pub path_end_tail :
    (url front : Text) (params : Params) (fragment : Text)
    → url ≡ front ++ tail_of params fragment
    → IsWithout b'?' front
    → IsWithout b'#' front
    → IsWithout b'?' fragment
    → length url < npos
    → path_end url ≡ length front
unfolding path_end shown_query shown_fragment
path_end_tail url front [] [] e w w' v short =
    let whole : url ≡ front = e ∙ append-nil front in
    rw whole (rw (find_nothing b'?' front w, find_nothing b'#' front w') refl)
path_end_tail url front [] (c ∷ fragment) e w w' v short =
    let sum = length-append front (b'#' ∷ c ∷ fragment) in
    let total = ap length e in
    let no_question : find url b'?' ≡ npos =
      ap (λ u. find u b'?') e
      ∙ find_nothing b'?' (front ++ (b'#' ∷ c ∷ fragment))
          (append-IsWithout b'?' front (b'#' ∷ c ∷ fragment) w (refl, v)) in
    let there : (length front == npos) ≡ false = ground arith in
    rw (no_question, find_at b'#' url front (c ∷ fragment) e w', there) refl
path_end_tail url front (p ∷ params) fragment e w w' v short =
    let sum = length-append front (tail_of (p ∷ params) fragment) in
    let total = ap length e in
    let there : (length front == npos) ≡ false = ground arith in
    rw (find_at b'?' url front _ e w, there) refl
