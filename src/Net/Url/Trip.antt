-- ===== src/Net/Url/Trip.antt =====
-- What the parts of `HttpUrl::Builder::Parse` do with a text that has the parts it looks for.
use nbsdk.Prelude.{
  ℕ, ◌<◌, ◌≤◌, false, some, List, [], ◌∷◌, ◌++◌, ◌≡◌, refl, sym, ap, subst, ◌∙◌, Text, arith, ◌==◌,
  length, if◌then◌else◌, append_assoc, length-append,
}
use nbsdk.Prelude.Int.{pos}
use nbsdk.Net.Strings.{npos, add_size, sub_size, is_empty, atoi, show_ℕ, int_max}
use nbsdk.Net.Strings.Search.{
  IsWithout, IsFree, find_nothing, find_at, append-IsWithout, front_stays, back_stays, substr_at,
  substr_behind,
}
use nbsdk.Net.Strings.Decimal.{atoi-show_ℕ, show_ℕ_cons, show_ℕ-IsWithout}
use nbsdk.Net.Url.{Builder, add_encoded_path_segments}
use nbsdk.Net.Url.Parse.{
  accepted, trim, trim_front, trim_back, blanks, parse_fragment, parse_query, query_of, parse_path,
  port_text, port_of, parse_host, path_end,
}
use nbsdk.Net.Url.Segments.{add_empty}

trim_front_stays :
    (cs : List ℕ) (d : ℕ) (s : Text) → IsFree cs (d ∷ s) → trim_front cs (d ∷ s) ≡ d ∷ s
unfolding trim_front
trim_front_stays [] d s f = refl
trim_front_stays (c ∷ cs) d s (w, f) =
    ap (trim_front cs) (front_stays c d s w.0) ∙ trim_front_stays cs d s f

trim_back_stays :
    (cs : List ℕ) (d : ℕ) (s : Text)
    → IsFree cs (d ∷ s)
    → length (d ∷ s) < npos
    → trim_back cs (d ∷ s) ≡ d ∷ s
unfolding trim_back
trim_back_stays [] d s f short = refl
trim_back_stays (c ∷ cs) d s (w, f) short =
    ap (trim_back cs) (back_stays c d s w short) ∙ trim_back_stays cs d s f short

pub trim_stays :
    (d : ℕ) (s : Text) → IsFree blanks (d ∷ s) → length (d ∷ s) < npos → trim (d ∷ s) ≡ d ∷ s
unfolding trim
trim_stays d s f short =
    ap (trim_back blanks) (trim_front_stays blanks d s f) ∙ trim_back_stays blanks d s f short

pub path_end_whole :
    (url : Text) → IsWithout b'?' url → IsWithout b'#' url → path_end url ≡ length url
unfolding path_end
path_end_whole url q h = rw (find_nothing b'?' url q, find_nothing b'#' url h) refl

-- Without a query and a fragment, the builder is ready.
pub parse_query_nothing :
    (b : Builder) (url : Text)
    → IsWithout b'?' url
    → IsWithout b'#' url
    → parse_query b url ≡ accepted b
unfolding parse_query query_of parse_fragment
parse_query_nothing b url q h = rw (find_nothing b'?' url q, find_nothing b'#' url h) refl

add_path :
    (b : Builder) (path : Text)
    → (if is_empty path then b else add_encoded_path_segments b path)
      ≡ add_encoded_path_segments b path
add_path b [] = sym (add_empty b)
add_path b (c ∷ path) = refl

pub parse_path_found :
    (b : Builder) (url front path : Text)
    → IsWithout b'/' front
    → length (front ++ (b'/' ∷ path)) < npos
    → parse_path b url (front ++ (b'/' ∷ path)) ≡ parse_query (add_encoded_path_segments b path) url
unfolding parse_path
parse_path_found b url front path w short =
    let slash = find_at b'/' (front ++ (b'/' ∷ path)) front path refl w in
    let sum = length-append front (b'/' ∷ path) in
    let sum' = length-append front (b'/' ∷ []) in
    let at : add_size (length front) 1 ≡ length (front ++ (b'/' ∷ [])) = ground arith in
    let cut =
      substr_behind (front ++ (b'/' ∷ path)) (front ++ (b'/' ∷ [])) path (add_size (length front) 1)
        (sym (append_assoc front (b'/' ∷ []) path)) at short in
    rw (slash, cut) (ap (λ c. parse_query c url) (add_path b path))

pub port_of-show_ℕ :
    (scheme : Text) (n : ℕ) → n ≤ int_max → port_of scheme (show_ℕ n) ≡ some (pos n)
unfolding port_of
port_of-show_ℕ scheme n h =
    let (c, s, e) = show_ℕ_cons n in
    subst (λ t. port_of scheme t ≡ some (pos n)) (sym e)
      (subst (λ t. atoi t ≡ some (pos n)) e (atoi-show_ℕ n h))

pub parse_host_found :
    (b : Builder) (url host path : Text) (port : ℕ)
    → IsWithout b':' host
    → IsWithout b'/' host
    → port ≤ int_max
    → length (host ++ (b':' ∷ (show_ℕ port ++ (b'/' ∷ path)))) < npos
    → parse_host b url (host ++ (b':' ∷ (show_ℕ port ++ (b'/' ∷ path))))
      ≡ parse_path
          (record b { host = host; port = pos port })
          url
          (host ++ (b':' ∷ (show_ℕ port ++ (b'/' ∷ path))))
unfolding parse_host port_text
parse_host_found b url host path port colons slashes fits short =
    let port_s = show_ℕ port in
    let host_path = host ++ (b':' ∷ (port_s ++ (b'/' ∷ path))) in
    let sum = length-append host (b':' ∷ (port_s ++ (b'/' ∷ path))) in
    let sum₁ = length-append port_s (b'/' ∷ path) in
    let sum₂ = length-append host (b':' ∷ port_s) in
    let sum₃ = length-append host (b':' ∷ []) in
    let colon = find_at b':' host_path host (port_s ++ (b'/' ∷ path)) refl colons in
    let front_is : host_path ≡ (host ++ (b':' ∷ port_s)) ++ (b'/' ∷ path) =
      sym (append_assoc host (b':' ∷ port_s) (b'/' ∷ path)) in
    let slash = find_at b'/' host_path (host ++ (b':' ∷ port_s)) path front_is (
      append-IsWithout b'/' host (b':' ∷ port_s) slashes (refl, show_ℕ-IsWithout b'/' port refl)) in
    let colon_there : (length host == npos) ≡ false = ground arith in
    let slash_there : (length (host ++ (b':' ∷ port_s)) == npos) ≡ false = ground arith in
    let host_cut =
      substr_at host_path [] host (b':' ∷ (port_s ++ (b'/' ∷ path))) 0 (length host) refl refl
        refl in
    let port_cut =
      substr_at host_path (host ++ (b':' ∷ [])) port_s (b'/' ∷ path) (add_size (length host) 1)
        (sub_size (length (host ++ (b':' ∷ port_s))) (add_size (length host) 1))
        (sym (append_assoc host (b':' ∷ []) (port_s ++ (b'/' ∷ path)))) (ground arith)
        (ground arith) in
    rw
      (
        colon,
        colon_there,
        host_cut,
        slash,
        slash_there,
        port_cut,
        port_of-show_ℕ b.scheme port fits,
      )
      refl
