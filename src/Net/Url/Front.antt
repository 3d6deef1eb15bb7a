-- ===== src/Net/Url/Front.antt =====
-- `HttpUrl::Builder::Parse` finds the scheme, and where host and path are.
use nbsdk.Prelude.{
  ℕ, ◌+◌, ◌<◌, ◌≤◌, Bool, true, false, some, List, [], ◌∷◌, ◌++◌, ◌≡◌, refl, sym, ap, subst, ◌∙◌,
  Text, arith, leb, length, append-nil, append_assoc, length-append,
}
use nbsdk.Net.Strings.{codes, find, npos, sub_size, substr, is_empty, text_eq, to_lower}
use nbsdk.Net.Strings.Search.{IsWithout, IsFree, find_at, substr_at}
use nbsdk.Net.Url.{Builder, empty_builder, http, https}
use nbsdk.Net.Url.Parse.{parse, parse_scheme, parse_host_path, parse_host, path_end, trim, blanks}
use nbsdk.Net.Url.Trip.{trim_stays, path_end_whole}

parse_host_path_found :
    (b : Builder) (url host_path rest : Text)
    → url ≡ (b.scheme ++ codes "://") ++ (host_path ++ rest)
    → path_end url ≡ length (b.scheme ++ codes "://") + length host_path
    → is_empty host_path ≡ false
    → length url < npos
    → parse_host_path b url ≡ parse_host b url host_path
unfolding parse_host_path
parse_host_path_found b url host_path rest e at full short =
    let sum = length-append b.scheme (codes "://") in
    let sum₁ = length-append (b.scheme ++ codes "://") (host_path ++ rest) in
    let sum₂ = length-append host_path rest in
    let total = ap length e in
    let cut =
      substr_at url (b.scheme ++ codes "://") host_path rest (length b.scheme + 3)
        (sub_size (path_end url) (length b.scheme + 3)) e (omega arith) (ground arith) in
    rw (cut, full) refl

-- The two schemes.
abbrev pub scheme_of : Bool → Text
scheme_of true = https
scheme_of false = http

scheme_of-IsWithout : (secure : Bool) → IsWithout b':' (scheme_of secure)
scheme_of-IsWithout true = (refl, (refl, (refl, (refl, (refl, tt)))))
scheme_of-IsWithout false = (refl, (refl, (refl, (refl, tt))))

scheme_cut :
    (secure : Bool) (rest : Text)
    → substr
        (scheme_of secure ++ (codes "://" ++ rest))
        0
        (find (scheme_of secure ++ (codes "://" ++ rest)) b':')
      ≡ some (scheme_of secure)
scheme_cut secure rest =
    let url = scheme_of secure ++ (codes "://" ++ rest) in
    substr_at url [] (scheme_of secure) (codes "://" ++ rest) 0 (find url b':') refl refl
      (find_at b':' url (scheme_of secure) (codes "//" ++ rest) refl (scheme_of-IsWithout secure))

parse_scheme_found :
    (secure : Bool) (rest : Text)
    → parse_scheme (scheme_of secure ++ (codes "://" ++ rest))
      ≡ parse_host_path
          (record empty_builder { scheme = scheme_of secure })
          (scheme_of secure ++ (codes "://" ++ rest))
unfolding parse_scheme text_eq to_lower
parse_scheme_found true rest = rw (scheme_cut true rest) refl
parse_scheme_found false rest = rw (scheme_cut false rest) refl

cons_of : (secure : Bool) (rest : Text) → (d : ℕ) × (s : Text) × (scheme_of secure ++ rest ≡ d ∷ s)
cons_of true rest = (b'h', codes "ttps" ++ rest, refl)
cons_of false rest = (b'h', codes "ttp" ++ rest, refl)

pub scheme_length : (secure : Bool) → 4 ≤ length (scheme_of secure)
scheme_length true = omega arith
scheme_length false = omega arith

pub not_empty : (s : Text) (c : ℕ) (t : Text) → is_empty (s ++ (c ∷ t)) ≡ false
not_empty [] c t = refl
not_empty (d ∷ s) c t = refl

-- The bytes that end a part of the text or are cut off.
abbrev pub marks : List ℕ
marks = b'?' ∷ b'#' ∷ blanks

-- `Parse` comes to the host, whatever stands behind the path.
pub parse_front_tail :
    (b : Builder) (secure : Bool) (host_path tail : Text)
    → IsFree blanks (scheme_of secure ++ (codes "://" ++ (host_path ++ tail)))
    → path_end (scheme_of secure ++ (codes "://" ++ (host_path ++ tail)))
      ≡ length (scheme_of secure ++ codes "://") + length host_path
    → is_empty host_path ≡ false
    → 7 < length (scheme_of secure ++ (codes "://" ++ (host_path ++ tail)))
    → length (scheme_of secure ++ (codes "://" ++ (host_path ++ tail))) < npos
    → parse b (scheme_of secure ++ (codes "://" ++ (host_path ++ tail)))
      ≡ parse_host
          (record empty_builder { scheme = scheme_of secure })
          (scheme_of secure ++ (codes "://" ++ (host_path ++ tail)))
          host_path
unfolding parse
parse_front_tail b secure host_path tail free at full many short =
    let url = scheme_of secure ++ (codes "://" ++ (host_path ++ tail)) in
    let (d, rest, cons) = cons_of secure (codes "://" ++ (host_path ++ tail)) in
    let trimmed : trim url ≡ url =
      ap trim cons
      ∙ (trim_stays d rest (subst (IsFree blanks) cons free)
            (subst (λ u. length u < npos) cons short)
          ∙ sym cons) in
    let long : leb (length url) 7 ≡ false = ground arith in
    let some_text : is_empty url ≡ false = ap is_empty cons in
    rw (some_text, long, trimmed)
      (parse_scheme_found secure (host_path ++ tail)
        ∙ parse_host_path_found (record empty_builder { scheme = scheme_of secure }) url host_path
            tail (sym (append_assoc (scheme_of secure) (codes "://") (host_path ++ tail))) at full
            short)

-- The same where nothing stands behind it.
pub parse_front :
    (b : Builder) (secure : Bool) (host_path : Text)
    → IsFree marks (scheme_of secure ++ (codes "://" ++ host_path))
    → is_empty host_path ≡ false
    → 7 < length (scheme_of secure ++ (codes "://" ++ host_path))
    → length (scheme_of secure ++ (codes "://" ++ host_path)) < npos
    → parse b (scheme_of secure ++ (codes "://" ++ host_path))
      ≡ parse_host
          (record empty_builder { scheme = scheme_of secure })
          (scheme_of secure ++ (codes "://" ++ host_path))
          host_path
parse_front b secure host_path free full many short =
    let text = λ (t : Text). scheme_of secure ++ (codes "://" ++ t) in
    let same : text (host_path ++ []) ≡ text host_path = ap text (append-nil host_path) in
    let assoc = append_assoc (scheme_of secure) (codes "://") host_path in
    subst
      (λ u. parse b u ≡ parse_host (record empty_builder { scheme = scheme_of secure }) u host_path)
      same
      (parse_front_tail b secure host_path [] (subst (IsFree blanks) (sym same) free.1.1)
        (ap path_end same
          ∙ (path_end_whole (text host_path) free.0 free.1.0
              ∙ (ap length (sym assoc)
                  ∙ length-append (scheme_of secure ++ codes "://") host_path)))
        full (subst (λ u. 7 < length u) (sym same) many)
        (subst (λ u. length u < npos) (sym same) short))
