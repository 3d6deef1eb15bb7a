-- ===== src/Net/Url/Leaves.antt =====
-- The parts of `HttpUrl::Builder::Parse` keep what every builder satisfies.
use nbsdk.Prelude.{
  ◌+◌, Bool, true, false, Option, none, some, List, [], ◌∷◌, ◌≡◌, refl, sym, subst, Text, some_path,
  ◌∙◌, ◌>>=◌, arith, ◌==◌, if◌then◌else◌, map, length, ◌||◌, leb,
}
use nbsdk.Prelude.Int.{ℤ}
use nbsdk.Net.Strings.{is_empty, find, npos, substr, add_size, sub_size, split, text_eq, to_lower}
use nbsdk.Net.Url.{Builder, empty_builder, http, https, default_port}
use nbsdk.Net.Url.Parse.{
  Parsed, accepted, refused, out_of_range, undefined, or_throw, or_undefined, parse_fragment,
  add_parameter, add_parameters, query_of, parse_query, parse_path, host_of, port_text, port_of,
  parse_host, parse_host_path, parse_scheme, parse, path_end, trim,
}
use nbsdk.Net.Url.Normal.{
  IsNormal, if-IsNormal, other-IsNormal, empty_builder-IsNormal, add_encoded_path_segments-IsNormal,
  add_encoded_fragment-IsNormal,
}
use nbsdk.Net.Url.Entries.{add_encoded_query_parameter-IsNormal}

-- The builder that `Parse` leaves, also when it throws.
abbrev pub left_by : Parsed → Option Builder
left_by (accepted b) = some b
left_by (refused b) = some b
left_by (out_of_range b) = some b
left_by undefined = none

-- What `Parse` leaves, if anything, is normal.
pub record LeavesNormal (p : Parsed) : Type 0 where
  pub normal : (b : Builder) → left_by p ≡ some b → IsNormal b

leaves : (p : Parsed) (b : Builder) → left_by p ≡ some b → IsNormal b → LeavesNormal p
leaves p b e n = record { normal = λ c e'. subst IsNormal (some_path (sym e ∙ e')) n }

or_throw-LeavesNormal {ℓ} :
    {A : Type ℓ} (b : Builder) (o : Option A) (k : A → Parsed)
    → IsNormal b
    → ((a : A) → LeavesNormal (k a))
    → LeavesNormal (or_throw b o k)
or_throw-LeavesNormal b none k n h = leaves _ b refl n
or_throw-LeavesNormal b (some a) k n h = h a

or_undefined-LeavesNormal {ℓ} :
    {A : Type ℓ} (o : Option A) (k : A → Parsed)
    → ((a : A) → LeavesNormal (k a))
    → LeavesNormal (or_undefined o k)
or_undefined-LeavesNormal none k h = record { normal = λ c e. ground arith }
or_undefined-LeavesNormal (some a) k h = h a

if-LeavesNormal :
    (c : Bool) (p q : Parsed) → LeavesNormal p → LeavesNormal q → LeavesNormal (if c then p else q)
if-LeavesNormal true p q n m = n
if-LeavesNormal false p q n m = m

fragment-LeavesNormal :
    (b : Builder) (url : Text) → IsNormal b → LeavesNormal (parse_fragment b url)
unfolding parse_fragment
fragment-LeavesNormal b url n = if-LeavesNormal (find url b'#' == npos) _ _ (leaves _ _ refl n) (
    or_throw-LeavesNormal b (substr url (add_size (find url b'#') 1) npos) _ n
      (λ f. leaves _ _ refl (add_encoded_fragment-IsNormal b f n)))

-- The same of the part of `Parse` that adds one parameter.
record GivesNormal (o : Option Builder) : Type 0 where
  given : (b : Builder) → o ≡ some b → IsNormal b

gives : (b : Builder) → IsNormal b → GivesNormal (some b)
gives b n = record { given = λ c e. subst IsNormal (some_path e) n }

if-GivesNormal :
    (c : Bool) (p q : Option Builder)
    → GivesNormal p
    → GivesNormal q
    → GivesNormal (if c then p else q)
if-GivesNormal true p q n m = n
if-GivesNormal false p q n m = m

bind-GivesNormal :
    (o : Option Text) (k : Text → Option Builder)
    → ((s : Text) → GivesNormal (k s))
    → GivesNormal (o >>= k)
bind-GivesNormal none k h = record { given = λ c e. ground arith }
bind-GivesNormal (some s) k h = h s

add_parameter-GivesNormal : (b : Builder) (s : Text) → IsNormal b → GivesNormal (add_parameter b s)
unfolding add_parameter
add_parameter-GivesNormal b s n =
    if-GivesNormal (find s b'=' == npos) _ _
      (gives _ (add_encoded_query_parameter-IsNormal b s [] n))
      (bind-GivesNormal (substr s 0 (find s b'=')) _ (λ param.
        bind-GivesNormal (substr s (add_size (find s b'=') 1) npos) _
          (λ value. gives _ (add_encoded_query_parameter-IsNormal b param value n))))

after-LeavesNormal :
    (b : Builder) (o : Option Builder) (k : Builder → Parsed)
    → IsNormal b
    → GivesNormal o
    → ((b' : Builder) → IsNormal b' → LeavesNormal (k b'))
    → LeavesNormal (or_throw b o k)
after-LeavesNormal b none k n g h = leaves _ b refl n
after-LeavesNormal b (some b') k n g h = h b' (g.given b' refl)

add_parameters-LeavesNormal :
    (b : Builder) (parts : List Text) (k : Builder → Parsed)
    → IsNormal b
    → ((b' : Builder) → IsNormal b' → LeavesNormal (k b'))
    → LeavesNormal (add_parameters b parts k)
unfolding add_parameters
add_parameters-LeavesNormal b [] k n h = h b n
add_parameters-LeavesNormal b (s ∷ parts) k n h =
    after-LeavesNormal b _ _ n
      (if-GivesNormal (is_empty s) _ _ (gives b n) (add_parameter-GivesNormal b s n))
      (λ b' n'. add_parameters-LeavesNormal b' parts k n' h)

query-LeavesNormal : (b : Builder) (url : Text) → IsNormal b → LeavesNormal (parse_query b url)
unfolding parse_query
query-LeavesNormal b url n = or_throw-LeavesNormal b (query_of url) _ n (λ query.
    if-LeavesNormal (is_empty query) _ _ (fragment-LeavesNormal b url n)
      (add_parameters-LeavesNormal b (split b'&' query) _ n (λ b'. fragment-LeavesNormal b' url)))

path-LeavesNormal :
    (b : Builder) (url host_path : Text) → IsNormal b → LeavesNormal (parse_path b url host_path)
unfolding parse_path
path-LeavesNormal b url host_path n =
    or_throw-LeavesNormal b (substr host_path (add_size (find host_path b'/') 1) npos) _ n (λ path.
      query-LeavesNormal _ url (if-IsNormal _ _ _ n (add_encoded_path_segments-IsNormal b path n)))

host-LeavesNormal :
    (b : Builder) (url host_path : Text) → IsNormal b → LeavesNormal (parse_host b url host_path)
unfolding parse_host
host-LeavesNormal b url host_path n =
    let fields =
      λ (host : Text) (port : ℤ). other-IsNormal b b.scheme host port b.encoded_fragment n in
    if-LeavesNormal (find host_path b':' == npos) _ _
      (or_throw-LeavesNormal _ (host_of host_path) _ (fields b.host (default_port b.scheme))
        (λ host. path-LeavesNormal _ url host_path (fields host (default_port b.scheme))))
      (or_throw-LeavesNormal b (substr host_path 0 (find host_path b':')) _ n (λ host.
        or_throw-LeavesNormal _ (port_text host_path (find host_path b':')) _ (fields host b.port)
          (λ port_s.
            or_undefined-LeavesNormal (port_of b.scheme port_s) _
              (λ port. path-LeavesNormal _ url host_path (fields host port)))))

host_path-LeavesNormal :
    (b : Builder) (url : Text) → IsNormal b → LeavesNormal (parse_host_path b url)
unfolding parse_host_path
host_path-LeavesNormal b url n =
    or_throw-LeavesNormal b
      (substr url (length b.scheme + 3) (sub_size (path_end url) (length b.scheme + 3))) _ n
      (λ host_path.
        if-LeavesNormal (is_empty host_path) _ _ (leaves _ _ refl n)
          (host-LeavesNormal b url host_path n))

scheme-LeavesNormal : (url : Text) → LeavesNormal (parse_scheme url)
unfolding parse_scheme
scheme-LeavesNormal url =
    let n = empty_builder-IsNormal in
    let with_scheme = λ (s : Text). other-IsNormal empty_builder s [] empty_builder.port [] n in
    or_throw-LeavesNormal empty_builder (substr url 0 (find url b':')) _ n (λ text.
      if-LeavesNormal (is_empty text) _ _ (leaves _ _ refl n) (
        if-LeavesNormal (text_eq (map to_lower text) http) _ _
          (host_path-LeavesNormal _ url (with_scheme http))
          (if-LeavesNormal (text_eq (map to_lower text) https) _ _
            (host_path-LeavesNormal _ url (with_scheme https)) (leaves _ _ refl n))))

pub parse-LeavesNormal : (b : Builder) (url : Text) → IsNormal b → LeavesNormal (parse b url)
unfolding parse
parse-LeavesNormal b url n =
    if-LeavesNormal (is_empty url || leb (length url) 7) _ _ (leaves _ _ refl n)
      (scheme-LeavesNormal (trim url))
