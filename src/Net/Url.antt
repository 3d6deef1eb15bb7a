-- ===== src/Net/Url.antt =====
-- net/http/http_url.cc and net/include/http_url.h: `HttpUrl::Builder`, but for `Parse`. A member
-- returns the new object. The log lines of the guards are not modelled.
pub mod Parse
pub mod View
pub mod Members
pub mod Normal
pub mod Entries
pub mod Queries
pub mod Leaves
pub mod Made
pub mod Segments
pub mod Trip
pub mod Pieces
pub mod Refill
pub mod Tail
pub mod Front
pub mod Free
pub mod Roundtrip
pub mod Parts
pub mod NoPath
mod Tests
use nbsdk.Prelude.{
  ℕ, zero, suc, ◌+◌, ◌-◌, Bool, true, false, ◌&&◌, ◌||◌, Option, none, some, List, [], ◌∷◌, ◌++◌,
  map, Text, ltb, leb, ◌==◌, if◌then◌else◌, length, take, drop, set, ◌>>=◌,
}
use nbsdk.Prelude.Int.{ℤ, pos, negsuc}
use nbsdk.Net.Strings.{codes, is_empty, text_eq, to_lower, split, find, npos, show_ℤ}
use nbsdk.Net.Params

pub record Builder : Type 0 where
  pub scheme : Text
  pub host : Text
  pub port : ℤ
  pub encoded_path_segments : List Text
  pub encoded_query_names_and_values : List (Text × List Text)
  pub encoded_fragment : Text

-- `int port_{-1}`, and what `Clear` leaves.
abbrev pub empty_builder : Builder
empty_builder = record {
  scheme = [];
  host = [];
  port = negsuc 0;
  encoded_path_segments = [];
  encoded_query_names_and_values = [];
  encoded_fragment = [];
}

abbrev pub http : Text
http = codes "http"

abbrev pub https : Text
https = codes "https"

unfoldable pub default_port : Text → ℤ
default_port scheme =
    if text_eq scheme http then pos 80 else if text_eq scheme https then pos 443 else negsuc 0

unfoldable pub set_scheme : Builder → Text → Builder
set_scheme b scheme =
    if text_eq scheme http
    then record b { scheme = http }
    else if text_eq scheme https
    then record b { scheme = https }
    else record b { scheme = http }

-- `std::transform` into a string that begins at an iterator: behind its end is undefined behaviour.
unfoldable pub overwrite : Text → Text → Option Text
overwrite target [] = some target
overwrite [] (c ∷ s) = none
overwrite (d ∷ target) (c ∷ s) = overwrite target s >>= λ t. some (c ∷ t)

unfoldable pub set_host : Builder → Text → Option Builder
set_host b host =
    if is_empty host
    then some b
    else (overwrite [] (map to_lower host) >>= λ h. some (record b { host = h }))

unfoldable pub set_port : Builder → ℤ → Builder
set_port b (negsuc n) = record b { port = negsuc 0 }
set_port b (pos n) =
    if leb n 0 || ltb 65535 n then record b { port = negsuc 0 } else record b { port = pos n }

-- All but the last.
unfoldable pub pop_back : List Text → List Text
pop_back [] = []
pop_back (s ∷ []) = []
pop_back (s ∷ t ∷ segments) = s ∷ pop_back (t ∷ segments)

unfoldable pub pop : Builder → Builder
pop b = record b { encoded_path_segments = pop_back b.encoded_path_segments }

unfoldable pub push : Builder → Text → Builder
push b segment =
    if is_empty segment
    then b
    else if text_eq segment (codes ".")
    then b
    else if text_eq segment (codes "..")
    then pop b
    else record b { encoded_path_segments = b.encoded_path_segments ++ (segment ∷ []) }

unfoldable pub add_encoded_path_segment : Builder → Text → Builder
add_encoded_path_segment b segment = if is_empty segment then b else push b segment

unfoldable pub push_all : Builder → List Text → Builder
push_all b [] = b
push_all b (part ∷ parts) = push_all (if is_empty part then b else push b part) parts

unfoldable pub add_encoded_path_segments : Builder → Text → Builder
add_encoded_path_segments b segments =
    if is_empty segments then b else push_all b (split b'/' segments)

unfoldable pub set_encoded_path_segment : Builder → ℤ → Text → Builder
set_encoded_path_segment b (negsuc n) segment = b
set_encoded_path_segment b (pos i) segment =
    if is_empty segment
    then b
    else if text_eq segment (codes ".") || text_eq segment (codes "..")
    then b
    else if leb (length b.encoded_path_segments) i
    then b
    else record b { encoded_path_segments = set b.encoded_path_segments i segment }

-- `list.erase(it)` at the index `i`
unfoldable pub erase_at : List Text → ℕ → List Text
erase_at [] i = []
erase_at (s ∷ segments) zero = segments
erase_at (s ∷ segments) (suc i) = s ∷ erase_at segments i

unfoldable pub remove_path_segment : Builder → ℤ → Builder
remove_path_segment b (negsuc n) = b
remove_path_segment b (pos i) =
    if leb (length b.encoded_path_segments) i
    then b
    else record b { encoded_path_segments = erase_at b.encoded_path_segments i }

unfoldable pub add_encoded_query_parameter : Builder → Text → Text → Builder
add_encoded_query_parameter b name value =
    if is_empty name then b else elim (Params.find name b.encoded_query_names_and_values) [
      | none ↦ record b {
        encoded_query_names_and_values =
            Params.emplace name (Params.add value []) b.encoded_query_names_and_values;
      }
      | some values ↦ record b {
        encoded_query_names_and_values =
            Params.update name (Params.add value) b.encoded_query_names_and_values;
      }
    ]

-- A name without values goes too.
unfoldable pub with_left : Builder → Text → List (Text × List Text) → List Text → Builder
with_left b name params [] = record b { encoded_query_names_and_values = Params.erase name params }
with_left b name params (_ ∷ _) = record b { encoded_query_names_and_values = params }

unfoldable pub remove_encoded_query_value : Builder → Text → Text → Builder
unfolding with_left
remove_encoded_query_value b name value =
    if is_empty name then b else elim (Params.find name b.encoded_query_names_and_values) [
      | none ↦ b
      | some values ↦
          with_left b name
            (Params.update name (Params.remove value) b.encoded_query_names_and_values)
            (Params.remove value values)
    ]

unfoldable pub remove_encoded_query_parameter : Builder → Text → Builder
remove_encoded_query_parameter b name = if is_empty name then b else record b {
  encoded_query_names_and_values = Params.erase name b.encoded_query_names_and_values;
}

unfoldable pub add_encoded_fragment : Builder → Text → Builder
add_encoded_fragment b fragment =
    if is_empty fragment then b else record b { encoded_fragment = fragment }

unfoldable pub shown_host : Text → Text
shown_host host = if find host b':' == npos then host else b'[' ∷ host ++ (b']' ∷ [])

abbrev pub shown_port : Builder → ℤ
shown_port b = elim b.port [ negsuc zero ↦ default_port b.scheme | port ↦ port ]

unfoldable pub shown_segments : List Text → Text
shown_segments [] = []
shown_segments (s ∷ segments) = b'/' ∷ s ++ shown_segments segments

abbrev pub amp_if : Bool → Text
amp_if true = b'&' ∷ []
amp_if false = []

-- The values of one name, from the index `i` of `n` on.
unfoldable pub shown_values : Text → ℕ → ℕ → List Text → Text
shown_values param n i [] = []
shown_values param n i (value ∷ values) =
    param ++ (b'=' ∷ value ++ amp_if (ltb (suc i) n) ++ shown_values param n (suc i) values)

-- A name without values is not counted.
unfoldable pub shown_params : ℕ → ℕ → List (Text × List Text) → Text
shown_params n i [] = []
shown_params n i ((param, []) ∷ params) = param ++ shown_params n i params
shown_params n i ((param, v ∷ vs) ∷ params) =
    shown_values param (length (v ∷ vs)) 0 (v ∷ vs)
    ++ amp_if (ltb (suc i) n)
    ++ shown_params n (suc i) params

unfoldable pub shown_query : List (Text × List Text) → Text
shown_query [] = []
shown_query (p ∷ params) = b'?' ∷ shown_params (length (p ∷ params)) 0 (p ∷ params)

unfoldable pub shown_fragment : Text → Text
shown_fragment [] = []
shown_fragment (c ∷ fragment) = b'#' ∷ c ∷ fragment

unfoldable pub to_string : Builder → Text
to_string b =
    b.scheme
    ++ (codes "://"
        ++ (shown_host b.host
            ++ (b':'
                ∷ (show_ℤ (shown_port b)
                    ++ (shown_segments b.encoded_path_segments
                        ++ (shown_query b.encoded_query_names_and_values
                            ++ shown_fragment b.encoded_fragment))))))
