-- ===== src/Net/Request.antt =====
-- net/http/http_request.cc and net/include/http_request.h: `HttpRequest` and its builder. A member
-- returns the new object. A `std::shared_ptr` is an option; a `HttpUrl` is never changed, so it is its
-- value. The log lines of the guards are not modelled.
pub mod Headers
pub mod Members
mod Tests
use nbsdk.Prelude.{ℕ, Bool, Option, none, some, List, [], ◌∷◌, ◌++◌, Text, if◌then◌else◌, ◌>>=◌}
use nbsdk.Net.Strings.{codes, is_empty}
use nbsdk.Net.Params
use nbsdk.Net.Url.View.{HttpUrl, from_text}

-- Which object of the empty struct `RequestBody`.
abbrev pub RequestBody : Type 0
RequestBody = ℕ

pub record Builder : Type 0 where
  pub url : Option HttpUrl
  pub method : Text
  pub headers : List (Text × Text)
  pub body : Option RequestBody

pub record HttpRequest : Type 0 where
  pub url : Option HttpUrl
  pub method : Text
  pub headers : List (Text × Text)
  pub body : Option RequestBody

abbrev pub empty_builder : Builder
empty_builder = record { url = none; method = []; headers = []; body = none }

-- `Builder(const HttpRequest&)`
unfoldable pub builder_of : HttpRequest → Builder
builder_of r = record { url = r.url; method = r.method; headers = r.headers; body = r.body }

-- `Url(const std::string&)`. `none`: the constructor of `HttpUrl` threw, or is undefined.
unfoldable pub set_url_text : Builder → Text → Option Builder
set_url_text b text =
    if is_empty text then some b else (from_text text >>= λ u. some (record b { url = some u }))

unfoldable pub set_url : Builder → HttpUrl → Builder
set_url b u = record b { url = some u }

unfoldable pub add_header : Builder → Text → Text → Builder
add_header b name value =
    if is_empty name
    then b
    else if is_empty value
    then b
    else record b { headers = Params.emplace name value b.headers }

unfoldable pub remove_header : Builder → Text → Builder
remove_header b name =
    if is_empty name then b else record b { headers = Params.erase name b.headers }

unfoldable pub clear_headers : Builder → Builder
clear_headers b = record b { headers = [] }

unfoldable pub set_method : Builder → Text → Option RequestBody → Builder
set_method b method body = if is_empty method then b else record b { method = method; body = body }

-- The test of `Build` only logs.
unfoldable pub build : Builder → HttpRequest
build b = record { url = b.url; method = b.method; headers = b.headers; body = b.body }

abbrev pub url_text : Option HttpUrl → Text
url_text none = []
url_text (some u) = u.url

unfoldable pub to_string : HttpRequest → Text
to_string r =
    codes "Request{method="
    ++ (r.method ++ (codes ", " ++ (codes "url=" ++ (url_text r.url ++ codes "}"))))

-- `headers_[name]`: a name that is not there is put in, with an empty value.
unfoldable pub header : HttpRequest → Text → Text × HttpRequest
header r name = elim (Params.find name r.headers) [
  | none ↦ ([], record r { headers = Params.emplace name [] r.headers })
  | some value ↦ (value, r)
]

unfoldable pub new_builder : HttpRequest → Builder
unfolding builder_of
new_builder r = builder_of r
