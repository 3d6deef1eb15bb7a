-- ===== src/Net/Request/Members.antt =====
-- net/http/http_request.cc: the small members of `HttpRequest`.
use nbsdk.Prelude.{Option, none, some, List, Text}
use nbsdk.Net.Url.View.{HttpUrl}
use nbsdk.Net.Request.{Builder, HttpRequest}

-- `Builder(const sp<HttpRequest>&)`; a null pointer is undefined behaviour.
unfoldable pub builder_of_pointer : Option HttpRequest → Option Builder
builder_of_pointer none = none
builder_of_pointer (some r) =
    some (record { url = r.url; method = r.method; headers = r.headers; body = r.body })

unfoldable pub url : HttpRequest → Option HttpUrl
url r = r.url

unfoldable pub method : HttpRequest → Text
method r = r.method

unfoldable pub headers : HttpRequest → List (Text × Text)
headers r = r.headers
