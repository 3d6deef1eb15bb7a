-- ===== src/Net/Url/Members.antt =====
-- net/http/http_url.cc: the small members of `HttpUrl`.
use nbsdk.Prelude.{Text}
use nbsdk.Prelude.Int.{ℤ}
use nbsdk.Net.Url.{Builder}
use nbsdk.Net.Url.View.{HttpUrl, init}

-- `HttpUrl(const HttpUrl&)`
unfoldable pub copy : HttpUrl → HttpUrl
copy u = record {
  url = u.url;
  scheme = u.scheme;
  port = u.port;
  host = u.host;
  fragment = u.fragment;
  path_segments = u.path_segments;
  query_names_and_values = u.query_names_and_values;
}

-- `HttpUrl(const Builder&)`
unfoldable pub from_builder : Builder → HttpUrl
unfolding init
from_builder b = init b

unfoldable pub scheme : HttpUrl → Text
scheme u = u.scheme

unfoldable pub port : HttpUrl → ℤ
port u = u.port

unfoldable pub host : HttpUrl → Text
host u = u.host

unfoldable pub encoded_fragment : HttpUrl → Text
encoded_fragment u = u.fragment

unfoldable pub url : HttpUrl → Text
url u = u.url
