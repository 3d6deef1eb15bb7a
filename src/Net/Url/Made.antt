-- ===== src/Net/Url/Made.antt =====
-- The builders that calls of `HttpUrl::Builder` can make.
use nbsdk.Prelude.{some, ◌≡◌, Text}
use nbsdk.Prelude.Int.{ℤ}
use nbsdk.Net.Url.{
  Builder, empty_builder, set_scheme, set_host, set_port, add_encoded_path_segment,
  add_encoded_path_segments, set_encoded_path_segment, remove_path_segment,
  add_encoded_query_parameter, remove_encoded_query_value, remove_encoded_query_parameter,
  add_encoded_fragment,
}
use nbsdk.Net.Url.Parse.{parse}
use nbsdk.Net.Url.Normal.{
  IsNormal, empty_builder-IsNormal, set_scheme-IsNormal, set_host-IsNormal, set_port-IsNormal,
  add_encoded_path_segment-IsNormal, add_encoded_path_segments-IsNormal,
  set_encoded_path_segment-IsNormal, remove_path_segment-IsNormal, add_encoded_fragment-IsNormal,
}
use nbsdk.Net.Url.Entries.{
  add_encoded_query_parameter-IsNormal, remove_encoded_query_value-IsNormal,
  remove_encoded_query_parameter-IsNormal,
}
use nbsdk.Net.Url.Leaves.{left_by, parse-LeavesNormal}

-- One call of a member.
pub data Edit : Builder → Builder → Type 0 where
  scheme : {b : Builder} (s : Text) → Edit b (set_scheme b s)
  host : {b b' : Builder} (s : Text) → set_host b s ≡ some b' → Edit b b'
  port : {b : Builder} (p : ℤ) → Edit b (set_port b p)
  segment : {b : Builder} (s : Text) → Edit b (add_encoded_path_segment b s)
  segments : {b : Builder} (s : Text) → Edit b (add_encoded_path_segments b s)
  segment_at : {b : Builder} (i : ℤ) (s : Text) → Edit b (set_encoded_path_segment b i s)
  no_segment : {b : Builder} (i : ℤ) → Edit b (remove_path_segment b i)
  parameter : {b : Builder} (n v : Text) → Edit b (add_encoded_query_parameter b n v)
  no_value : {b : Builder} (n v : Text) → Edit b (remove_encoded_query_value b n v)
  no_parameter : {b : Builder} (n : Text) → Edit b (remove_encoded_query_parameter b n)
  fragment : {b : Builder} (f : Text) → Edit b (add_encoded_fragment b f)
  parsing : {b b' : Builder} (url : Text) → left_by (parse b url) ≡ some b' → Edit b b'

pub data Made : Builder → Type 0 where
  fresh : Made empty_builder
  edited : {b b' : Builder} → Made b → Edit b b' → Made b'

Edit-IsNormal : {b b' : Builder} → Edit b b' → IsNormal b → IsNormal b'
Edit-IsNormal (scheme s) n = set_scheme-IsNormal _ s n
Edit-IsNormal (host s e) n = set_host-IsNormal _ _ s e n
Edit-IsNormal (port p) n = set_port-IsNormal _ p n
Edit-IsNormal (segment s) n = add_encoded_path_segment-IsNormal _ s n
Edit-IsNormal (segments s) n = add_encoded_path_segments-IsNormal _ s n
Edit-IsNormal (segment_at i s) n = set_encoded_path_segment-IsNormal _ i s n
Edit-IsNormal (no_segment i) n = remove_path_segment-IsNormal _ i n
Edit-IsNormal (parameter m v) n = add_encoded_query_parameter-IsNormal _ m v n
Edit-IsNormal (no_value m v) n = remove_encoded_query_value-IsNormal _ m v n
Edit-IsNormal (no_parameter m) n = remove_encoded_query_parameter-IsNormal _ m n
Edit-IsNormal (fragment f) n = add_encoded_fragment-IsNormal _ f n
Edit-IsNormal (parsing {b} url e) n = (parse-LeavesNormal b url n).normal _ e

-- Whatever calls made a builder, also a `Parse` that failed or threw: none of its path segments is
-- empty, `.` or `..`, its query names are in order and not empty, and each has a set of values that is
-- in order and not empty.
pub Made-IsNormal : {b : Builder} → Made b → IsNormal b
Made-IsNormal fresh = empty_builder-IsNormal
Made-IsNormal (edited m e) = Edit-IsNormal e (Made-IsNormal m)
