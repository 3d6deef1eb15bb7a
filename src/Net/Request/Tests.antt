-- ===== src/Net/Request/Tests.antt =====
-- Runs of `HttpRequest` and its builder, and the theorems about them at concrete inputs.
use nbsdk.Prelude.{none, some, [], ◌≡◌, refl, if◌then◌else◌}
use nbsdk.Net.Strings.{codes, text_eq, text_lt}
use nbsdk.Net.Params
use nbsdk.Net.Params.Maps.{IsOrdered}
use nbsdk.Net.Request.{
  Builder, empty_builder, add_header, remove_header, set_method, build, header, new_builder,
  to_string,
}
use nbsdk.Net.Request.Headers.{
  value_of, or_else, add_header-value_of, remove_header-value_of, header-add_header, fresh, added,
  Made-IsOrdered,
}

shown :
    to_string (build (set_method empty_builder (codes "GET") none))
    ≡ codes "Request{method=GET, url=}"
unfolding to_string build set_method
shown = refl

-- One header, `k: v`.
abbrev one_header : Builder
one_header = add_header empty_builder (codes "k") (codes "v")

one_header-IsOrdered : IsOrdered one_header.headers
one_header-IsOrdered = Made-IsOrdered (added (codes "k") (codes "v") fresh)

add_header-value_of_example :
    value_of (add_header one_header (codes "k") (codes "w")) (codes "k") ≡ (
      if text_eq (codes "k") (codes "k")
      then or_else (value_of one_header (codes "k")) (codes "w")
      else value_of one_header (codes "k"))
add_header-value_of_example =
    add_header-value_of one_header (codes "k") (codes "w") (codes "k") one_header-IsOrdered refl
      refl

remove_header-value_of_run :
    value_of (remove_header one_header (codes "k")) (codes "k")
    ≡ (if text_eq (codes "k") (codes "k") then none else value_of one_header (codes "k"))
remove_header-value_of_run =
    remove_header-value_of one_header (codes "k") (codes "k") one_header-IsOrdered refl

header-add_header_example :
    value_of
      (add_header (new_builder (header (build one_header) (codes "j")).1) (codes "j") (codes "w"))
      (codes "j")
    ≡ some []
unfolding build add_header text_eq text_lt Params.emplace Params.find
header-add_header_example =
    header-add_header (build one_header) (codes "j") (codes "w") one_header-IsOrdered refl refl refl
