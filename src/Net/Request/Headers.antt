-- ===== src/Net/Request/Headers.antt =====
-- The headers of a `HttpRequest` and of its builder.
use nbsdk.Prelude.{
  Bool, true, false, Option, none, some, [], ◌∷◌, ◌≡◌, refl, sym, ap, subst, ◌∙◌, Text, arith,
  some_path, ◌>>=◌, inl, inr, Bool-cases, Option-cases, if◌then◌else◌,
}
use nbsdk.Net.Strings.{is_empty, text_eq}
use nbsdk.Net.Strings.Order.{text_eq_path, text_eq_refl}
use nbsdk.Net.Params.{find, emplace}
use nbsdk.Net.Params.Maps.{
  IsOrdered, emplace-IsOrdered, erase-IsOrdered, find-emplace, find-erase, emplace_there,
}
use nbsdk.Net.Url.View.{HttpUrl, from_text}
use nbsdk.Net.Request.{
  RequestBody, Builder, HttpRequest, empty_builder, set_url_text, set_url, add_header,
  remove_header, clear_headers, set_method, build, header, new_builder, builder_of,
}

-- The value that the builder has for a name.
unfoldable pub value_of : Builder → Text → Option Text
value_of b name = find name b.headers

abbrev pub or_else : Option Text → Text → Option Text
or_else none value = some value
or_else (some old) value = some old

-- `AddHeader` of a name and a value that are not empty changes that name only, and only if the name has
-- no value: the first value stays. The headers are in order.
pub add_header-value_of :
    (b : Builder) (name value name' : Text)
    → IsOrdered b.headers
    → is_empty name ≡ false
    → is_empty value ≡ false
    → value_of (add_header b name value) name'
      ≡ (if text_eq name' name then or_else (value_of b name) value else value_of b name')
unfolding value_of add_header
add_header-value_of b name value name' o named valued = elim (Option-cases (find name b.headers)) [
  | inl free ↦ rw (named, valued, find-emplace name' name value b.headers free, free) refl
  | inr (old, found) ↦
      rw (named, valued, emplace_there name value old b.headers o found, found)
        (elim (Bool-cases (text_eq name' name)) [
          | inl e ↦ rw e (ap (λ n. find n b.headers) (text_eq_path name' name e) ∙ found)
          | inr e ↦ rw e refl
        ])
]

-- `RemoveHeader` of a name that is not empty takes away that name's value and no other, in a builder
-- whose headers are in order.
pub remove_header-value_of :
    (b : Builder) (name name' : Text)
    → IsOrdered b.headers
    → is_empty name ≡ false
    → value_of (remove_header b name) name'
      ≡ (if text_eq name' name then none else value_of b name')
unfolding value_of remove_header
remove_header-value_of b name name' o named = rw (named, find-erase name' name b.headers o) refl

-- A question for a header that a request does not have: a builder that is then made from the request
-- takes no value for that name any more, since it has the empty one. The request's headers are in order,
-- and neither name nor value is empty.
pub header-add_header :
    (r : HttpRequest) (name value : Text)
    → IsOrdered r.headers
    → is_empty name ≡ false
    → is_empty value ≡ false
    → find name r.headers ≡ none
    → value_of (add_header (new_builder (header r name).1) name value) name ≡ some []
unfolding value_of new_builder builder_of header
header-add_header r name value o named valued free =
    let there = find-emplace name name [] r.headers free in
    let same = text_eq_refl name in
    let asked : Builder = record (builder_of r) { headers = emplace name [] r.headers } in
    let kept =
      add_header-value_of asked name value name (emplace-IsOrdered name [] r.headers o) named
        valued in
    let found : find name (emplace name [] r.headers) ≡ some [] = rw (there, same) refl in
    rw (header, free) (kept ∙ rw (same, found) refl)

-- The builders that calls can make: also from a request that was asked for headers.
pub data Made : Builder → Type 0 where
  fresh : Made empty_builder
  url_text : {b b' : Builder} (s : Text) → Made b → set_url_text b s ≡ some b' → Made b'
  url : {b : Builder} (u : HttpUrl) → Made b → Made (set_url b u)
  added : {b : Builder} (n v : Text) → Made b → Made (add_header b n v)
  removed : {b : Builder} (n : Text) → Made b → Made (remove_header b n)
  cleared : {b : Builder} → Made b → Made (clear_headers b)
  method :
      {b : Builder} (m : Text) (body : Option RequestBody) → Made b → Made (set_method b m body)
  again : {b : Builder} → Made b → Made (new_builder (build b))
  asked : {b : Builder} (n : Text) → Made b → Made (new_builder (header (build b) n).1)

with_url-headers :
    (b b' : Builder) (o : Option HttpUrl)
    → (o >>= λ u. some (record b { url = some u })) ≡ some b'
    → b'.headers ≡ b.headers
with_url-headers b b' none e = ground arith
with_url-headers b b' (some u) e = ap (λ c. c.headers) (sym (some_path e))

set_url_text-headers :
    (b b' : Builder) (s : Text) → set_url_text b s ≡ some b' → b'.headers ≡ b.headers
unfolding set_url_text
set_url_text-headers b b' [] e = ap (λ c. c.headers) (sym (some_path e))
set_url_text-headers b b' (c ∷ s) e = with_url-headers b b' (from_text (c ∷ s)) e

if-IsOrdered :
    (c : Bool) (x y : Builder)
    → IsOrdered x.headers
    → IsOrdered y.headers
    → IsOrdered (if c then x else y).headers
if-IsOrdered true x y o p = o
if-IsOrdered false x y o p = p

header-IsOrdered :
    (r : HttpRequest) (n : Text) → IsOrdered r.headers → IsOrdered (header r n).1.headers
unfolding header
header-IsOrdered r n o = elim (Option-cases (find n r.headers)) [
  | inl free ↦ rw (header, free) (emplace-IsOrdered n [] r.headers o)
  | inr (v, found) ↦ rw (header, found) o
]

pub Made-IsOrdered : {b : Builder} → Made b → IsOrdered b.headers
unfolding add_header remove_header clear_headers set_method set_url new_builder builder_of build
Made-IsOrdered fresh = tt
Made-IsOrdered (url_text {b} {b'} s m e) =
    subst IsOrdered (sym (set_url_text-headers b b' s e)) (Made-IsOrdered m)
Made-IsOrdered (url u m) = Made-IsOrdered m
Made-IsOrdered (added {b} n v m) =
    let o = Made-IsOrdered m in
    if-IsOrdered (is_empty n) _ _ o
      (if-IsOrdered (is_empty v) _ _ o (emplace-IsOrdered n v b.headers o))
Made-IsOrdered (removed {b} n m) =
    let o = Made-IsOrdered m in if-IsOrdered (is_empty n) _ _ o (erase-IsOrdered n b.headers o)
Made-IsOrdered (cleared m) = tt
Made-IsOrdered (method {b} s body m) = let o = Made-IsOrdered m in if-IsOrdered (is_empty s) _ _ o o
Made-IsOrdered (again m) = Made-IsOrdered m
Made-IsOrdered (asked {b} n m) = header-IsOrdered (build b) n (Made-IsOrdered m)
