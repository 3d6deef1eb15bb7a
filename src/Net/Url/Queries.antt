-- ===== src/Net/Url/Queries.antt =====
-- The query of a `HttpUrl::Builder`: which values it holds of which name.
use nbsdk.Prelude.{
  Bool, true, false, not, ◌&&◌, ◌||◌, Option, none, some, List, [], ◌∷◌, ◌≡◌, refl, sym, ap, Text,
  inl, inr, Bool-cases, Option-cases,
}
use nbsdk.Net.Strings.{is_empty, text_eq}
use nbsdk.Net.Strings.Order.{text_eq_path}
use nbsdk.Net.Params.{find, add, remove, update}
use nbsdk.Net.Params.Sets.{member, member-add, member-remove}
use nbsdk.Net.Params.Maps.{All-find, erase-update, find-emplace, find-update, find-erase}
use nbsdk.Net.Url.{
  Builder, with_left, add_encoded_query_parameter, remove_encoded_query_value,
  remove_encoded_query_parameter,
}
use nbsdk.Net.Url.Normal.{IsNormal, IsEntry}

-- Whether the value is in the set that the name has, if it has one.
unfoldable pub holds : Option (List Text) → Text → Bool
holds none value = false
holds (some values) value = member value values

unfoldable pub has : Builder → Text → Text → Bool
has b name value = holds (find name b.encoded_query_names_and_values) value

find_same : (j k : Text) (m : List (Text × List Text)) → text_eq j k ≡ true → find j m ≡ find k m
find_same j k m e = ap (λ x. find x m) (text_eq_path j k e)

and_true : (b : Bool) → (b && true) ≡ b
and_true true = refl
and_true false = refl

and_false : (b : Bool) → (b && false) ≡ false
and_false true = refl
and_false false = refl

-- When the name is not empty, `AddEncodedQueryParameter` makes the builder hold the new pair and what it held,
-- and no other.
pub add_encoded_query_parameter-has :
    (b : Builder) (name value name' value' : Text)
    → is_empty name ≡ false
    → has (add_encoded_query_parameter b name value) name' value'
      ≡ ((text_eq name' name && text_eq value' value) || has b name' value')
unfolding add_encoded_query_parameter has holds member
add_encoded_query_parameter-has b name value name' value' named =
    let params = b.encoded_query_names_and_values in
    elim (Option-cases (find name params)) [
      | inl free ↦
          let new = find-emplace name' name (add value []) params free in
          let put = member-add value' value [] in
          elim (Bool-cases (text_eq name' name)) [
            | inl s ↦ rw (named, free, new, s, find_same name' name params s, free, put) refl
            | inr d ↦ rw (named, free, new, d) refl
          ]
      | inr (values, found) ↦
          let new = find-update name' name (add value) params in
          let put = member-add value' value values in
          elim (Bool-cases (text_eq name' name)) [
            | inl s ↦ rw (named, found, new, s, find_same name' name params s, found, put) refl
            | inr d ↦ rw (named, found, new, d) refl
          ]
    ]

with_left-has :
    (b : Builder) (name value name' value' : Text) (values left : List Text)
    → find name b.encoded_query_names_and_values ≡ some values
    → remove value values ≡ left
    → IsNormal b
    → has
        (with_left b name (update name (remove value) b.encoded_query_names_and_values) left)
        name'
        value'
      ≡ (has b name' value' && not (text_eq name' name && text_eq value' value))
unfolding with_left has holds member
with_left-has b name value name' value' values [] found e n =
    let params = b.encoded_query_names_and_values in
    let new = find-erase name' name params n.ordered in
    let cut =
      member-remove value' value values (All-find IsEntry name values params n.entries found).2 in
    let gone = erase-update name (remove value) params in
    elim (Bool-cases (text_eq name' name)) [
      | inl s ↦ rw (gone, new, s, find_same name' name params s, found, ← cut, e) refl
      | inr d ↦ rw (gone, new, d) (sym (and_true (holds (find name' params) value')))
    ]
with_left-has b name value name' value' values (x ∷ left) found e n =
    let params = b.encoded_query_names_and_values in
    let new = find-update name' name (remove value) params in
    let cut =
      member-remove value' value values (All-find IsEntry name values params n.entries found).2 in
    elim (Bool-cases (text_eq name' name)) [
      | inl s ↦ rw (new, s, find_same name' name params s, found, cut) refl
      | inr d ↦ rw (new, d) (sym (and_true (holds (find name' params) value')))
    ]

-- When the name is not empty and the builder is normal, as every builder is that the members made,
-- `RemoveEncodedQueryParameter` of a name and a value leaves it what it held, less that pair.
pub remove_encoded_query_value-has :
    (b : Builder) (name value name' value' : Text)
    → IsNormal b
    → is_empty name ≡ false
    → has (remove_encoded_query_value b name value) name' value'
      ≡ (has b name' value' && not (text_eq name' name && text_eq value' value))
unfolding remove_encoded_query_value has holds
remove_encoded_query_value-has b name value name' value' n named =
    let params = b.encoded_query_names_and_values in
    elim (Option-cases (find name params)) [
      | inl free ↦ elim (Bool-cases (text_eq name' name)) [
        | inl s ↦ rw (named, free, s, find_same name' name params s, free) refl
        | inr d ↦ rw (named, free, d) (sym (and_true (holds (find name' params) value')))
      ]
      | inr (values, found) ↦
          rw (named, found)
            (with_left-has b name value name' value' values (remove value values) found refl n)
    ]

-- When the name is not empty and the builder is normal, as every builder is that the members made,
-- `RemoveEncodedQueryParameter` of a name leaves it what it held of other names.
pub remove_encoded_query_parameter-has :
    (b : Builder) (name name' value' : Text)
    → IsNormal b
    → is_empty name ≡ false
    → has (remove_encoded_query_parameter b name) name' value'
      ≡ (has b name' value' && not (text_eq name' name))
unfolding remove_encoded_query_parameter has holds
remove_encoded_query_parameter-has b name name' value' n named =
    let params = b.encoded_query_names_and_values in
    let new = find-erase name' name params n.ordered in
    elim (Bool-cases (text_eq name' name)) [
      | inl s ↦ rw (named, new, s) (sym (and_false (holds (find name' params) value')))
      | inr d ↦ rw (named, new, d) (sym (and_true (holds (find name' params) value')))
    ]
