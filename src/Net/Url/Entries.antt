-- ===== src/Net/Url/Entries.antt =====
-- The operations of `HttpUrl::Builder` on the query keep what every builder satisfies.
use nbsdk.Prelude.{
  some, List, [], ◌∷◌, ◌≡◌, ◌≢◌, refl, sym, ap, subst, Text, arith, inl, inr, Bool-cases,
  Option-cases, ◌∙◌, some_path, append_cons_ne_nil,
}
use nbsdk.Net.Strings.{is_empty}
use nbsdk.Net.Params.{find, add, remove, update}
use nbsdk.Net.Params.Sets.{add-IsSorted, remove-IsSorted}
use nbsdk.Net.Params.Maps.{
  emplace-IsOrdered, update-IsOrdered, erase-IsOrdered, All, All-emplace, All-update, All-erase,
  erase-update,
}
use nbsdk.Net.Url.{
  Builder, with_left, add_encoded_query_parameter, remove_encoded_query_value,
  remove_encoded_query_parameter,
}
use nbsdk.Net.Url.Normal.{IsNormal, IsEntry, with_params, if-IsNormal}

add_ne_nil : (x : Text) (xs : List Text) → add x xs ≢ []
unfolding add
add_ne_nil x [] e = ground arith
add_ne_nil x (y ∷ ys) e = ground arith

add-IsEntry : (name x : Text) (xs : List Text) → IsEntry name xs → IsEntry name (add x xs)
add-IsEntry name x xs (e, ne, s) = (e, add_ne_nil x xs, add-IsSorted x xs s)

pub add_encoded_query_parameter-IsNormal :
    (b : Builder) (name value : Text)
    → IsNormal b
    → IsNormal (add_encoded_query_parameter b name value)
unfolding add_encoded_query_parameter
add_encoded_query_parameter-IsNormal b name value n =
    let params = b.encoded_query_names_and_values in
    elim (Bool-cases (is_empty name)) [
      | inl e ↦ rw e n
      | inr e ↦ elim (Option-cases (find name params)) [
        | inl free ↦
            rw (e, free)
              (with_params b _ (emplace-IsOrdered name (add value []) params n.ordered)
                (All-emplace IsEntry name (add value []) params
                  (e, add_ne_nil value [], add-IsSorted value [] tt) n.entries)
                n)
        | inr (values, found) ↦
            rw (e, found)
              (with_params b _ (update-IsOrdered name (add value) params n.ordered)
                (All-update IsEntry name (add value) params (λ xs at. add-IsEntry name value xs)
                  n.entries)
                n)
      ]
    ]

pub remove_encoded_query_parameter-IsNormal :
    (b : Builder) (name : Text) → IsNormal b → IsNormal (remove_encoded_query_parameter b name)
unfolding remove_encoded_query_parameter
remove_encoded_query_parameter-IsNormal b name n =
    let params = b.encoded_query_names_and_values in
    if-IsNormal _ _ _ n (
      with_params b _ (erase-IsOrdered name params n.ordered)
        (All-erase IsEntry name params n.entries) n)

with_left-IsNormal :
    (b : Builder) (name value : Text) (values left : List Text)
    → find name b.encoded_query_names_and_values ≡ some values
    → remove value values ≡ left
    → IsNormal b
    → IsNormal (with_left b name (update name (remove value) b.encoded_query_names_and_values) left)
unfolding with_left
with_left-IsNormal b name value values [] found e n =
    let params = b.encoded_query_names_and_values in
    with_params b _ (erase-IsOrdered name _ (update-IsOrdered name (remove value) params n.ordered))
      (subst (All IsEntry) (sym (erase-update name (remove value) params))
        (All-erase IsEntry name params n.entries))
      n
with_left-IsNormal b name value values (x ∷ left) found e n =
    let params = b.encoded_query_names_and_values in
    with_params b _ (update-IsOrdered name (remove value) params n.ordered)
      (All-update IsEntry name (remove value) params
        (λ xs at (named, ne, s). (
          named,
          (λ gone.
              append_cons_ne_nil [] x left
                (sym e ∙ (ap (remove value) (sym (some_path (sym at ∙ found))) ∙ gone))),
          remove-IsSorted value xs s,
        ))
        n.entries)
      n

pub remove_encoded_query_value-IsNormal :
    (b : Builder) (name value : Text)
    → IsNormal b
    → IsNormal (remove_encoded_query_value b name value)
unfolding remove_encoded_query_value
remove_encoded_query_value-IsNormal b name value n =
    let params = b.encoded_query_names_and_values in
    elim (Bool-cases (is_empty name)) [
      | inl e ↦ rw e n
      | inr e ↦ elim (Option-cases (find name params)) [
        | inl free ↦ rw (e, free) n
        | inr (values, found) ↦
            rw (e, found)
              (with_left-IsNormal b name value values (remove value values) found refl n)
      ]
    ]
