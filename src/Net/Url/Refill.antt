-- ===== src/Net/Url/Refill.antt =====
-- Names and values in their order, added one after the other, give the map that holds them.
use nbsdk.Prelude.{
  true, false, none, some, List, [], ◌∷◌, ◌++◌, ◌≡◌, refl, ap, ◌∙◌, Text, arith, append-nil,
  append_assoc,
}
use nbsdk.Net.Strings.{is_empty, text_eq, text_lt}
use nbsdk.Net.Strings.Order.{text_eq_path, text_eq_refl, text_lt_irrefl, text_lt_trans}
use nbsdk.Net.Params
use nbsdk.Net.Params.Sets.{IsBefore, IsSorted}
use nbsdk.Net.Params.Maps.{All, IsFirst, IsOrdered}
use nbsdk.Net.Url.{Builder, add_encoded_query_parameter}
use nbsdk.Net.Url.Normal.{IsEntry}
use nbsdk.Net.Url.Pieces.{Params, named, pairs_of, add_all}

after_other : (x y : Text) → text_lt x y ≡ true → (text_eq y x ≡ false) × (text_lt y x ≡ false)
after_other x y l =
    let irrefl = text_lt_irrefl x in
    let trans = text_lt_trans x y x l in let same = text_eq_path y x in (grind arith, grind arith)

-- Every text of the list stands before `x`.
abbrev IsAfter : Text → List Text → Type 0
IsAfter x [] = Unit
IsAfter x (y ∷ ys) = (text_lt y x ≡ true) × IsAfter x ys

abbrev IsLast : Text → Params → Type 0
IsLast x [] = Unit
IsLast x ((y, v) ∷ m) = (text_lt y x ≡ true) × IsLast x m

add_last : (x : Text) (ys : List Text) → IsAfter x ys → Params.add x ys ≡ ys ++ (x ∷ [])
unfolding Params.add
add_last x [] a = refl
add_last x (y ∷ ys) (l, a) =
    let (differ, behind) = after_other y x l in rw (differ, behind) (rw (add_last x ys a) refl)

find_last : (x : Text) (m : Params) → IsLast x m → Params.find x m ≡ none
unfolding Params.find
find_last x [] a = refl
find_last x ((y, v) ∷ m) (l, a) = rw ((after_other y x l).0) (find_last x m a)

emplace_last :
    (x : Text) (v : List Text) (m : Params) → IsLast x m → Params.emplace x v m ≡ m ++ ((x, v) ∷ [])
unfolding Params.emplace
emplace_last x v [] a = refl
emplace_last x v ((y, w) ∷ m) (l, a) =
    let (differ, behind) = after_other y x l in rw (differ, behind) (rw (emplace_last x v m a) refl)

find_end :
    (x : Text) (v : List Text) (m : Params)
    → IsLast x m
    → Params.find x (m ++ ((x, v) ∷ [])) ≡ some v
unfolding Params.find
find_end x v [] a = rw (text_eq_refl x) refl
find_end x v ((y, w) ∷ m) (l, a) = rw ((after_other y x l).0) (find_end x v m a)

update_end :
    (x : Text) (f : List Text → List Text) (v : List Text) (m : Params)
    → IsLast x m
    → Params.update x f (m ++ ((x, v) ∷ [])) ≡ m ++ ((x, f v) ∷ [])
unfolding Params.update
update_end x f v [] a = rw (text_eq_refl x) refl
update_end x f v ((y, w) ∷ m) (l, a) = rw ((after_other y x l).0) (rw (update_end x f v m a) refl)

abbrev with_map : Builder → Params → Builder
with_map b m = record b { encoded_query_names_and_values = m }

-- Every one of the values stands behind all of those that are there.
abbrev AreAfter : List Text → List Text → Type 0
AreAfter [] ys = Unit
AreAfter (x ∷ xs) ys = IsAfter x ys × AreAfter xs ys

append-IsAfter :
    (x y : Text) (ys : List Text) → IsAfter x ys → text_lt y x ≡ true → IsAfter x (ys ++ (y ∷ []))
append-IsAfter x y [] a l = (l, tt)
append-IsAfter x y (z ∷ ys) (m, a) l = (m, append-IsAfter x y ys a l)

append-AreAfter :
    (xs : List Text) (y : Text) (ys : List Text)
    → AreAfter xs ys
    → IsBefore y xs
    → AreAfter xs (ys ++ (y ∷ []))
append-AreAfter [] y ys a b = tt
append-AreAfter (x ∷ xs) y ys (h, a) (l, b) =
    (append-IsAfter x y ys h l, append-AreAfter xs y ys a b)

nil-AreAfter : (xs : List Text) → AreAfter xs []
nil-AreAfter [] = tt
nil-AreAfter (x ∷ xs) = (tt, nil-AreAfter xs)

add_value :
    (b : Builder) (m : Params) (name v : Text) (values : List Text)
    → is_empty name ≡ false
    → IsLast name m
    → IsAfter v values
    → add_encoded_query_parameter (with_map b (m ++ ((name, values) ∷ []))) name v
      ≡ with_map b (m ++ ((name, values ++ (v ∷ [])) ∷ []))
unfolding add_encoded_query_parameter
add_value b m name v values full last after =
    rw (full, find_end name values m last)
      (rw (update_end name (Params.add v) values m last) (rw (add_last v values after) refl))

add_values :
    (b : Builder) (m : Params) (name : Text) (values more : List Text) (rest : List (Text × Text))
    → is_empty name ≡ false
    → IsLast name m
    → IsSorted more
    → AreAfter more values
    → add_all (with_map b (m ++ ((name, values) ∷ []))) (named name more ++ rest)
      ≡ add_all (with_map b (m ++ ((name, values ++ more) ∷ []))) rest
unfolding add_all
add_values b m name values [] rest full last sorted after = rw (append-nil values) refl
add_values b m name values (v ∷ more) rest full last (before, sorted) (h, after) =
    ap (λ c. add_all c (named name more ++ rest)) (add_value b m name v values full last h)
    ∙ (add_values b m name (values ++ (v ∷ [])) more rest full last sorted
          (append-AreAfter more v values after before)
        ∙ ap (λ l. add_all (with_map b (m ++ ((name, l) ∷ []))) rest)
            (append_assoc values (v ∷ []) more))

-- The same for the names.
abbrev AreLast : Params → Params → Type 0
AreLast [] m = Unit
AreLast ((x, v) ∷ params) m = IsLast x m × AreLast params m

append-IsLast :
    (x y : Text) (v : List Text) (m : Params)
    → IsLast x m
    → text_lt y x ≡ true
    → IsLast x (m ++ ((y, v) ∷ []))
append-IsLast x y v [] a l = (l, tt)
append-IsLast x y v ((z, w) ∷ m) (h, a) l = (h, append-IsLast x y v m a l)

append-AreLast :
    (params : Params) (y : Text) (v : List Text) (m : Params)
    → AreLast params m
    → IsFirst y params
    → AreLast params (m ++ ((y, v) ∷ []))
append-AreLast [] y v m a b = tt
append-AreLast ((x, w) ∷ params) y v m (h, a) (l, b) =
    (append-IsLast x y v m h l, append-AreLast params y v m a b)

nil-AreLast : (params : Params) → AreLast params []
nil-AreLast [] = tt
nil-AreLast ((x, v) ∷ params) = (tt, nil-AreLast params)

add_first :
    (b : Builder) (m : Params) (name v : Text)
    → is_empty name ≡ false
    → IsLast name m
    → add_encoded_query_parameter (with_map b m) name v ≡ with_map b (m ++ ((name, v ∷ []) ∷ []))
unfolding add_encoded_query_parameter Params.add
add_first b m name v full last =
    rw (full, find_last name m last) (rw (emplace_last name (v ∷ []) m last) refl)

refill :
    (b : Builder) (m params : Params)
    → IsOrdered params
    → All IsEntry params
    → AreLast params m
    → add_all (with_map b m) (pairs_of params) ≡ with_map b (m ++ params)
unfolding add_all
refill b m [] o a l = rw (append-nil m) refl
refill b m ((name, []) ∷ params) o ((full, some_value, sorted), a) l = absurd (some_value refl)
refill b m ((name, v ∷ vs) ∷ params) (first, o) ((full, some_value, (before, sorted)), a) (h, l) =
    ap (λ c. add_all c (named name vs ++ pairs_of params)) (add_first b m name v full h)
    ∙ (add_values b m name (v ∷ []) vs (pairs_of params) full h sorted
          (append-AreAfter vs v [] (nil-AreAfter vs) before)
        ∙ (refill b (m ++ ((name, v ∷ vs) ∷ [])) params o a
              (append-AreLast params name (v ∷ vs) m l first)
            ∙ ap (with_map b) (append_assoc m ((name, v ∷ vs) ∷ []) params)))

-- From a builder without a query.
pub add_all-pairs_of :
    (b : Builder) (params : Params)
    → b.encoded_query_names_and_values ≡ []
    → IsOrdered params
    → All IsEntry params
    → add_all b (pairs_of params) ≡ record b { encoded_query_names_and_values = params }
add_all-pairs_of b params e o a =
    ap (λ m. add_all (with_map b m) (pairs_of params)) e
    ∙ refill b [] params o a (nil-AreLast params)
