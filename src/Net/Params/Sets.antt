-- ===== src/Net/Params/Sets.antt =====
-- `std::set<std::string>`: its order, and which values it holds.
use nbsdk.Prelude.{
  Bool, true, false, not, ◌&&◌, ◌||◌, List, [], ◌∷◌, ◌≡◌, refl, Text, arith, inl, inr, Bool-cases,
}
use nbsdk.Net.Strings.{text_eq, text_lt}
use nbsdk.Net.Strings.Order.{
  text_eq_refl, text_eq_path, text_lt_irrefl, text_lt_connex, text_lt_trans,
}
use nbsdk.Net.Params.{add, remove}

-- `x` comes before each of them.
abbrev pub IsBefore : Text → List Text → Type 0
IsBefore x [] = Unit
IsBefore x (y ∷ ys) = (text_lt x y ≡ true) × IsBefore x ys

abbrev pub IsSorted : List Text → Type 0
IsSorted [] = Unit
IsSorted (x ∷ xs) = IsBefore x xs × IsSorted xs

unfoldable pub member : Text → List Text → Bool
member x [] = false
member x (y ∷ ys) = text_eq x y || member x ys

pub IsBefore-trans :
    (x y : Text) (ys : List Text) → text_lt x y ≡ true → IsBefore y ys → IsBefore x ys
IsBefore-trans x y [] l b = tt
IsBefore-trans x y (z ∷ ys) l (m, b) = (text_lt_trans x y z l m, IsBefore-trans x y ys l b)

pub IsBefore-member : (x : Text) (ys : List Text) → IsBefore x ys → member x ys ≡ false
unfolding member
IsBefore-member x [] b = refl
IsBefore-member x (y ∷ ys) (l, b) =
    let rest = IsBefore-member x ys b in
    let same = text_eq_path x y in let irrefl = text_lt_irrefl x in grind arith

pub add-IsBefore :
    (z x : Text) (ys : List Text) → text_lt z x ≡ true → IsBefore z ys → IsBefore z (add x ys)
unfolding add
add-IsBefore z x [] l b = (l, tt)
add-IsBefore z x (y ∷ ys) l (m, b) = elim (Bool-cases (text_eq x y)) [
  | inl e ↦ rw e (m, b)
  | inr e ↦ elim (Bool-cases (text_lt x y)) [
    | inl e' ↦ rw (e, e') (l, (m, b))
    | inr e' ↦ rw (e, e') (m, add-IsBefore z x ys l b)
  ]
]

pub add-IsSorted : (x : Text) (ys : List Text) → IsSorted ys → IsSorted (add x ys)
unfolding add
add-IsSorted x [] s = (tt, tt)
add-IsSorted x (y ∷ ys) (b, s) = elim (Bool-cases (text_eq x y)) [
  | inl e ↦ rw e (b, s)
  | inr e ↦ elim (Bool-cases (text_lt x y)) [
    | inl l ↦ rw (e, l) ((l, IsBefore-trans x y ys l b), (b, s))
    | inr l ↦ rw (e, l) (add-IsBefore y x ys (text_lt_connex x y e l) b, add-IsSorted x ys s)
  ]
]

pub member-add : (x y : Text) (ys : List Text) → member x (add y ys) ≡ (text_eq x y || member x ys)
unfolding member add
member-add x y [] = refl
member-add x y (z ∷ ys) = let rest = member-add x y ys in let same = text_eq_path y z in grind arith

pub remove-IsBefore : (z x : Text) (ys : List Text) → IsBefore z ys → IsBefore z (remove x ys)
unfolding remove
remove-IsBefore z x [] b = tt
remove-IsBefore z x (y ∷ ys) (l, b) = elim (Bool-cases (text_eq x y)) [
  | inl e ↦ rw e b
  | inr e ↦ rw e (l, remove-IsBefore z x ys b)
]

pub remove-IsSorted : (x : Text) (ys : List Text) → IsSorted ys → IsSorted (remove x ys)
unfolding remove
remove-IsSorted x [] s = tt
remove-IsSorted x (y ∷ ys) (b, s) = elim (Bool-cases (text_eq x y)) [
  | inl e ↦ rw e s
  | inr e ↦ rw e (remove-IsBefore y x ys b, remove-IsSorted x ys s)
]

pub member-remove :
    (x y : Text) (ys : List Text)
    → IsSorted ys
    → member x (remove y ys) ≡ (member x ys && not (text_eq x y))
unfolding member remove
member-remove x y [] s = refl
member-remove x y (z ∷ ys) (b, s) =
    let rest = member-remove x y ys s in
    let gone = IsBefore-member z ys b in
    let same = text_eq_path y z in
    let same' = text_eq_path x y in let r = text_eq_refl x in grind arith
