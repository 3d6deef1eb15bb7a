-- ===== src/Net/Strings/Order.antt =====
-- The order of `std::string`, on which `std::set` and `std::map` stand.
use nbsdk.Prelude.{true, false, [], ◌∷◌, ◌≡◌, refl, Text, arith}
use nbsdk.Net.Strings.{text_eq, text_lt}

pub text_eq_refl : (s : Text) → text_eq s s ≡ true
unfolding text_eq
text_eq_refl [] = refl
text_eq_refl (c ∷ s) = let rest = text_eq_refl s in grind arith

pub text_eq_path : (s t : Text) → text_eq s t ≡ true → s ≡ t
unfolding text_eq
text_eq_path [] [] e = refl
text_eq_path [] (d ∷ t) e = ground arith
text_eq_path (c ∷ s) [] e = ground arith
text_eq_path (c ∷ s) (d ∷ t) e = let rest = text_eq_path s t in grind arith

pub text_lt_irrefl : (s : Text) → text_lt s s ≡ false
unfolding text_lt
text_lt_irrefl [] = refl
text_lt_irrefl (c ∷ s) = let rest = text_lt_irrefl s in grind arith

-- One of the three holds.
pub text_lt_connex : (s t : Text) → text_eq s t ≡ false → text_lt s t ≡ false → text_lt t s ≡ true
unfolding text_eq text_lt
text_lt_connex [] [] e l = ground arith
text_lt_connex [] (d ∷ t) e l = ground arith
text_lt_connex (c ∷ s) [] e l = refl
text_lt_connex (c ∷ s) (d ∷ t) e l = let rest = text_lt_connex s t in grind arith

pub text_lt_trans : (s t u : Text) → text_lt s t ≡ true → text_lt t u ≡ true → text_lt s u ≡ true
unfolding text_lt
text_lt_trans s t [] l m = ground arith
text_lt_trans s [] (e ∷ u) l m = ground arith
text_lt_trans [] (d ∷ t) (e ∷ u) l m = refl
text_lt_trans (c ∷ s) (d ∷ t) (e ∷ u) l m = let rest = text_lt_trans s t u in grind arith
