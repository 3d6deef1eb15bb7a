-- ===== src/Net/Strings/Decimal.antt =====
-- `atoi` reads what `<<` writes of a number.
use nbsdk.Prelude.{
  ℕ, zero, suc, ◌+◌, ◌-◌, ◌*◌, ◌/◌, ◌%◌, ◌<◌, ◌≤◌, true, false, some, [], ◌∷◌, ◌≡◌, refl, sym, ap,
  ◌∙◌, Text, arith, ◌==◌, ltb, leb, inl, inr, Bool-cases,
}
use nbsdk.Prelude.Int.{pos}
use nbsdk.Net.Strings.{digits, value, atoi, signed, positive, is_digit, is_space, int_max, show_ℕ}
use nbsdk.Net.Strings.Search.{IsWithout}

pub digit-is_digit : (d : ℕ) → d < 10 → is_digit (48 + d) ≡ true
digit-is_digit d h = ground arith

value_digit : (m d : ℕ) (rest : Text) → d < 10 → value m ((48 + d) ∷ rest) ≡ value (m * 10 + d) rest
unfolding value
value_digit m d rest h =
    let isd = digit-is_digit d h in let back : 48 + d - 48 ≡ d = omega arith in rw (isd, back) refl

shorter : (fuel n : ℕ) → n < suc fuel → ltb n 10 ≡ false → n / 10 < fuel
shorter fuel n h large = let big : 10 ≤ n = ground arith in omega arith

differs : (c d : ℕ) → is_digit c ≡ false → d < 10 → (48 + d == c) ≡ false
differs c d e h = ground arith

value-digits : (fuel n : ℕ) (rest : Text) → n < fuel → value 0 (digits fuel n rest) ≡ value n rest
unfolding digits
value-digits zero n rest h = ground arith
value-digits (suc fuel) n rest h = elim (Bool-cases (ltb n 10)) [
  | inl small ↦
      rw small (value_digit 0 n rest (ground arith) ∙ ap (λ m. value m rest) (omega arith))
  | inr large ↦ rw large (
      value-digits fuel (n / 10) ((48 + n % 10) ∷ rest) (shorter fuel n h large)
      ∙ (value_digit (n / 10) (n % 10) rest (omega arith) ∙ ap (λ m. value m rest) (omega arith)))
]

digits-front :
    (fuel n : ℕ) (rest : Text)
    → n < fuel
    → (c : ℕ) × (s : Text) × (digits fuel n rest ≡ c ∷ s) × (is_digit c ≡ true)
unfolding digits
digits-front zero n rest h = ground arith
digits-front (suc fuel) n rest h = elim (Bool-cases (ltb n 10)) [
  | inl small ↦ (48 + n, rest, rw small refl, digit-is_digit n (ground arith))
  | inr large ↦
      let (c, s, e, d) =
        digits-front fuel (n / 10) ((48 + n % 10) ∷ rest) (shorter fuel n h large) in
      (c, s, rw large e, d)
]

pub digits-IsWithout :
    (c fuel n : ℕ) (rest : Text)
    → is_digit c ≡ false
    → IsWithout c rest
    → IsWithout c (digits fuel n rest)
unfolding digits
digits-IsWithout c zero n rest d w = w
digits-IsWithout c (suc fuel) n rest d w = elim (Bool-cases (ltb n 10)) [
  | inl small ↦ rw small (differs c n d (ground arith), w)
  | inr large ↦ rw large (
      digits-IsWithout c fuel (n / 10) ((48 + n % 10) ∷ rest) d
        (differs c (n % 10) d (omega arith), w))
]

pub atoi-show_ℕ : (n : ℕ) → n ≤ int_max → atoi (show_ℕ n) ≡ some (pos n)
unfolding atoi signed positive value
atoi-show_ℕ n h =
    let (c, s, e, d) = digits-front (suc n) n [] (omega arith) in
    let whole : value 0 (c ∷ s) ≡ n =
      sym (ap (value 0) e) ∙ value-digits (suc n) n [] (omega arith) in
    let no_space : is_space c ≡ false = ground arith in
    let no_minus : (c == b'-') ≡ false = ground arith in
    let no_plus : (c == b'+') ≡ false = ground arith in
    let fits : leb n int_max ≡ true = ground arith in
    rw (e, no_space, no_minus, no_plus, whole, fits) refl

pub show_ℕ_cons : (n : ℕ) → (c : ℕ) × (s : Text) × (show_ℕ n ≡ c ∷ s)
show_ℕ_cons n = let (c, s, e, d) = digits-front (suc n) n [] (omega arith) in (c, s, e)

pub show_ℕ-IsWithout : (c n : ℕ) → is_digit c ≡ false → IsWithout c (show_ℕ n)
show_ℕ-IsWithout c n d = digits-IsWithout c (suc n) n [] d tt
