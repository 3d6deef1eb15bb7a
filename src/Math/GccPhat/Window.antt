-- ===== src/Math/GccPhat/Window.antt =====
-- The window of `GCCPhat::Execute` lies inside the correlation.
use nbsdk.Prelude.{
  ℕ, ◌+◌, ◌-◌, ◌*◌, ◌≤◌, true, some, ◌≡◌, refl, ap, arith, inl, inr, Bool-cases, ltb, leb, min,
}
use nbsdk.Prelude.Int.{pos}
use nbsdk.Math.GccPhat.{half_of, minus, corrected, window}

minus-pos : (a b : ℕ) → b ≤ a → minus a b ≡ pos (a - b)
unfolding minus
minus-pos a b h = let none_left : b - a ≡ 0 = omega arith in rw (minus, none_left) refl

-- The smallest of the margin and what is left behind the middle.
abbrev pub fitting : ℕ → ℕ → ℕ
fitting n m = min m (n - (half_of n + 1))

corrected-pos : (n m : ℕ) → 2 ≤ n → corrected n (pos m) ≡ pos (fitting n m)
unfolding corrected
corrected-pos n m h =
    let half_left : half_of n + 1 ≤ n = omega arith in
    let left = minus-pos n (half_of n + 1) half_left in
    elim (Bool-cases (ltb (half_of n) m)) [
      | inl large ↦
          let over : leb n (half_of n + half_of n) ≡ true = ground arith in
          rw (large, over, left) (ap pos (ground arith))
      | inr small ↦ elim (Bool-cases (leb n (half_of n + m))) [
        | inl over ↦ rw (small, over, left) (ap pos (ground arith))
        | inr inside ↦ rw (small, inside) (ap pos (ground arith))
      ]
    ]

-- For a margin that is not negative and at least two values: the corrected margin is the margin, or what
-- is left behind the middle if that is less, and the search then looks at that many values on each side of
-- the middle, all of them inside the correlation.
pub corrected-window :
    (n m : ℕ)
    → 2 ≤ n
    → (corrected n (pos m) ≡ pos (fitting n m))
      × ((start : ℕ) × (len : ℕ) × (window n (corrected n (pos m)) ≡ some (start, len))
          × (start + fitting n m ≡ half_of n)
          × (len ≡ 2 * fitting n m + 1)
          × (start + len ≤ n))
unfolding window
corrected-window n m h =
    let fits = corrected-pos n m h in
    (
      fits,
      (
        half_of n - fitting n m,
        2 * fitting n m + 1,
        ap (window n) fits,
        omega arith,
        refl,
        omega arith,
      ),
    )
