-- ===== src/Math/GccPhat.antt =====
-- math/gcc_phat.cc: the end of `GCCPhat::Execute`, which looks for the peak of the cross-correlation
-- that the transforms before it computed. `F` is double, of which only `<` is used; the sizes and the
-- margin are small enough to be exact as doubles. `none` stands for a range that is not one.
pub mod Window
pub mod Peak
pub mod Estimate
mod Tests
use nbsdk.Prelude.{
  ℕ, zero, suc, ◌+◌, ◌-◌, ◌*◌, ◌/◌, Bool, Option, none, some, List, [], ◌∷◌, ◌++◌, ltb, leb,
  if◌then◌else◌, length, take, drop, ◌>>=◌,
}
use nbsdk.Prelude.Int.{ℤ, pos, negsuc}

-- `std::round(n / 2.0)`
abbrev pub half_of : ℕ → ℕ
half_of n = (n + 1) / 2

-- `a - b`
unfoldable pub minus : ℕ → ℕ → ℤ
minus a b = elim (b - a) [ zero ↦ pos (a - b) | suc d ↦ negsuc d ]

-- The margin after the two corrections.
unfoldable pub corrected : ℕ → ℤ → ℤ
corrected n (negsuc k) = if leb (n + suc k) (half_of n) then minus n (half_of n + 1) else negsuc k
corrected n (pos m) =
    let m' = if ltb (half_of n) m then half_of n else m in
    if leb n (half_of n + m') then minus n (half_of n + 1) else pos m'

-- Where the search begins and how many values it looks at. A negative margin gives no range.
unfoldable pub window : ℕ → ℤ → Option (ℕ × ℕ)
window n (negsuc k) = none
window n (pos m) = some (half_of n - m, 2 * m + 1)

module _ {F : Type 0} where
  -- The two halves of the correlation, swapped.
  unfoldable pub shifted : List F → List F
  shifted correlation =
      let half = half_of (length correlation) in drop half correlation ++ take half correlation

  module _ (lt : F → F → Bool) where
    -- `std::max_element`: the first of the largest, with the largest so far and its index.
    unfoldable pub max_from : F → ℕ → ℕ → List F → ℕ
    max_from best at i [] = at
    max_from best at i (x ∷ xs) =
        let larger = lt best x in
        max_from (if larger then x else best) (if larger then i else at) (suc i) xs

    unfoldable pub max_index : List F → ℕ
    max_index [] = 0
    max_index (x ∷ xs) = max_from x 0 1 xs

    -- The lag that `Execute` returns. Half of `len - 1` is the corrected margin.
    unfoldable pub peak_lag : List F → ℤ → Option ℤ
    peak_lag correlation margin = do
      let n = length correlation
      let new_margin = corrected n margin
      (start, len) ← window n new_margin
      let at = max_index (take len (drop start (shifted correlation)))
      some (minus at ((len - 1) / 2))
