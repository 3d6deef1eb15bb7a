-- ===== src/Math/GccPhat/Tests.antt =====
-- Runs of the search for the peak, with natural numbers for doubles, and its theorem at a concrete size.
use nbsdk.Prelude.{[], ◌∷◌, some, none, ◌≡◌, refl, ltb, ◌+◌, ◌*◌, ◌≤◌, ℕ, arith}
use nbsdk.Prelude.Int.{pos, negsuc}
use nbsdk.Math.GccPhat.{half_of, minus, corrected, window, shifted, max_from, max_index, peak_lag}
use nbsdk.Math.GccPhat.Window.{fitting, corrected-window}

-- No delay, an even number of values: the lag is 0.
even : peak_lag ltb (9 ∷ 0 ∷ 0 ∷ 0 ∷ []) (pos 1) ≡ some (pos 0)
unfolding peak_lag minus corrected window shifted max_from max_index
even = refl

-- No delay, an odd number of values: the lag is -1.
odd : peak_lag ltb (9 ∷ 0 ∷ 0 ∷ 0 ∷ 0 ∷ []) (pos 1) ≡ some (negsuc 0)
unfolding peak_lag minus corrected window shifted max_from max_index
odd = refl

-- One value: there is no range.
single : peak_lag ltb (9 ∷ []) (pos 1) ≡ none
unfolding peak_lag minus corrected window
single = refl

corrected-window_run :
    (corrected 8 (pos 5) ≡ pos (fitting 8 5))
    × ((start : ℕ) × (len : ℕ) × (window 8 (corrected 8 (pos 5)) ≡ some (start, len))
        × (start + fitting 8 5 ≡ half_of 8)
        × (len ≡ 2 * fitting 8 5 + 1)
        × (start + len ≤ 8))
corrected-window_run = corrected-window 8 5 (omega arith)
