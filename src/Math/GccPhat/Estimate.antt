-- ===== src/Math/GccPhat/Estimate.antt =====
-- math/gcc_phat.cc: the constructor of `GCCPhat` and the whole of `Execute`, over the two interfaces of
-- math/include/fft.h. `Sample` is int16_t, `R` double and `C` complex; what the code calculates with them
-- is a parameter, as is whether two doubles are in order.
pub mod Delay
use nbsdk.Prelude.{
  ℕ, zero, suc, ◌==◌, Bool, Option, none, some, List, [], ◌∷◌, if◌then◌else◌, tabulate,
}
use nbsdk.Prelude.Int.{ℤ, negsuc}
use nbsdk.Memory.Checked.{Result, ok, undefined, check, or_undefined, ◌>>=◌, ◌>>◌}
use nbsdk.Math.Transform.{Transform}
use nbsdk.Math.GccPhat.{peak_lag}

pub record Numbers (R C : Type 0) : Type 0 where
  pub zero_real : R
  pub zero_complex : C
  -- `FLT_MIN`
  pub least : R
  pub add : R → R → R
  pub times : C → C → C
  pub conjugate : C → C
  pub magnitude : C → R
  pub divided : C → R → C
  pub lt : R → R → Bool

-- What `data()` of a vector points to: nothing, if it is empty.
abbrev pub data_of {ℓ} : {A : Type ℓ} → List A → Option (List A)
data_of [] = none
data_of (x ∷ xs) = some (x ∷ xs)

-- The vector after a call that may have written to it.
abbrev pub vector {ℓ} : {A : Type ℓ} → Option (List A) → List A
vector none = []
vector (some xs) = xs

module _ {Sample C R : Type 0} (numbers : Numbers R C) (forward : Transform Sample C)
    (backward : Transform C R) where
  open numbers use {zero_real, zero_complex, least, add, times, conjugate, magnitude, divided, lt}

  pub record GccPhat : Type 0 where
    pub sample_count : ℕ
    pub fft : forward.Object
    pub ifft : backward.Object

  unfoldable pub create : ℕ → Option GccPhat
  create n = elim (forward.init n forward.created) [
    | none ↦ none
    | some fft ↦ elim (backward.init n backward.created) [
      | none ↦ none
      | some ifft ↦ some (record { sample_count = n; fft = fft; ifft = ifft })
    ]
  ]

  -- One round of the loop over the spectra.
  unfoldable pub whitened : C → C → C
  whitened z₂ z₁ = let v = times z₂ (conjugate z₁) in divided v (add (magnitude v) least)

  unfoldable pub whiten : List C → List C → List C
  whiten (z₂ ∷ second) (z₁ ∷ first) = whitened z₂ z₁ ∷ whiten second first
  whiten second first = []

  -- `fft_->Execute(&p, s)` with a vector of `count` zeros.
  unfoldable pub spectrum : ℕ → List Sample → forward.Object → Option (List C × forward.Object)
  spectrum count s fft =
      elim (forward.execute (data_of (tabulate count (λ _. zero_complex))) (some s) fft) [
        | none ↦ none
        | some (written, fft') ↦ some (vector written, fft')
      ]

  unfoldable pub correlate : ℕ → List C → backward.Object → Option (List R × backward.Object)
  correlate count r ifft =
      elim (backward.execute (data_of (tabulate count (λ _. zero_real))) (data_of r) ifft) [
        | none ↦ none
        | some (written, ifft') ↦ some (vector written, ifft')
      ]

  unfoldable pub estimate : List Sample → List Sample → ℕ → ℤ → GccPhat → Result (ℤ × GccPhat)
  unfolding spectrum correlate
  estimate s₁ s₂ count margin g = do
    check (count == g.sample_count)
    (first, fft₁) ← or_undefined (spectrum count s₁ g.fft)
    (second, fft₂) ← or_undefined (spectrum count s₂ fft₁)
    (correlation, ifft') ← or_undefined (correlate count (whiten second first) g.ifft)
    lag ← or_undefined (peak_lag lt correlation margin)
    ok (lag, record g { fft = fft₂; ifft = ifft' })

  -- The arrays of samples may be null.
  unfoldable pub execute :
      Option (List Sample) → Option (List Sample) → ℕ → ℤ → GccPhat → Result (ℤ × GccPhat)
  execute none s₂ count margin g = ok (negsuc 0, g)
  execute (some s₁) none count margin g = ok (negsuc 0, g)
  execute (some s₁) (some s₂) count margin g = estimate s₁ s₂ count margin g
