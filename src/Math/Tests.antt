-- ===== src/Math/Tests.antt =====
-- The theorems on the folder math at concrete objects, with natural numbers for samples, doubles and
-- complex numbers, and transforms that copy.
use nbsdk.Prelude.{
  ℕ, ◌+◌, ◌*◌, ◌/◌, ◌≤◌, ◌≡◌, ◌⊎◌, refl, arith, true, false, none, some, List, [], ◌∷◌, ltb, get_or,
  length, tabulate, length-tabulate,
}
use nbsdk.Prelude.Int.{ℤ, pos}
use nbsdk.Memory.Checked.{ok}
use nbsdk.Math.Transform.{Transform}
use nbsdk.Math.Fftw
use nbsdk.Math.Factory.{create_fft}
use nbsdk.Math.Fftw.Law.{fftw_transform}
use nbsdk.Math.Fftw.Law as Forward
use nbsdk.Math.Fftw.Life.{Used, Used-destroy}
use nbsdk.Math.Ifftw
use nbsdk.Math.Ifftw.Law.{ifftw_transform}
use nbsdk.Math.Ifftw.Law as Backward
use nbsdk.Math.Ifftw.Life.{init_lem}
use nbsdk.Math.GccPhat.{minus, peak_lag}
use nbsdk.Math.GccPhat.Window.{fitting}
use nbsdk.Math.GccPhat.Peak.{IsOrder, seen, peak_lag_lem}
use nbsdk.Math.GccPhat.Estimate.{Numbers, GccPhat, execute}
use nbsdk.Math.GccPhat.Estimate.Delay.{Match, IsReady, correlation_of, execute-correlation_of}

abbrev numbers : Numbers ℕ ℕ
numbers = record {
  zero_real = 0;
  zero_complex = 0;
  least = 1;
  add = ◌+◌;
  times = ◌*◌;
  conjugate = λ z. z;
  magnitude = λ z. z;
  divided = λ z r. z;
  lt = ltb;
}

abbrev dft : ℕ → List ℕ → List ℕ
dft n xs = tabulate (n / 2 + 1) (λ i. get_or xs i 0)

abbrev inverse : ℕ → List ℕ → List ℕ
inverse n zs = tabulate n (λ i. get_or zs i 0)

length-dft : (n : ℕ) (xs : List ℕ) → length (dft n xs) ≡ n / 2 + 1
length-dft n xs = length-tabulate (n / 2 + 1) (λ i. get_or xs i 0)

length-inverse : (n : ℕ) (zs : List ℕ) → length (inverse n zs) ≡ n
length-inverse n zs = length-tabulate n (λ i. get_or zs i 0)

abbrev forward : Transform ℕ ℕ
forward = fftw_transform (λ (s : ℕ). s) dft length-dft (λ i. 0) (λ i. 0)

abbrev backward : Transform ℕ ℕ
backward = ifftw_transform inverse length-inverse (λ i. 0) (λ i. 0)

pair : Match forward backward
pair = record {
  reads-eq = λ n. refl;
  writes-eq = λ n. refl;
  writes-le = λ n h. omega arith;
  back-eq = λ n. refl;
}

abbrev zeros : ℕ → List ℕ
zeros n = tabulate n (λ i. 0)

abbrev four : GccPhat numbers forward backward
four = record {
  sample_count = 4;
  fft = Forward.made 4 (zeros 4) (zeros 3);
  ifft = Backward.made 4 (zeros 3) (zeros 4);
}

forward-IsReady : Forward.IsReady 4 (Forward.made {R = ℕ} {C = ℕ} 4 (zeros 4) (zeros 3))
forward-IsReady = record {
  some_n = omega arith;
  samples = zeros 4;
  spectrum = zeros 3;
  is_made = refl;
  length_samples = refl;
  length_spectrum = refl;
}

backward-IsReady : Backward.IsReady 4 (Backward.made {C = ℕ} {R = ℕ} 4 (zeros 3) (zeros 4))
backward-IsReady = record {
  some_n = omega arith;
  spectrum = zeros 3;
  signal = zeros 4;
  is_made = refl;
  length_spectrum = refl;
  length_signal = refl;
}

four-IsReady : IsReady numbers forward backward 4 four
four-IsReady = record { size = refl; fft_ready = forward-IsReady; ifft_ready = backward-IsReady }

abbrev s₁ : List ℕ
s₁ = 0 ∷ 5 ∷ 1 ∷ 2 ∷ []

abbrev s₂ : List ℕ
s₂ = 3 ∷ 4 ∷ 0 ∷ 1 ∷ []

execute-correlation_of_example :
    (g' : GccPhat numbers forward backward) × (lag : ℤ) × (execute numbers forward backward
        (some s₁)
        (some s₂)
        4
        (pos 1)
        four
      ≡ ok (lag, g'))
    × (peak_lag ltb (correlation_of numbers forward backward 4 s₁ s₂) (pos 1) ≡ some lag)
    × IsReady numbers forward backward 4 g'
execute-correlation_of_example =
    execute-correlation_of numbers forward backward pair 4 1 four s₁ s₂ (omega arith) four-IsReady
      (omega arith) (omega arith)

ltb-IsOrder : IsOrder ltb
ltb-IsOrder = record {
  irrefl = λ a. ground arith;
  trans = λ a b c h k. ground arith;
  negative_trans = λ a b c h k. ground arith;
}

abbrev values : List ℕ
values = 4 ∷ 9 ∷ 2 ∷ 9 ∷ []

peak_lag_lem_example :
    (at : ℕ) × (y : ℕ) × (peak_lag ltb values (pos 1) ≡ some (minus at (fitting 4 1)))
    × (at ≤ 2 * fitting 4 1)
    × (seen values (fitting 4 1) at ≡ some y)
    × (ltb y 4 ≡ false)
    × ((at ≤ 1) ⊎ (ltb 4 y ≡ true))
peak_lag_lem_example = peak_lag_lem ltb-IsOrder values 1 1 4 (omega arith) (omega arith) refl

abbrev object : Fftw.Fftw ℕ ℕ
object = Forward.made 4 (zeros 4) (zeros 3)

object-Used : Used (λ (s : ℕ). s) dft (λ i. 0) (λ i. 0) 4 object
unfolding Fftw.init create_fft
object-Used = Used.starts refl

Used-destroy_example :
    (Fftw.destroy object ≡ some (none ∷ none ∷ none ∷ []))
    × ((o' : Fftw.Fftw ℕ ℕ) × (Fftw.terminate object ≡ some o') × (Fftw.destroy o' ≡ none))
Used-destroy_example =
    Used-destroy (λ (s : ℕ). s) dft (λ i. 0) (λ i. 0) length-dft 4 object (omega arith) object-Used

init_lem_example :
    (Ifftw.init (λ i. 0) (λ i. 0) 4 (Backward.made 4 (zeros 3) (zeros 4))
      ≡ some (Backward.made 4 (zeros 3) (zeros 4)))
    × ((o' : Ifftw.Ifftw ℕ ℕ) × (Ifftw.init
            (λ i. 0)
            (λ i. 0)
            6
            (Backward.made 4 (zeros 3) (zeros 4))
          ≡ some o')
        × (Ifftw.destroy o' ≡ some (none ∷ none ∷ none ∷ none ∷ none ∷ none ∷ [])))
    × ((o' : Ifftw.Ifftw ℕ ℕ) × (Ifftw.terminate (Backward.made 4 (zeros 3) (zeros 4)) ≡ some o')
        × (Ifftw.init (λ i. 0) (λ i. 0) 4 o' ≡ some o')
        × (Ifftw.execute inverse (some (zeros 4)) (some s₁) o' ≡ none))
init_lem_example =
    init_lem inverse (λ i. 0) (λ i. 0) 4 6 (Backward.made 4 (zeros 3) (zeros 4)) (zeros 4) s₁
      backward-IsReady (omega arith) (omega arith)
