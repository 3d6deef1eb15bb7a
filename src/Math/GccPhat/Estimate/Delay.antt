-- ===== src/Math/GccPhat/Estimate/Delay.antt =====
-- `GCCPhat` answers every call for as many samples as it was made for.
use nbsdk.Prelude.{
  ℕ, zero, suc, ◌≤◌, ◌≡◌, refl, sym, ap, ◌∙◌, arith, some, List, [], ◌∷◌, ◌++◌, append-nil, ◌==◌,
  length, take, drop, tabulate, length-tabulate, length-append, length-drop, drop_all,
}
use nbsdk.Prelude.Int.{ℤ, pos}
use nbsdk.Memory.Checked.{ok, check}
use nbsdk.Math.Transform.{Transform}
use nbsdk.Math.GccPhat.{peak_lag}
use nbsdk.Math.GccPhat.Peak.{peak_lag-window_of}
use nbsdk.Math.GccPhat.Estimate.{
  Numbers, GccPhat, create, whiten, spectrum, correlate, estimate, execute,
}

check_same : (n k : ℕ) → n ≡ k → check (n == k) ≡ ok tt
check_same n k h = ground arith

-- The transforms are each other's counterpart: the spectrum of `n` samples has as many numbers as the
-- way back reads, and not more than a vector of `n` holds.
pub record Match {Sample C R : Type 0} (forward : Transform Sample C) (backward : Transform C R)
    : Type 0 where
  pub reads-eq : (n : ℕ) → forward.reads n ≡ n
  pub writes-eq : (n : ℕ) → forward.writes n ≡ backward.reads n
  pub writes-le : (n : ℕ) → 2 ≤ n → forward.writes n ≤ n
  pub back-eq : (n : ℕ) → backward.writes n ≡ n

module _ {Sample C R : Type 0} (numbers : Numbers R C) (forward : Transform Sample C)
    (backward : Transform C R) where
  -- The correlation of two signals, from the half of the spectrum that the transform writes.
  abbrev pub correlation_of : ℕ → List Sample → List Sample → List R
  correlation_of n s₁ s₂ = backward.values n (
      whiten numbers forward backward (forward.values n (take n s₂)) (forward.values n (take n s₁)))

  pub record IsReady (n : ℕ) (g : GccPhat numbers forward backward) : Type 0 where
    pub size : g.sample_count ≡ n
    pub fft_ready : forward.Ready n g.fft
    pub ifft_ready : backward.Ready n g.ifft

  pub create-IsReady :
      (n : ℕ)
      → 1 ≤ n
      → (g : GccPhat numbers forward backward) × (create numbers forward backward n ≡ some g)
        × IsReady n g
  unfolding create
  create-IsReady n h =
      let (fft, made, ready) = forward.init-Ready n h in
      let (ifft, made', ready') = backward.init-Ready n h in
      (
        record { sample_count = n; fft = fft; ifft = ifft },
        rw (made, create) (rw (made', create) refl),
        record { size = refl; fft_ready = ready; ifft_ready = ready' },
      )

  length-whiten :
      (second first : List C)
      → length first ≡ length second
      → length (whiten numbers forward backward second first) ≡ length first
  unfolding whiten
  length-whiten [] [] h = refl
  length-whiten [] (x ∷ first) h = absurd (omega arith)
  length-whiten (y ∷ second) [] h = absurd (omega arith)
  length-whiten (y ∷ second) (x ∷ first) h = omega (arith, length-whiten second first (omega arith))

  -- What stands behind the half spectra changes only what stands behind the product.
  take-whiten :
      (second first behind₂ behind₁ : List C)
      → length first ≡ length second
      → take (length first) (whiten numbers forward backward (second ++ behind₂) (first ++ behind₁))
        ≡ whiten numbers forward backward second first
  unfolding whiten
  take-whiten [] [] behind₂ behind₁ h = refl
  take-whiten [] (x ∷ first) behind₂ behind₁ h = absurd (omega arith)
  take-whiten (y ∷ second) [] behind₂ behind₁ h = absurd (omega arith)
  take-whiten (y ∷ second) (x ∷ first) behind₂ behind₁ h =
      rw (take-whiten second first behind₂ behind₁ (omega arith)) refl

  -- The vector of zeros after the transform has written to it.
  abbrev written : ℕ → List Sample → List C
  written n s =
      forward.values n (take n s)
      ++ drop (forward.writes n) (tabulate n (λ _. numbers.zero_complex))

  module _ (pair : Match forward backward) where
    length-written : (n : ℕ) (s : List Sample) → 2 ≤ n → length (written n s) ≡ n
    length-written n s h =
        let zeros : List C = tabulate n (λ _. numbers.zero_complex) in
        omega (
          arith,
          length-append (forward.values n (take n s)) (drop (forward.writes n) zeros),
          forward.length-values n (take n s),
          length-drop (forward.writes n) zeros,
          length-tabulate n (λ _. numbers.zero_complex),
          pair.writes-le n h,
        )

    spectrum_lem :
        (n : ℕ) (s : List Sample) (fft : forward.Object)
        → 2 ≤ n
        → n ≤ length s
        → forward.Ready n fft
        → (fft' : forward.Object) × (spectrum numbers forward backward n s fft
            ≡ some (written n s, fft'))
          × forward.Ready n fft'
    unfolding spectrum
    spectrum_lem zero s fft h long ready = absurd (omega arith)
    spectrum_lem (suc k) s fft h long ready =
        let n = suc k in
        let zeros : List C = tabulate n (λ _. numbers.zero_complex) in
        let (fft', done, ready') =
          forward.execute-Ready n fft s zeros ready (omega (arith, pair.reads-eq n))
            (omega (arith, pair.writes-le n h, length-tabulate n (λ _. numbers.zero_complex))) in
        (
          fft',
          rw (done, spectrum)
              (ap
                (λ (r : ℕ).
                  some (forward.values n (take r s) ++ drop (forward.writes n) zeros, fft'))
                (pair.reads-eq n)),
          ready',
        )

    correlate_lem :
        (n : ℕ) (r : List C) (ifft : backward.Object)
        → 2 ≤ n
        → length r ≡ n
        → backward.Ready n ifft
        → (ifft' : backward.Object) × (correlate numbers forward backward n r ifft
            ≡ some (backward.values n (take (backward.reads n) r), ifft'))
          × backward.Ready n ifft'
    unfolding correlate
    correlate_lem zero r ifft h long ready = absurd (omega arith)
    correlate_lem (suc k) [] ifft h long ready = absurd (omega arith)
    correlate_lem (suc k) (z ∷ r) ifft h long ready =
        let n = suc k in
        let zeros : List R = tabulate n (λ _. numbers.zero_real) in
        let length_zeros = length-tabulate n (λ _. numbers.zero_real) in
        let (ifft', done, ready') =
          backward.execute-Ready n ifft (z ∷ r) zeros ready
            (omega (arith, pair.writes-le n h, pair.writes-eq n))
            (omega (arith, pair.back-eq n, length_zeros)) in
        (
          ifft',
          rw (done, correlate)
              (rw
                (
                  drop_all (backward.writes n) zeros (omega (arith, pair.back-eq n, length_zeros)),
                  append-nil,
                )
                refl),
          ready',
        )

    half_correlation :
        (n : ℕ) (s₁ s₂ : List Sample)
        → backward.values n (
            take (backward.reads n) (whiten numbers forward backward (written n s₂) (written n s₁)))
          ≡ correlation_of n s₁ s₂
    half_correlation n s₁ s₂ =
        let first = forward.values n (take n s₁) in
        let second = forward.values n (take n s₂) in
        let behind = drop (forward.writes n) (tabulate n (λ _. numbers.zero_complex)) in
        let size : length first ≡ backward.reads n =
          forward.length-values n (take n s₁) ∙ pair.writes-eq n in
        ap (backward.values n) (
          rw (← size) (
            take-whiten second first behind behind
              (forward.length-values n (take n s₁) ∙ sym (forward.length-values n (take n s₂)))))

    -- An object that was made for `n ≥ 2` samples, called with two arrays of at least `n` samples and a
    -- margin that is not negative: nothing is undefined, the lag is that of the peak of the correlation
    -- which the half spectra of the first `n` samples give, and the object can be called again.
    pub execute-correlation_of :
        (n m : ℕ) (g : GccPhat numbers forward backward) (s₁ s₂ : List Sample)
        → 2 ≤ n
        → IsReady n g
        → n ≤ length s₁
        → n ≤ length s₂
        → (g' : GccPhat numbers forward backward) × (lag : ℤ) × (execute numbers forward backward
              (some s₁)
              (some s₂)
              n
              (pos m)
              g
            ≡ ok (lag, g'))
          × (peak_lag numbers.lt (correlation_of n s₁ s₂) (pos m) ≡ some lag)
          × IsReady n g'
    unfolding execute estimate
    execute-correlation_of n m g s₁ s₂ h ready long₁ long₂ =
        let (fft₁, first, ready₁) = spectrum_lem n s₁ g.fft h long₁ ready.fft_ready in
        let (fft₂, second, ready₂) = spectrum_lem n s₂ fft₁ h long₂ ready₁ in
        let second_first = whiten numbers forward backward (written n s₂) (written n s₁) in
        let (ifft', third, ready') =
          correlate_lem n second_first g.ifft h
            (length-whiten (written n s₂) (written n s₁)
                (length-written n s₁ h ∙ sym (length-written n s₂ h))
              ∙ length-written n s₁ h)
            ready.ifft_ready in
        let c = correlation_of n s₁ s₂ in
        let size : length c ≡ n = backward.length-values n _ ∙ pair.back-eq n in
        let found = peak_lag-window_of numbers.lt c m (omega (arith, size)) in
        (
          record g { fft = fft₂; ifft = ifft' },
          _,
          rw (check_same n g.sample_count (sym ready.size), estimate)
              (rw (first, estimate)
                (rw (second, estimate)
                  (rw (third, estimate)
                    (rw (half_correlation n s₁ s₂) (rw (found, estimate) refl))))),
          found,
          record { size = ready.size; fft_ready = ready₂; ifft_ready = ready' },
        )
