-- ===== src/Math/Fftw/Law.antt =====
-- `FFTW` does what math/include/fft.h lets a client expect.
use nbsdk.Prelude.{
  ℕ, zero, suc, ◌+◌, ◌/◌, ◌≤◌, ◌≡◌, refl, arith, some, List, [], ◌∷◌, ◌++◌, map, length, take, drop,
  tabulate, length-tabulate, length-take, length-map,
}
use nbsdk.Math.Heap.{to, input, output, plan, fill_input_lem, copy_output_lem}
use nbsdk.Math.Factory.{create_fft}
use nbsdk.Math.Transform.{Transform}
use nbsdk.Math.Fftw.{Fftw, init, execute, terminate}

-- An object of one size with what its two arrays hold.
module _ {R C : Type 0} where
  abbrev pub made : ℕ → List R → List C → Fftw R C
  made n xs ys = record {
    fields = record {
      sample_count = n;
      out_size = n / 2 + 1;
      plan_ = to 2;
      in_ = to 0;
      out_ = to 1;
    };
    heap = some (input xs) ∷ some (output ys) ∷ some (plan n (to 0) (to 1)) ∷ [];
  }

  pub record IsReady (n : ℕ) (o : Fftw R C) : Type 0 where
    pub some_n : 1 ≤ n
    pub samples : List R
    pub spectrum : List C
    pub is_made : o ≡ made n samples spectrum
    pub length_samples : length samples ≡ n
    pub length_spectrum : length spectrum ≡ n / 2 + 1

  pub init-IsReady :
      (noise_in : ℕ → R) (noise_out : ℕ → C) (n : ℕ)
      → 1 ≤ n
      → (o : Fftw R C) × (init noise_in noise_out n create_fft ≡ some o) × IsReady n o
  unfolding init create_fft
  init-IsReady noise_in noise_out zero h = elim h [ ]
  init-IsReady noise_in noise_out (suc n) h = (
    made (suc n) (tabulate (suc n) noise_in) (tabulate (suc n / 2 + 1) noise_out),
    ground arith,
    record {
      some_n = omega arith;
      samples = tabulate (suc n) noise_in;
      spectrum = tabulate (suc n / 2 + 1) noise_out;
      is_made = refl;
      length_samples = length-tabulate (suc n) noise_in;
      length_spectrum = length-tabulate (suc n / 2 + 1) noise_out;
    },
  )

  pub terminate-IsReady :
      (n : ℕ) (o : Fftw R C) → IsReady n o → (o' : Fftw R C) × (terminate o ≡ some o')
  unfolding terminate
  terminate-IsReady n o h = rw h.is_made (_, refl)

module _ {Sample R C : Type 0} (as_double : Sample → R) (dft : ℕ → List R → List C)
    (length-dft : (n : ℕ) (xs : List R) → length (dft n xs) ≡ n / 2 + 1) where
  abbrev pub spectrum_of : ℕ → List Sample → List C
  spectrum_of n source = dft n (map as_double source)

  execute_made :
      (n : ℕ) (xs : List R) (ys : List C) (source : List Sample) (target : List C)
      → 1 ≤ n
      → length xs ≡ n
      → n ≤ length source
      → n / 2 + 1 ≤ length target
      → execute as_double dft (some target) (some source) (made n xs ys)
        ≡ some (
          some (spectrum_of n (take n source) ++ drop (n / 2 + 1) target),
          made n (map as_double (take n source)) (spectrum_of n (take n source)),
        )
  unfolding execute
  execute_made n xs ys source target some_n same long room =
      let filled = map as_double (take n source) in
      rw
        (
          fill_input_lem as_double n source xs 0
              (some (input xs) ∷ some (output ys) ∷ some (plan n (to 0) (to 1)) ∷ []) refl long same
              some_n,
          execute,
        )
        (rw
          (
            copy_output_lem (n / 2 + 1) 1 (dft n filled) target
                (some (input filled)
                  ∷ some (output (dft n filled))
                  ∷ some (plan n (to 0) (to 1))
                  ∷ [])
                refl (length-dft n filled) room,
            execute,
          )
          refl)

  pub execute-IsReady :
      (n : ℕ) (o : Fftw R C) (source : List Sample) (target : List C)
      → IsReady n o
      → n ≤ length source
      → n / 2 + 1 ≤ length target
      → (o' : Fftw R C) × (execute as_double dft (some target) (some source) o
          ≡ some (some (spectrum_of n (take n source) ++ drop (n / 2 + 1) target), o'))
        × IsReady n o'
  execute-IsReady n o source target r long room =
      let filled = map as_double (take n source) in
      let length_filled : length filled ≡ n =
        omega (arith, length-map as_double (take n source), length-take n source) in
      (
        made n filled (dft n filled),
        rw r.is_made
            (execute_made n r.samples r.spectrum source target r.some_n r.length_samples long room),
        record {
          some_n = r.some_n;
          samples = filled;
          spectrum = dft n filled;
          is_made = refl;
          length_samples = length_filled;
          length_spectrum = length-dft n filled;
        },
      )

  -- What the factory makes is a transform.
  abbrev pub fftw_transform : (ℕ → R) → (ℕ → C) → Transform Sample C
  fftw_transform noise_in noise_out = record {
    Object = Fftw R C;
    created = create_fft;
    init = init noise_in noise_out;
    execute = execute as_double dft;
    terminate = terminate;
    reads = λ n. n;
    writes = λ n. n / 2 + 1;
    values = spectrum_of;
    Ready = IsReady;
    init-Ready = init-IsReady noise_in noise_out;
    length-values = λ n xs. length-dft n (map as_double xs);
    execute-Ready = execute-IsReady;
    terminate-Ready = terminate-IsReady;
  }
