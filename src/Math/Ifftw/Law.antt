-- ===== src/Math/Ifftw/Law.antt =====
-- `IFFTW` does what math/include/fft.h lets a client expect.
use nbsdk.Prelude.{
  ℕ, zero, suc, ◌+◌, ◌/◌, ◌≤◌, ◌≡◌, refl, arith, some, List, [], ◌∷◌, ◌++◌, length, take, drop,
  tabulate, length-tabulate, length-take,
}
use nbsdk.Math.Heap.{map_self, to, input, output, plan, fill_input_lem, copy_output_lem}
use nbsdk.Math.Factory.{create_ifft}
use nbsdk.Math.Transform.{Transform}
use nbsdk.Math.Ifftw.{Ifftw, init, execute, terminate}

-- An object of one size with what its two arrays hold.
module _ {C R : Type 0} where
  abbrev pub made : ℕ → List C → List R → Ifftw C R
  made n xs ys = record {
    fields = record { in_size = n / 2 + 1; out_size = n; plan_ = to 2; in_ = to 1; out_ = to 0 };
    heap = some (output ys) ∷ some (input xs) ∷ some (plan n (to 1) (to 0)) ∷ [];
  }

  pub record IsReady (n : ℕ) (o : Ifftw C R) : Type 0 where
    pub some_n : 1 ≤ n
    pub spectrum : List C
    pub signal : List R
    pub is_made : o ≡ made n spectrum signal
    pub length_spectrum : length spectrum ≡ n / 2 + 1
    pub length_signal : length signal ≡ n

  pub init-IsReady :
      (noise_in : ℕ → C) (noise_out : ℕ → R) (n : ℕ)
      → 1 ≤ n
      → (o : Ifftw C R) × (init noise_in noise_out n create_ifft ≡ some o) × IsReady n o
  unfolding init create_ifft
  init-IsReady noise_in noise_out zero h = elim h [ ]
  init-IsReady noise_in noise_out (suc n) h = (
    made (suc n) (tabulate (suc n / 2 + 1) noise_in) (tabulate (suc n) noise_out),
    ground arith,
    record {
      some_n = omega arith;
      spectrum = tabulate (suc n / 2 + 1) noise_in;
      signal = tabulate (suc n) noise_out;
      is_made = refl;
      length_spectrum = length-tabulate (suc n / 2 + 1) noise_in;
      length_signal = length-tabulate (suc n) noise_out;
    },
  )

  pub terminate-IsReady :
      (n : ℕ) (o : Ifftw C R) → IsReady n o → (o' : Ifftw C R) × (terminate o ≡ some o')
  unfolding terminate
  terminate-IsReady n o h = rw h.is_made (_, refl)

module _ {C R : Type 0} (inverse : ℕ → List C → List R)
    (length-inverse : (n : ℕ) (xs : List C) → length (inverse n xs) ≡ n) where
  execute_made :
      (n : ℕ) (xs : List C) (ys : List R) (source : List C) (target : List R)
      → length xs ≡ n / 2 + 1
      → n / 2 + 1 ≤ length source
      → n ≤ length target
      → execute inverse (some target) (some source) (made n xs ys)
        ≡ some (
          some (inverse n (take (n / 2 + 1) source) ++ drop n target),
          made n (take (n / 2 + 1) source) (inverse n (take (n / 2 + 1) source)),
        )
  unfolding execute
  execute_made n xs ys source target same long room =
      let filled = take (n / 2 + 1) source in
      rw
        (
          fill_input_lem (λ (c : C). c) (n / 2 + 1) source xs 1
              (some (output ys) ∷ some (input xs) ∷ some (plan n (to 1) (to 0)) ∷ []) refl long same
              (omega arith),
          execute,
        )
        (rw (map_self filled) (
          rw
            (
              copy_output_lem n 0 (inverse n filled) target
                  (some (output (inverse n filled))
                    ∷ some (input filled)
                    ∷ some (plan n (to 1) (to 0))
                    ∷ [])
                  refl (length-inverse n filled) room,
              execute,
            )
            refl))

  pub execute-IsReady :
      (n : ℕ) (o : Ifftw C R) (source : List C) (target : List R)
      → IsReady n o
      → n / 2 + 1 ≤ length source
      → n ≤ length target
      → (o' : Ifftw C R) × (execute inverse (some target) (some source) o
          ≡ some (some (inverse n (take (n / 2 + 1) source) ++ drop n target), o'))
        × IsReady n o'
  execute-IsReady n o source target r long room =
      let filled = take (n / 2 + 1) source in
      (
        made n filled (inverse n filled),
        rw r.is_made (execute_made n r.spectrum r.signal source target r.length_spectrum long room),
        record {
          some_n = r.some_n;
          spectrum = filled;
          signal = inverse n filled;
          is_made = refl;
          length_spectrum = omega (arith, length-take (n / 2 + 1) source);
          length_signal = length-inverse n filled;
        },
      )

  -- What the factory makes is a transform.
  abbrev pub ifftw_transform : (ℕ → C) → (ℕ → R) → Transform C R
  ifftw_transform noise_in noise_out = record {
    Object = Ifftw C R;
    created = create_ifft;
    init = init noise_in noise_out;
    execute = execute inverse;
    terminate = terminate;
    reads = λ n. n / 2 + 1;
    writes = λ n. n;
    values = inverse;
    Ready = IsReady;
    init-Ready = init-IsReady noise_in noise_out;
    length-values = length-inverse;
    execute-Ready = execute-IsReady;
    terminate-Ready = terminate-IsReady;
  }
