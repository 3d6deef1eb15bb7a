-- ===== src/Math/Fftw/Life.antt =====
-- The memory of an `FFTW` from its construction to its destruction.
use nbsdk.Prelude.{
  ℕ, zero, suc, ◌+◌, ◌/◌, ◌≤◌, ◌≡◌, refl, sym, subst, ◌∙◌, arith, Option, none, some, some_path,
  List, [], ◌∷◌, ◌++◌, length, tabulate,
}
use nbsdk.Math.Heap.{same_object, to, input, output, plan}
use nbsdk.Math.Fftw.{Fftw, init, execute, terminate, destroy}
use nbsdk.Math.Factory.{create_fft}
use nbsdk.Math.Fftw.Law.{IsReady, made, init-IsReady, execute-IsReady}

module _ {Sample R C : Type 0} (as_double : Sample → R) (dft : ℕ → List R → List C)
    (noise_in : ℕ → R) (noise_out : ℕ → C) where
  -- An object of a size that a client made and then used, with arrays that are long enough or null.
  pub data Used (n : ℕ) : Fftw R C → Type 0 where
    starts : {o : Fftw R C} → init noise_in noise_out n create_fft ≡ some o → Used n o
    executes :
        {o o' : Fftw R C} (source : List Sample) (target : List C) (t : Option (List C))
        → Used n o
        → n ≤ length source
        → n / 2 + 1 ≤ length target
        → execute as_double dft (some target) (some source) o ≡ some (t, o')
        → Used n o'
    no_target :
        {o o' : Fftw R C} (source : Option (List Sample)) (t : Option (List C))
        → Used n o
        → execute as_double dft none source o ≡ some (t, o')
        → Used n o'
    no_source :
        {o o' : Fftw R C} (target : List C) (t : Option (List C))
        → Used n o
        → execute as_double dft (some target) none o ≡ some (t, o')
        → Used n o'

  module _ (length-dft : (n : ℕ) (xs : List R) → length (dft n xs) ≡ n / 2 + 1) where
    Used-IsReady : (n : ℕ) {o : Fftw R C} → 1 ≤ n → Used n o → IsReady n o
    unfolding execute
    Used-IsReady n h (starts begun) =
        let (o, made_o, ready) = init-IsReady noise_in noise_out n h in
        subst (IsReady n) (some_path (sym made_o ∙ begun)) ready
    Used-IsReady n h (executes source target t before long room done) =
        let (o', done', ready) =
          execute-IsReady as_double dft length-dft n _ source target (Used-IsReady n h before) long
            room in
        subst (IsReady n) (same_object (sym done' ∙ done)) ready
    Used-IsReady n h (no_target source t before done) =
        subst (IsReady n) (same_object done) (Used-IsReady n h before)
    Used-IsReady n h (no_source target t before done) =
        subst (IsReady n) (same_object done) (Used-IsReady n h before)

    -- An object that was made for at least one sample and then used gives all its memory back when it is
    -- destroyed; but if it is terminated first, its plan is destroyed twice, which is undefined.
    pub Used-destroy :
        (n : ℕ) (o : Fftw R C)
        → 1 ≤ n
        → Used n o
        → (destroy o ≡ some (none ∷ none ∷ none ∷ []))
          × ((o' : Fftw R C) × (terminate o ≡ some o') × (destroy o' ≡ none))
    unfolding destroy
    Used-destroy n o h used =
        let ready = Used-IsReady n h used in rw ready.is_made (refl, (_, refl, refl))

module _ {R C : Type 0} (noise_in : ℕ → R) (noise_out : ℕ → C) where
  made_after : ℕ → Fftw R C → Fftw R C
  made_after m o = record {
    fields = record {
      sample_count = m;
      out_size = m / 2 + 1;
      plan_ = to 5;
      in_ = to 3;
      out_ = to 4;
    };
    heap =
        o.heap
        ++ (some (input (tabulate m noise_in))
            ∷ some (output (tabulate (m / 2 + 1) noise_out))
            ∷ some (plan m (to 3) (to 4))
            ∷ []);
  }

  -- An object that is ready and is initialised again, whatever the size: its first arrays and plan are
  -- still there when it is destroyed.
  pub init-destroy :
      (m n : ℕ) (o : Fftw R C)
      → 1 ≤ m
      → (ready : IsReady n o)
      → (o' : Fftw R C) × (init noise_in noise_out m o ≡ some o')
        × (destroy o' ≡ some (o.heap ++ (none ∷ none ∷ none ∷ [])))
  unfolding init destroy made_after
  init-destroy zero n o h ready = absurd (omega arith)
  init-destroy (suc k) n o h ready =
      rw ready.is_made
        (made_after (suc k) (made n ready.samples ready.spectrum), ground arith, refl)
