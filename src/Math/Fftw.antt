-- ===== src/Math/Fftw.antt =====
-- math/fftw.h and math/fftw.cc: the class `FFTW`. `Sample` is int16_t, `R` double and `C` complex, also
-- the pair of doubles of the FFTW library; `dft` is what a plan of that library computes, and `noise`
-- what new memory holds. Sizes are not negative. `none` is undefined behaviour.
pub mod Law
pub mod Life
use nbsdk.Prelude.{ℕ, ◌+◌, ◌/◌, Option, none, some, List, [], map}
use nbsdk.Math.Heap.{
  Pointer, null, Cell, M, pure, ◌>>=◌, ◌>>◌, malloc_input, malloc_output, make_plan, destroy_plan,
  free_if, run_plan, fill_input, copy_output,
}

pub record Fields : Type 0 where
  pub sample_count : ℕ
  pub out_size : ℕ
  pub plan_ : Pointer
  pub in_ : Pointer
  pub out_ : Pointer

pub record Fftw (R C : Type 0) : Type 0 where
  pub fields : Fields
  pub heap : List (Option (Cell R C))

-- `std::make_shared<FFTW>()` sets all to zero, also the plan, which has no initialiser.
abbrev pub zeroed : Fields
zeroed = record { sample_count = 0; out_size = 0; plan_ = null; in_ = null; out_ = null }

module _ {R C : Type 0} where
  unfoldable pub create : Fftw R C
  create = record { fields = zeroed; heap = [] }

  unfoldable pub terminate_fields : Fields → M R C Fields
  terminate_fields o = do
    destroy_plan o.plan_
    in_ ← free_if o.in_
    out_ ← free_if o.out_
    pure (record o { in_ = in_; out_ = out_ })

  unfoldable pub terminate : Fftw R C → Option (Fftw R C)
  unfolding terminate_fields
  terminate o = elim (terminate_fields o.fields o.heap) [
    | none ↦ none
    | some (fields, heap) ↦ some (record { fields = fields; heap = heap })
  ]

  -- `~FFTW`. What is left is the memory that nobody can give back.
  unfoldable pub destroy : Fftw R C → Option (List (Option (Cell R C)))
  unfolding terminate
  destroy o = elim (terminate o) [ none ↦ none | some o' ↦ some o'.heap ]

  module _ (noise_in : ℕ → R) (noise_out : ℕ → C) where
    unfoldable pub init_fields : ℕ → M R C Fields
    init_fields n = do
      in_ ← malloc_input noise_in n
      out_ ← malloc_output noise_out (n / 2 + 1)
      plan_ ← make_plan n in_ out_
      pure
          (record { sample_count = n; out_size = n / 2 + 1; plan_ = plan_; in_ = in_; out_ = out_ })

    unfoldable pub init : ℕ → Fftw R C → Option (Fftw R C)
    unfolding init_fields
    init n o = elim (init_fields n o.heap) [
      | none ↦ none
      | some (fields, heap) ↦ some (record { fields = fields; heap = heap })
    ]

  module _ {Sample : Type 0} (as_double : Sample → R) (dft : ℕ → List R → List C) where
    unfoldable pub execute_fields : List C → List Sample → Fields → M R C (List C)
    unfolding fill_input copy_output
    execute_fields target source o = do
      fill_input as_double o.sample_count source o.in_
      run_plan dft o.plan_
      copy_output o.out_size o.out_ target

    -- The target and the source may be null.
    unfoldable pub execute :
        Option (List C) → Option (List Sample) → Fftw R C → Option (Option (List C) × Fftw R C)
    unfolding execute_fields
    execute none source o = some (none, o)
    execute (some target) none o = some (some target, o)
    execute (some target) (some source) o = elim (execute_fields target source o.fields o.heap) [
      | none ↦ none
      | some (written, heap) ↦ some (some written, record { fields = o.fields; heap = heap })
    ]
