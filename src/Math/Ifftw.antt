-- ===== src/Math/Ifftw.antt =====
-- math/ifftw.h and math/ifftw.cc: the class `IFFTW`. `R` is double and `C` complex, also the pair of
-- doubles of the FFTW library; `inverse` is what a plan of that library computes, and `noise` what new
-- memory holds. Sizes are not negative. `none` is undefined behaviour.
pub mod Law
pub mod Life
use nbsdk.Prelude.{ℕ, ◌+◌, ◌/◌, Option, none, some, List, [], ◌==◌, if◌then◌else◌}
use nbsdk.Math.Heap.{
  Pointer, null, Cell, M, pure, ◌>>=◌, ◌>>◌, malloc_input, malloc_output, make_plan, destroy_plan,
  free_if, run_plan, fill_input, copy_output,
}

pub record Fields : Type 0 where
  pub in_size : ℕ
  pub out_size : ℕ
  pub plan_ : Pointer
  pub in_ : Pointer
  pub out_ : Pointer

pub record Ifftw (C R : Type 0) : Type 0 where
  pub fields : Fields
  pub heap : List (Option (Cell C R))

-- `std::make_shared<IFFTW>()` sets all to zero, also the plan, which has no initialiser.
abbrev pub zeroed : Fields
zeroed = record { in_size = 0; out_size = 0; plan_ = null; in_ = null; out_ = null }

module _ {C R : Type 0} where
  unfoldable pub create : Ifftw C R
  create = record { fields = zeroed; heap = [] }

  unfoldable pub terminate_fields : Fields → M C R Fields
  terminate_fields o = do
    destroy_plan o.plan_
    in_ ← free_if o.in_
    out_ ← free_if o.out_
    pure (record o { in_ = in_; out_ = out_ })

  unfoldable pub terminate : Ifftw C R → Option (Ifftw C R)
  unfolding terminate_fields
  terminate o = elim (terminate_fields o.fields o.heap) [
    | none ↦ none
    | some (fields, heap) ↦ some (record { fields = fields; heap = heap })
  ]

  -- `~IFFTW`. What is left is the memory that nobody can give back.
  unfoldable pub destroy : Ifftw C R → Option (List (Option (Cell C R)))
  unfolding terminate
  destroy o = elim (terminate o) [ none ↦ none | some o' ↦ some o'.heap ]

  module _ (noise_in : ℕ → C) (noise_out : ℕ → R) where
    unfoldable pub init_fields : ℕ → Fields → M C R Fields
    unfolding terminate_fields
    init_fields n o = do
      ended ← terminate_fields o
      out_ ← malloc_output noise_out n
      in_ ← malloc_input noise_in (n / 2 + 1)
      plan_ ← make_plan n in_ out_
      pure (record { in_size = n / 2 + 1; out_size = n; plan_ = plan_; in_ = in_; out_ = out_ })

    unfoldable pub init : ℕ → Ifftw C R → Option (Ifftw C R)
    unfolding init_fields
    init n o = if o.fields.out_size == n then some o else elim (init_fields n o.fields o.heap) [
      | none ↦ none
      | some (fields, heap) ↦ some (record { fields = fields; heap = heap })
    ]

  module _ (inverse : ℕ → List C → List R) where
    unfoldable pub execute_fields : List R → List C → Fields → M C R (List R)
    unfolding fill_input copy_output
    execute_fields target source o = do
      fill_input (λ (c : C). c) o.in_size source o.in_
      run_plan inverse o.plan_
      copy_output o.out_size o.out_ target

    -- The target and the source may be null.
    unfoldable pub execute :
        Option (List R) → Option (List C) → Ifftw C R → Option (Option (List R) × Ifftw C R)
    unfolding execute_fields
    execute none source o = some (none, o)
    execute (some target) none o = some (some target, o)
    execute (some target) (some source) o = elim (execute_fields target source o.fields o.heap) [
      | none ↦ none
      | some (written, heap) ↦ some (some written, record { fields = o.fields; heap = heap })
    ]
