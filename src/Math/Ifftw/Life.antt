-- ===== src/Math/Ifftw/Life.antt =====
-- The memory of an `IFFTW` that is initialised more than once.
use nbsdk.Prelude.{
  ℕ, zero, suc, ◌+◌, ◌/◌, ◌≤◌, ◌≡◌, ◌≢◌, refl, arith, Option, none, some, List, [], ◌∷◌, true, ◌==◌,
  tabulate,
}
use nbsdk.Math.Heap.{Cell, null, fill_input, to, input, output, plan}
use nbsdk.Math.Ifftw.{Ifftw, init, execute, terminate, destroy}
use nbsdk.Math.Ifftw.Law.{IsReady}

==_same : (n : ℕ) → (n == n) ≡ true
==_same n = ground arith

module _ {C R : Type 0} (inverse : ℕ → List C → List R) (noise_in : ℕ → C) (noise_out : ℕ → R) where
  -- The object that has given back what it had for its first size.
  made_again : ℕ → Ifftw C R
  made_again n = record {
    fields = record { in_size = n / 2 + 1; out_size = n; plan_ = to 5; in_ = to 4; out_ = to 3 };
    heap =
        none
        ∷ none
        ∷ none
        ∷ some (output (tabulate n noise_out))
        ∷ some (input (tabulate (n / 2 + 1) noise_in))
        ∷ some (plan n (to 4) (to 3))
        ∷ [];
  }

  init_again :
      (n m : ℕ) (o : Ifftw C R)
      → IsReady n o
      → 1 ≤ m
      → n ≢ m
      → init noise_in noise_out m o ≡ some (made_again m)
  unfolding init made_again
  init_again n zero o ready h other = absurd (omega arith)
  init_again n (suc k) o ready h other = rw ready.is_made (ground arith)

  destroy-made_again :
      (m : ℕ) → destroy (made_again m) ≡ some (none ∷ none ∷ none ∷ none ∷ none ∷ none ∷ [])
  unfolding destroy made_again
  destroy-made_again m = refl

  fill_input_null :
      (n : ℕ) (source : List C) (h : List (Option (Cell C R)))
      → 1 ≤ n
      → fill_input (λ (c : C). c) n source null h ≡ none
  unfolding fill_input
  fill_input_null zero source h some_n = absurd (omega arith)
  fill_input_null (suc n) source h some_n = refl

  -- An object that is ready: `Init` of its own size changes nothing; of another size that is not 0, it
  -- gives back all that it had, and the object still gives back the rest when it is destroyed. But after
  -- `Terminate`, `Init` of the same size does nothing either, and `Execute` writes to a null pointer.
  pub init_lem :
      (n m : ℕ) (o : Ifftw C R) (target : List R) (source : List C)
      → IsReady n o
      → 1 ≤ m
      → n ≢ m
      → (init noise_in noise_out n o ≡ some o)
        × ((o' : Ifftw C R) × (init noise_in noise_out m o ≡ some o')
            × (destroy o' ≡ some (none ∷ none ∷ none ∷ none ∷ none ∷ none ∷ [])))
        × ((o' : Ifftw C R) × (terminate o ≡ some o')
            × (init noise_in noise_out n o' ≡ some o')
            × (execute inverse (some target) (some source) o' ≡ none))
  unfolding init terminate execute
  init_lem n m o target source ready h other = (
    rw ready.is_made (rw (==_same n, init) refl),
    (made_again m, init_again n m o ready h other, destroy-made_again m),
    rw ready.is_made (
      _,
      refl,
      rw (==_same n, init) refl,
      rw (fill_input_null (n / 2 + 1) source (none ∷ none ∷ none ∷ []) (omega arith), execute) refl,
    ),
  )
