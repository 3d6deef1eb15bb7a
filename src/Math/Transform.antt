-- ===== src/Math/Transform.antt =====
-- math/include/fft.h: the interface of the transforms, as the operations of an object and what a client
-- may rely on. `FFT` is a `Transform` of samples to complex numbers, `IFFT` one of complex to real ones.
-- `none` is undefined behaviour; a caller's array that is not there is `none` too.
use nbsdk.Prelude.{ℕ, ◌≤◌, ◌≡◌, Option, some, List, ◌++◌, length, take, drop}

pub record Transform (A B : Type 0) : Type 1 where
  pub Object : Type 0
  -- What the factory makes.
  pub created : Object
  pub init : ℕ → Object → Option Object
  pub execute : Option (List B) → Option (List A) → Object → Option (Option (List B) × Object)
  pub terminate : Object → Option Object
  -- How many numbers an object of a size reads and writes, and which it writes.
  pub reads : ℕ → ℕ
  pub writes : ℕ → ℕ
  pub values : ℕ → List A → List B
  pub Ready : ℕ → Object → Type 0
  pub init-Ready : (n : ℕ) → 1 ≤ n → (o : Object) × (init n created ≡ some o) × Ready n o
  pub length-values : (n : ℕ) (xs : List A) → length (values n xs) ≡ writes n
  pub execute-Ready :
      (n : ℕ) (o : Object) (xs : List A) (ys : List B)
      → Ready n o
      → reads n ≤ length xs
      → writes n ≤ length ys
      → (o' : Object) × (execute (some ys) (some xs) o
          ≡ some (some (values n (take (reads n) xs) ++ drop (writes n) ys), o'))
        × Ready n o'
  pub terminate-Ready : (n : ℕ) (o : Object) → Ready n o → (o' : Object) × (terminate o ≡ some o')
