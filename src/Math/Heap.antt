-- ===== src/Math/Heap.antt =====
-- What the FFTW library gives to an object of the folder math and takes back. No pointer of such an
-- object leaves it, so each object has a heap of its own: the list of what its addresses hold, where
-- `none` is memory that was given back. Memory is there when it is asked for.
use nbsdk.Prelude.{
  ℕ, zero, suc, ◌≤◌, ◌≡◌, refl, ap, some_path, arith, map, take, drop, Option, none, some, List, [],
  ◌∷◌, append-nil, nil_of_length, take_all, drop_all, ◌++◌, ◌==◌, if◌then◌else◌, length, get_elem?,
  set, tabulate,
}

-- A member that is not initialised holds any address.
pub data Pointer : Type 0 where
  null uninitialised : Pointer
  to : ℕ → Pointer

-- `A` are the numbers that a plan reads, `B` those that it writes. A plan knows its size and the
-- arrays that it was made for.
pub data Cell (A B : Type 0) : Type 0 where
  input : List A → Cell A B
  output : List B → Cell A B
  plan : ℕ → Pointer → Pointer → Cell A B

module _ (A B : Type 0) where
  -- `none` is undefined behaviour.
  abbrev pub M : Type 0 → Type 0
  M X = List (Option (Cell A B)) → Option (X × List (Option (Cell A B)))

module _ {A B : Type 0} where
  abbrev pub pure : {X : Type 0} → X → M A B X
  pure x h = some (x, h)

  infixl 5 ◌>>=◌ ◌>>◌
  abbrev pub ◌>>=◌ : {X Y : Type 0} → M A B X → (X → M A B Y) → M A B Y
  ◌>>=◌ m f h = elim (m h) [ none ↦ none | some (x, h') ↦ f x h' ]

  abbrev pub ◌>>◌ : {Y : Type 0} → M A B (Unit {0}) → M A B Y → M A B Y
  m >> k = m >>= λ _. k

  abbrev pub lift : {X : Type 0} → Option X → M A B X
  lift none h = none
  lift (some x) h = some (x, h)

  -- The cell at a pointer; `none` if it holds nothing.
  abbrev cell_at : List (Option (Cell A B)) → Pointer → Option (Cell A B)
  cell_at h null = none
  cell_at h uninitialised = none
  cell_at h (to a) = elim (get_elem? h a) [ none ↦ none | some c ↦ c ]

  abbrev put : Pointer → Option (Cell A B) → M A B (Unit {0})
  put (to a) c h = some (tt, set h a c)
  put _ c h = none

  -- A new cell, behind the others.
  abbrev pub new : Cell A B → M A B Pointer
  new c h = some (to (length h), h ++ (some c ∷ []))

  -- `fftw_malloc`: what the memory holds at first is arbitrary.
  abbrev pub malloc_input : (ℕ → A) → ℕ → M A B Pointer
  malloc_input memory n = new (input (tabulate n memory))

  abbrev pub malloc_output : (ℕ → B) → ℕ → M A B Pointer
  malloc_output memory n = new (output (tabulate n memory))

  -- `fftw_plan_dft_…`: there is no plan for no numbers.
  abbrev pub make_plan : ℕ → Pointer → Pointer → M A B Pointer
  make_plan n i o = if n == 0 then pure null else new (plan n i o)

  -- `fftw_destroy_plan`, which takes a null pointer too.
  abbrev pub destroy_plan : Pointer → M A B (Unit {0})
  destroy_plan null h = some (tt, h)
  destroy_plan p h = elim (cell_at h p) [ some (plan n i o) ↦ put p none h | _ ↦ none ]

  -- `if (p) { fftw_free(p); p = nullptr; }`
  abbrev pub free_if : Pointer → M A B Pointer
  free_if null h = some (null, h)
  free_if p h = elim (cell_at h p) [
    | some (input xs) ↦ (put p none >> pure null) h
    | some (output ys) ↦ (put p none >> pure null) h
    | _ ↦ none
  ]

  abbrev pub read_input : Pointer → M A B (List A)
  read_input p h = elim (cell_at h p) [ some (input xs) ↦ some (xs, h) | _ ↦ none ]

  abbrev pub read_output : Pointer → M A B (List B)
  read_output p h = elim (cell_at h p) [ some (output ys) ↦ some (ys, h) | _ ↦ none ]

  abbrev pub write_input : Pointer → List A → M A B (Unit {0})
  write_input p xs = put p (some (input xs))

  -- `fftw_execute`. `transform` is what the library computes.
  abbrev pub run_plan : (ℕ → List A → List B) → Pointer → M A B (Unit {0})
  run_plan transform p h = elim (cell_at h p) [
    | some (plan n i o) ↦
        (read_input i >>= λ xs. read_output o >>= λ ys. put o (some (output (transform n xs)))) h
    | _ ↦ none
  ]

-- `for (i = 0; i < n; i++) target[i] = f(source[i])`
unfoldable pub copy_over {ℓ κ} :
    {A : Type ℓ} {B : Type κ} → (A → B) → ℕ → List A → List B → Option (List B)
copy_over f zero source target = some target
copy_over f (suc n) [] target = none
copy_over f (suc n) (x ∷ source) [] = none
copy_over f (suc n) (x ∷ source) (y ∷ target) = elim (copy_over f n source target) [
  | none ↦ none
  | some rest ↦ some (f x ∷ rest)
]

module _ {A B : Type 0} where
  -- The loop that fills the array of a plan from a caller's array, and the one that copies back. A loop
  -- with no rounds touches no array.
  unfoldable pub fill_input : {S : Type 0} → (S → A) → ℕ → List S → Pointer → M A B (Unit {0})
  fill_input f zero source p h = some (tt, h)
  fill_input f (suc n) source p h =
      (read_input p >>= λ target.
      lift (copy_over f (suc n) source target) >>= λ filled. write_input p filled)
        h

  unfoldable pub copy_output : ℕ → Pointer → List B → M A B (List B)
  copy_output zero p target h = some (target, h)
  copy_output (suc n) p target h =
      (read_output p >>= λ source. lift (copy_over (λ (b : B). b) (suc n) source target)) h

module _ {ℓ κ} {A : Type ℓ} {B : Type κ} (f : A → B) where
  pub copy_over_lem :
      (n : ℕ) (source : List A) (target : List B)
      → n ≤ length source
      → n ≤ length target
      → copy_over f n source target ≡ some (map f (take n source) ++ drop n target)
  unfolding copy_over
  copy_over_lem zero source target h k = refl
  copy_over_lem (suc n) [] target h k = absurd (omega arith)
  copy_over_lem (suc n) (x ∷ source) [] h k = absurd (omega arith)
  copy_over_lem (suc n) (x ∷ source) (y ∷ target) h k =
      rw (copy_over_lem n source target (omega arith) (omega arith)) refl

pub map_self {ℓ} : {A : Type ℓ} (xs : List A) → map (λ (a : A). a) xs ≡ xs
map_self [] = refl
map_self (x ∷ xs) = rw (map_self xs) refl

module _ {A B : Type 0} where
  -- The loops on arrays that are long enough, with what the heap is then.
  pub fill_input_lem :
      {S : Type 0} (f : S → A) (n : ℕ) (source : List S) (target : List A) (a : ℕ)
      (h : List (Option (Cell A B)))
      → get_elem? h a ≡ some (some (input target))
      → n ≤ length source
      → length target ≡ n
      → 1 ≤ n
      → fill_input f n source (to a) h ≡ some (tt, set h a (some (input (map f (take n source)))))
  unfolding fill_input
  fill_input_lem f zero source target a h found long same some_n = absurd (omega arith)
  fill_input_lem f (suc n) source target a h found long same some_n = ground (
    arith,
    found,
    copy_over_lem f (suc n) source target,
    drop_all (suc n) target,
    append-nil (map f (take (suc n) source)),
  )

  pub copy_output_lem :
      (n a : ℕ) (source target : List B) (h : List (Option (Cell A B)))
      → get_elem? h a ≡ some (some (output source))
      → length source ≡ n
      → n ≤ length target
      → copy_output n (to a) target h ≡ some (source ++ drop n target, h)
  unfolding copy_output
  copy_output_lem zero a source target h found same long = rw (nil_of_length source same) refl
  copy_output_lem (suc n) a source target h found same long = ground (
    arith,
    found,
    copy_over_lem (λ (b : B). b) (suc n) source target,
    map_self (take (suc n) source),
    take_all (suc n) source,
  )

-- Results that are equal leave equal objects.
pub same_object {ℓ κ} :
    {A : Type ℓ} {B : Type κ} {t t' : A} {o o' : B}
    → ◌≡◌ {A = Option (A × B)} (some (t, o)) (some (t', o'))
    → o ≡ o'
same_object e = ap (λ p. p.1) (some_path e)
