-- ===== src/Memory/Buffer/Valid.antt =====
-- The invariant of `BufferT`, which is stronger than what `IsConsistent` tests: the array has as many
-- elements as the object believes.
use nbsdk.Prelude.{
  ℕ, ◌^◌, ◌≤◌, ◌<◌, max, ◌≡◌, refl, inl, inr, true, none, some, arith, ltb, length, length-tabulate,
  length-take, tabulate, Bool-cases, le→leb, ==_iff,
}
use nbsdk.Memory.Checked.{ok}
use nbsdk.Memory.Buffer.{Buffer, array, is_consistent, values, create}

module _ {A : Type 0} where
  pub record IsValid (b : Buffer A) : Type 0 where
    pub storage : length (array b.elements) ≡ b.capacity
    pub size_in : b.size ≤ b.capacity
    pub small : b.capacity < 2 ^ 32

  pub IsValid-is_consistent : (b : Buffer A) → IsValid b → is_consistent b ≡ true
  unfolding is_consistent
  IsValid-is_consistent b v = ground (arith, v.storage, v.size_in)

  pub length-values : (b : Buffer A) → IsValid b → length (values b) ≡ b.size
  length-values b v = omega (arith, v.storage, v.size_in, length-take b.size (array b.elements))

  -- A new buffer of two `uint32_t` sizes is valid, with the size asked for and room for the larger
  -- of the two; no check of the constructor fails.
  pub create-IsValid :
      (memory : ℕ → A) (size capacity : ℕ)
      → size < 2 ^ 32
      → capacity < 2 ^ 32
      → (b : Buffer A) × (create memory size capacity ≡ ok b)
        × (b.size ≡ size)
        × (b.capacity ≡ max size capacity)
        × IsValid b
  unfolding create is_consistent
  create-IsValid memory size capacity s c = elim (Bool-cases (ltb 0 (max size capacity))) [
    | inl p ↦ (
      record {
        size = size;
        capacity = max size capacity;
        elements = some (tabulate (max size capacity) memory);
      },
      rw (p, le→leb size (max size capacity) (omega arith)),
      refl,
      refl,
      record {
        storage = length-tabulate (max size capacity) memory;
        size_in = omega arith;
        small = omega arith;
      },
    )
    | inr p ↦ (
      record { size = size; capacity = max size capacity; elements = none },
      rw (
        p,
        (==_iff (max size capacity) 0).1 (ground arith),
        le→leb size (max size capacity) (omega arith),
      ),
      refl,
      refl,
      record { storage = ground arith; size_in = omega arith; small = omega arith },
    )
  ]
