-- ===== src/Memory/Buffer/Move.antt =====
-- Moves between `BufferT` objects, and access to the elements.
use nbsdk.Prelude.{
  ℕ, ◌≤◌, ◌<◌, ◌≡◌, refl, true, [], none, some, arith, ltb, Bool-cases, inl, inr, ◌⊎◌, ltb→lt,
  get_elem?, get_elem?-some, get_elem?-take, ◌∙◌,
}
use nbsdk.Memory.Checked.{ok, check_failed}
use nbsdk.Memory.Buffer.{
  Buffer, array, is_consistent, values, get_size, get_capacity, at, move_construct, move_assign,
  move_assign_self, on_moved_from,
}
use nbsdk.Memory.Buffer.Valid.{IsValid, IsValid-is_consistent}

module _ {A : Type 0} where
  abbrev left_over : Buffer A
  left_over = record { size = 0; capacity = 0; elements = none }

  left_over-IsValid : IsValid left_over
  left_over-IsValid = record { storage = refl; size_in = omega arith; small = omega arith }

  -- Both moves take the elements, the capacity and the validity of the source along, whatever the
  -- target held, and leave an empty valid buffer behind.
  pub move_lem :
      (b buf : Buffer A)
      → IsValid b
      → IsValid buf
      → (rest : Buffer A) × (move_construct buf ≡ ok (buf, rest))
        × (move_assign b buf ≡ ok (buf, rest))
        × (values rest ≡ [])
        × IsValid rest
  unfolding move_construct move_assign get_size get_capacity on_moved_from is_consistent
  move_lem b buf v w = (
    left_over,
    simp (IsValid-is_consistent buf w),
    rw (IsValid-is_consistent b v, IsValid-is_consistent buf w),
    refl,
    left_over-IsValid,
  )

  -- A buffer moved onto itself loses its elements: it is empty afterwards, with no capacity, while it
  -- still passes its own check.
  pub move_assign_self_loses :
      (b : Buffer A)
      → IsValid b
      → (b' : Buffer A) × (move_assign_self b ≡ ok b')
        × (values b' ≡ [])
        × (b'.capacity ≡ 0)
        × (is_consistent b' ≡ true)
  unfolding move_assign_self on_moved_from is_consistent
  move_assign_self_loses b v = (
    record b { size = 0; capacity = 0 },
    rw (IsValid-is_consistent b v),
    refl,
    refl,
    ground arith,
  )

  -- `operator[]` gives the element of that index below the size, and fails its check from there on.
  pub at_lem :
      (b : Buffer A) (i : ℕ)
      → IsValid b
      → ((i < b.size) × (x : A) × (at b i ≡ ok x) × (get_elem? (values b) i ≡ some x))
        ⊎ ((b.size ≤ i) × (at b i ≡ check_failed))
  unfolding at
  at_lem b i v = elim (Bool-cases (ltb i b.size)) [
    | inl p ↦
        let below : i < b.size = ltb→lt i b.size p in
        let (x, e) = get_elem?-some (array b.elements) i (omega (arith, v.storage, v.size_in)) in
        inl (
          below,
          x,
          rw (p, IsValid-is_consistent b v, e),
          get_elem?-take b.size (array b.elements) i below ∙ e,
        )
    | inr p ↦ inr (ground arith, rw p)
  ]
