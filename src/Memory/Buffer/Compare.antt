-- ===== src/Memory/Buffer/Compare.antt =====
-- `BufferT::operator==` decides whether two buffers hold the same elements.
use nbsdk.Prelude.{
  ℕ, zero, suc, ◌+◌, ◌≤◌, ◌≡◌, ◌↔◌, refl, sym, ap, ap₂, ◌∙◌, Bool, true, false, List, [], ◌∷◌,
  arith, Bool-cases, inl, inr, length, take, ◌==◌, drop, length-drop, ==_iff, get_elem?-some,
  cons_head, cons_tail, take_path, drop_step,
}
use nbsdk.Memory.Checked.{ok}
use nbsdk.Memory.Buffer.{Buffer, array, values, equals, same_elements, memcmp_eq, loop_eq}
use nbsdk.Memory.Buffer.Valid.{IsValid, IsValid-is_consistent, length-values}

module _ {A : Type 0} (differ : A → A → Bool)
    (differ_iff : (x y : A) → (differ x y ≡ false) ↔ (x ≡ y)) where
  cons_ne : (x y : A) (xs ys : List A) → differ x y ≡ true → x ∷ xs ≡ y ∷ ys → ⊥
  cons_ne x y xs ys p e = cc ((differ_iff x y).1 (cons_head e))

  cons_iff :
      (x y : A) (xs ys : List A) (r : Bool)
      → differ x y ≡ false
      → (r ≡ true) ↔ (xs ≡ ys)
      → (r ≡ true) ↔ (x ∷ xs ≡ y ∷ ys)
  cons_iff x y xs ys r p h =
      ((λ e. ap₂ ◌∷◌ ((differ_iff x y).0 p) (h.0 e)), (λ e. h.1 (cons_tail e)))

  memcmp_eq_lem :
      (n : ℕ) (xs ys : List A)
      → n ≤ length xs
      → n ≤ length ys
      → (r : Bool) × (memcmp_eq differ n xs ys ≡ ok r) × ((r ≡ true) ↔ (take n xs ≡ take n ys))
  unfolding memcmp_eq
  memcmp_eq_lem zero xs ys p q = (true, refl, ((λ _. refl), (λ _. refl)))
  memcmp_eq_lem (suc n) [] ys p q = absurd (omega arith)
  memcmp_eq_lem (suc n) (x ∷ xs) [] p q = absurd (omega arith)
  memcmp_eq_lem (suc n) (x ∷ xs) (y ∷ ys) p q =
      let (r, e, h) = memcmp_eq_lem n xs ys (omega arith) (omega arith) in
      elim (Bool-cases (differ x y)) [
        | inl d ↦ (false, rw (e, d) refl, ((λ t. cc), (λ t. absurd (cons_ne x y _ _ d t))))
        | inr d ↦ (r, rw (e, d) refl, cons_iff x y (take n xs) (take n ys) r d h)
      ]

  -- The loop does from index `i` on what `memcmp` does with the rest of the arrays.
  loop_eq_lem :
      (n i : ℕ) (xs ys : List A)
      → i + n ≤ length xs
      → i + n ≤ length ys
      → loop_eq differ n i xs ys ≡ memcmp_eq differ n (drop i xs) (drop i ys)
  unfolding memcmp_eq loop_eq
  loop_eq_lem zero i xs ys p q = refl
  loop_eq_lem (suc n) i xs ys p q =
      let (x, e) = get_elem?-some xs i (omega arith) in
      let (y, f) = get_elem?-some ys i (omega arith) in
      let left = length-drop (i + 1) xs in
      let left' = length-drop (i + 1) ys in
      let (r, rest, _) =
        memcmp_eq_lem n (drop (i + 1) xs) (drop (i + 1) ys) (omega arith) (omega arith) in
      rw (e, f, drop_step i xs x e, drop_step i ys y f)
        (elim (Bool-cases (differ x y)) [
          | inl d ↦ rw (d, rest) refl
          | inr d ↦ rw (d, loop_eq_lem n (i + 1) xs ys (omega arith) (omega arith), rest) refl
        ])

  by_type :
      (is_integral : Bool) (a b : Buffer A)
      → IsValid a
      → IsValid b
      → a.size ≡ b.size
      → same_elements differ is_integral a b
        ≡ memcmp_eq differ a.size (array a.elements) (array b.elements)
  unfolding same_elements
  by_type true a b v w same = refl
  by_type false a b v w same =
      loop_eq_lem a.size 0 (array a.elements) (array b.elements)
        (omega (arith, v.storage, v.size_in)) (omega (arith, w.storage, w.size_in))

  -- Where `!=` of the elements is false exactly for equal ones, as it is for integers and not for a double
  -- that is not a number: on valid buffers, by memcmp as for an integral type or by the loop, `operator==`
  -- fails no check and reads no element outside an array, and answers true exactly if the elements in use
  -- are the same.
  pub equals_lem :
      (is_integral : Bool) (a b : Buffer A)
      → IsValid a
      → IsValid b
      → (r : Bool) × (equals differ is_integral a b ≡ ok r) × ((r ≡ true) ↔ (values a ≡ values b))
  unfolding equals
  equals_lem is_integral a b v w = elim (Bool-cases (a.size == b.size)) [
    | inl p ↦
        let same : a.size ≡ b.size = (==_iff a.size b.size).0 p in
        let (r, e, h) =
          memcmp_eq_lem a.size (array a.elements) (array b.elements)
            (omega (arith, v.storage, v.size_in)) (omega (arith, w.storage, w.size_in)) in
        (
          r,
          rw (IsValid-is_consistent a v, p) (by_type is_integral a b v w same ∙ e),
          (
            (λ t. h.0 t ∙ take_path a.size b.size (array b.elements) same),
            (λ t. h.1 (t ∙ sym (take_path a.size b.size (array b.elements) same))),
          ),
        )
    | inr p ↦ (
      false,
      rw (IsValid-is_consistent a v, p),
      (
        (λ e. cc),
        (λ e. absurd (ground (arith, ap length e, length-values a v, length-values b w))),
      ),
    )
  ]
