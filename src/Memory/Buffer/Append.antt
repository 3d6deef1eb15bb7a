-- ===== src/Memory/Buffer/Append.antt =====
-- What `BufferT::AppendData` and `SetData` store, and where the sum of the sizes overflows.
use nbsdk.Prelude.{
  ℕ, ◌+◌, ◌^◌, ◌≤◌, ◌<◌, ◌≡◌, refl, ap, ◌∙◌, sym, true, false, List, [], ◌++◌, Option, some, none,
  arith, leb, if◌then◌else◌, length, take, take_path, le→leb, nil_of_length,
}
use nbsdk.Memory.Copy.{memcpy, copied, memcpy-copied, length-copied, take-copied}
use nbsdk.Memory.Checked.{ok, undefined}
use nbsdk.Memory.Buffer.{
  Buffer, add_u32, array, is_some, values, ensure_capacity_with_headroom, append_data, set_data,
}
use nbsdk.Memory.Buffer.Valid.{IsValid, IsValid-is_consistent}
use nbsdk.Memory.Buffer.Grow.{ensure_capacity_with_headroom_lem}

module _ {A : Type 0} where
  -- What is behind the pointer after a copy into it.
  abbrev filled : Option (List A) → List A → Option (List A)
  filled old xs = if is_some old then some xs else none

  array-filled :
      (old : Option (List A)) (i : ℕ) (src : List A) (n : ℕ)
      → i + n ≤ length (array old)
      → n ≤ length src
      → array (filled old (copied (array old) i src 0 n)) ≡ copied (array old) i src 0 n
  array-filled (some xs) i src n p q = refl
  array-filled none i src n p q = sym (nil_of_length _ (length-copied [] i src 0 n p (omega arith)))

  appended : Buffer A → List A → ℕ → ℕ → Buffer A
  appended b src n total = record b {
    elements = filled b.elements (copied (array b.elements) b.size src 0 n);
    size = total;
  }

  module _ (b : Buffer A) (v : IsValid b) (src : List A) (n total : ℕ) (sum : total ≡ b.size + n)
      (room : total ≤ b.capacity) (enough : n ≤ length src) where
    inside : b.size + n ≤ length (array b.elements)
    inside = omega (arith, v.storage)

    appended-IsValid : IsValid (appended b src n total)
    unfolding appended
    appended-IsValid = record {
      storage =
          ap length (array-filled b.elements b.size src n inside enough)
          ∙ length-copied (array b.elements) b.size src 0 n inside (omega arith)
          ∙ v.storage;
      size_in = room;
      small = v.small;
    }

    values-appended : values (appended b src n total) ≡ values b ++ take n src
    unfolding appended
    values-appended =
        ap (take total) (array-filled b.elements b.size src n inside enough)
        ∙ take_path total (b.size + n) _ sum
        ∙ take-copied (array b.elements) b.size src n inside enough

  -- Where the sum of the sizes fits 32 bits, `AppendData` puts the elements of the caller's array
  -- behind those in use, and keeps the buffer valid: no check fails, and no copy goes outside an
  -- array.
  pub append_data_lem :
      (memory : ℕ → A) (b : Buffer A) (src : List A) (n : ℕ)
      → IsValid b
      → n ≤ length src
      → b.size + n < 2 ^ 32
      → (b' : Buffer A) × (append_data memory b src n ≡ ok b')
        × (values b' ≡ values b ++ take n src)
        × (b.capacity ≤ b'.capacity)
        × IsValid b'
  unfolding append_data appended
  append_data_lem memory b src n v enough fits =
      let no_wrap : add_u32 b.size n ≡ b.size + n = omega arith in
      let (b₁, e, same, size, room, keep, _, v₁) =
        ensure_capacity_with_headroom_lem memory b (b.size + n) true v fits in
      let total = b.size + n in
      let sum : total ≡ b₁.size + n = omega arith in
      (
        appended b₁ src n total,
        rw (
          IsValid-is_consistent b v,
          no_wrap,
          e,
          memcpy-copied (array b₁.elements) b₁.size src 0 n
              (inside b₁ v₁ src n total sum room enough) (omega arith),
          IsValid-is_consistent (appended b₁ src n total)
              (appended-IsValid b₁ v₁ src n total sum room enough),
        ),
        values-appended b₁ v₁ src n total sum room enough ∙ ap (λ l. l ++ take n src) same,
        keep,
        appended-IsValid b₁ v₁ src n total sum room enough,
      )

  -- Where it does not fit, `AppendData` writes outside its array: the wrapped sum asks for no room.
  pub append_data_overflow :
      (memory : ℕ → A) (b : Buffer A) (src : List A) (n : ℕ)
      → IsValid b
      → n < 2 ^ 32
      → 2 ^ 32 ≤ b.size + n
      → append_data memory b src n ≡ undefined
  unfolding append_data ensure_capacity_with_headroom memcpy
  append_data_overflow memory b src n v small over =
      rw (IsValid-is_consistent b v, covered, outside)
    where
      covered : leb (add_u32 b.size n) b.capacity ≡ true
      covered = le→leb (add_u32 b.size n) b.capacity (omega (arith, v.small, v.size_in))

      outside : leb (b.size + n) (length (array b.elements)) ≡ false
      outside = ground (arith, v.small, v.storage)

  -- `SetData` replaces the elements in use by those of the caller's array, and keeps the buffer
  -- valid.
  pub set_data_lem :
      (memory : ℕ → A) (b : Buffer A) (src : List A) (n : ℕ)
      → IsValid b
      → n ≤ length src
      → n < 2 ^ 32
      → (b' : Buffer A) × (set_data memory b src n ≡ ok b') × (values b' ≡ take n src) × IsValid b'
  unfolding set_data
  set_data_lem memory b src n v enough fits =
      let v₀ : IsValid (record b { size = 0 }) = record {
        storage = v.storage;
        size_in = omega arith;
        small = v.small;
      } in
      let (b', e, same, _, v') =
        append_data_lem memory (record b { size = 0 }) src n v₀ enough (omega arith) in
      (b', rw (IsValid-is_consistent b v) e, same, v')
