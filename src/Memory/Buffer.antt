-- ===== src/Memory/Buffer.antt =====
-- memery/include/buffer.h: the members of `BufferT<T>`. One that updates the object returns the new
-- object. Sizes are `uint32_t`, whose sums wrap.
pub mod Valid
pub mod Grow
pub mod Append
pub mod Move
pub mod Compare
pub mod Access
mod Tests
use nbsdk.Prelude.{
  ℕ, zero, suc, ◌+◌, ◌/◌, ◌%◌, ◌^◌, max, Bool, true, false, not, ◌&&◌, ◌||◌, Option, none, some,
  List, [], ◌∷◌, ◌==◌, leb, ltb, if◌then◌else◌, tabulate, get_elem?, take,
}
use nbsdk.Memory.Copy.{memcpy}
use nbsdk.Memory.Checked.{Result, ok, undefined, ◌>>=◌, ◌>>◌, check, or_undefined}

abbrev pub add_u32 : ℕ → ℕ → ℕ
add_u32 a b = (a + b) % 2 ^ 32

-- `data` is `none` for a null pointer; what a moved-from object owned is gone.
pub record Buffer (A : Type 0) : Type 0 where
  pub size : ℕ
  pub capacity : ℕ
  pub elements : Option (List A)

-- The array behind the pointer. A null pointer has no elements, and a copy of no elements to or from
-- it does nothing.
abbrev pub array {ℓ} : {A : Type ℓ} → Option (List A) → List A
array none = []
array (some xs) = xs

abbrev pub is_some {ℓ} : {A : Type ℓ} → Option A → Bool
is_some none = false
is_some (some x) = true

module _ {A : Type 0} where
  pub empty_buffer : Buffer A
  empty_buffer = record { size = 0; capacity = 0; elements = none }

  pub is_consistent : Buffer A → Bool
  is_consistent b = (is_some b.elements || b.capacity == 0) && leb b.size b.capacity

  -- The elements in use.
  abbrev pub values : Buffer A → List A
  values b = take b.size (array b.elements)

  -- `BufferT(uint32_t size, uint32_t capacity)`; `memory` is what `new T[n]` holds at first.
  pub create : (ℕ → A) → ℕ → ℕ → Result (Buffer A)
  create memory size capacity = do
    let room = max size capacity
    let b : Buffer A = record {
      size = size;
      capacity = room;
      elements = if ltb 0 room then some (tabulate room memory) else none;
    }
    check (is_consistent b)
    ok b

  -- `BufferT(const T* data, uint32_t size, uint32_t capacity)`
  pub create_from : (ℕ → A) → List A → ℕ → ℕ → Result (Buffer A)
  create_from memory src size capacity = do
    b ← create memory size capacity
    xs ← or_undefined (memcpy (array b.elements) 0 src 0 size)
    ok (record b { elements = if is_some b.elements then some xs else none })

  pub get_size : Buffer A → Result ℕ
  get_size b = do check (is_consistent b); ok b.size

  pub get_capacity : Buffer A → Result ℕ
  get_capacity b = do check (is_consistent b); ok b.capacity

  pub is_empty : Buffer A → Result Bool
  is_empty b = do check (is_consistent b); ok (b.size == 0)

  -- `operator[]`
  pub at : Buffer A → ℕ → Result A
  at b i = do
    check (ltb i b.size)
    check (is_consistent b)
    or_undefined (get_elem? (array b.elements) i)

  grow : (ℕ → A) → Buffer A → ℕ → Bool → Result (Buffer A)
  grow memory b capacity extra_headroom = do
    let new_capacity =
        if extra_headroom then max capacity (add_u32 b.capacity (b.capacity / 2)) else capacity
    xs ← or_undefined (memcpy (tabulate new_capacity memory) 0 (array b.elements) 0 b.size)
    let b' = record b { elements = some xs; capacity = new_capacity }
    check (is_consistent b')
    ok b'

  pub ensure_capacity_with_headroom : (ℕ → A) → Buffer A → ℕ → Bool → Result (Buffer A)
  ensure_capacity_with_headroom memory b capacity extra_headroom = do
    check (is_consistent b)
    if leb capacity b.capacity then ok b else grow memory b capacity extra_headroom

  pub ensure_capacity : (ℕ → A) → Buffer A → ℕ → Result (Buffer A)
  ensure_capacity memory b capacity = ensure_capacity_with_headroom memory b capacity false

  -- The caller's array is not the object's own.
  pub append_data : (ℕ → A) → Buffer A → List A → ℕ → Result (Buffer A)
  append_data memory b src size = do
    check (is_consistent b)
    let new_size = add_u32 b.size size
    b₁ ← ensure_capacity_with_headroom memory b new_size true
    xs ← or_undefined (memcpy (array b₁.elements) b₁.size src 0 size)
    let b₂ = record b₁ { elements = if is_some b₁.elements then some xs else none; size = new_size }
    check (is_consistent b₂)
    ok b₂

  pub set_data : (ℕ → A) → Buffer A → List A → ℕ → Result (Buffer A)
  set_data memory b src size = do
    check (is_consistent b)
    append_data memory (record b { size = 0 }) src size

  pub set_size : (ℕ → A) → Buffer A → ℕ → Result (Buffer A)
  set_size memory b size = do
    b₁ ← ensure_capacity_with_headroom memory b size true
    ok (record b₁ { size = size })

  pub clear : Buffer A → Result (Buffer A)
  clear b = do let b' = record b { size = 0 }; check (is_consistent b'); ok b'

  -- What `OnMovedFrom` leaves of an object whose pointer was moved out.
  on_moved_from : Buffer A → Buffer A
  on_moved_from b = record b { size = 0; capacity = 0 }

  -- `BufferT(BufferT&& buf)`: the new object, and what is left of `buf`.
  pub move_construct : Buffer A → Result (Buffer A × Buffer A)
  move_construct buf = do
    size ← get_size buf
    capacity ← get_capacity buf
    let b : Buffer A = record { size = size; capacity = capacity; elements = buf.elements }
    check (is_consistent b)
    ok (b, on_moved_from (record buf { elements = none }))

  -- `operator=(BufferT&& buf)` between two objects: the object, and what is left of `buf`.
  pub move_assign : Buffer A → Buffer A → Result (Buffer A × Buffer A)
  move_assign b buf = do
    check (is_consistent b)
    check (is_consistent buf)
    ok (buf, on_moved_from (record buf { elements = none }))

  -- `b = std::move(b)`: the pointer survives, the sizes do not.
  pub move_assign_self : Buffer A → Result (Buffer A)
  move_assign_self b = do check (is_consistent b); ok (on_moved_from b)

  pub swap : Buffer A → Buffer A → Buffer A × Buffer A
  swap a b = (
    record { size = b.size; capacity = b.capacity; elements = b.elements },
    record { size = a.size; capacity = a.capacity; elements = a.elements },
  )

  -- `operator==`: `memcmp` for an integral type, and a loop for any other.
  module _ (differ : A → A → Bool) where
    memcmp_eq : ℕ → List A → List A → Result Bool
    memcmp_eq zero xs ys = ok true
    memcmp_eq (suc n) [] ys = undefined
    memcmp_eq (suc n) (x ∷ xs) [] = undefined
    memcmp_eq (suc n) (x ∷ xs) (y ∷ ys) = do
      same ← memcmp_eq n xs ys
      ok (if differ x y then false else same)

    -- From index `i` on, with `n` rounds left.
    loop_eq : ℕ → ℕ → List A → List A → Result Bool
    loop_eq zero i xs ys = ok true
    loop_eq (suc n) i xs ys = do
      x ← or_undefined (get_elem? xs i)
      y ← or_undefined (get_elem? ys i)
      elim (differ x y) [ true ↦ ok false | false ↦ loop_eq n (i + 1) xs ys ]

    same_elements : Bool → Buffer A → Buffer A → Result Bool
    same_elements true a b = memcmp_eq a.size (array a.elements) (array b.elements)
    same_elements false a b = loop_eq a.size 0 (array a.elements) (array b.elements)

    pub equals : Bool → Buffer A → Buffer A → Result Bool
    unfolding same_elements
    equals is_integral a b = do
      check (is_consistent a)
      (if a.size == b.size then same_elements is_integral a b else ok false)
